-- ===== src/Cache/MessageCache/Latest.antt =====
-- `fetch_last_inbound_by_from_address` of `MemoryMessageCache` (src/vumi2/message_caches.py).
use vumi.Prelude.{
  ℕ, String, Bool, true, ◌≤◌, ◌≡◌, refl, ap, sym, ◌∙◌, Option, none, some, List, [], ◌∷◌, filter,
  ltb, ◌==◌, string_eq, if◌then◌else◌, arith, ◌⊎◌, inl, inr, All, Bool-cases, ltb→lt,
}
use text.Mathlib.TextEquality.{eq_iff}
use mathlib.Core.List.{Memᴰ}
use mathlib.Core.List.Memᴰ.{head, tail, not-nil}
use mathlib.Core.Path.{subst}
use vumi.Messages.{Message}
use vumi.Cache.TimeoutDict
use vumi.Cache.MessageCache.{
  MemoryMessageCache, latest, latest_of, fetch_last_inbound_by_from_address,
}

abbrev Bounds : Message → List Message → Type 0
Bounds m ms = All (λ (k : Message). k.timestamp ≤ m.timestamp) ms

Bounds-mono :
    (a b : Message) (ms : List Message) → a.timestamp ≤ b.timestamp → Bounds a ms → Bounds b ms
Bounds-mono a b [] h k = tt
Bounds-mono a b (m ∷ ms) h (k, ks) = (omega arith, Bounds-mono a b ms h ks)

abbrev later_of : Message → Message → Message
later_of b m = if ltb b.timestamp m.timestamp then m else b

later_of_lem :
    (b m : Message)
    → (b.timestamp ≤ (later_of b m).timestamp)
      × (m.timestamp ≤ (later_of b m).timestamp)
      × ((later_of b m ≡ m) ⊎ (later_of b m ≡ b))
later_of_lem b m = elim (Bool-cases (ltb b.timestamp m.timestamp)) [
  | inl newer ↦
      rw newer (omega (arith, ltb→lt b.timestamp m.timestamp newer), omega arith, inl refl)
  | inr older ↦ rw older (omega arith, ground arith, inr refl)
]

latest-Bounds :
    (best : Message) (ms : List Message)
    → (best.timestamp ≤ (latest best ms).timestamp) × Bounds (latest best ms) ms
unfolding latest
latest-Bounds best [] = (omega arith, tt)
latest-Bounds best (m ∷ ms) =
    let (b, c, same) = later_of_lem best m in
    let (up, bound) = latest-Bounds (later_of best m) ms in (omega arith, (omega arith, bound))

latest-Mem : (best : Message) (ms : List Message) → Memᴰ (latest best ms) (best ∷ ms)
unfolding latest
latest-Mem best [] = head refl
latest-Mem best (m ∷ ms) =
    let (b, c, same) = later_of_lem best m in
    skip best m (later_of best m) (latest (later_of best m) ms) ms same
      (latest-Mem (later_of best m) ms)
  where
    skip :
        (b m p l : Message) (ms : List Message)
        → (p ≡ m) ⊎ (p ≡ b)
        → Memᴰ l (p ∷ ms)
        → Memᴰ l (b ∷ m ∷ ms)
    skip b m p l ms (inl same) (head e) = tail (head (e ∙ same))
    skip b m p l ms (inr same) (head e) = head (e ∙ same)
    skip b m p l ms same (tail h) = tail (tail h)

module _ (p : Message → Bool) where
  Mem-filter : (m : Message) (ms : List Message) → Memᴰ m (filter p ms) → Memᴰ m ms × (p m ≡ true)
  Mem-filter m [] h = elim (not-nil h) [ ]
  Mem-filter m (k ∷ ms) h = elim (Bool-cases (p k)) [
    | inl good ↦
        kept good (Mem-filter m ms)
          (subst (λ (b : Bool). Memᴰ m (if b then k ∷ filter p ms else filter p ms)) good h)
    | inr bad ↦
        let (there, good) =
          Mem-filter m ms
            (subst (λ (b : Bool). Memᴰ m (if b then k ∷ filter p ms else filter p ms)) bad h) in
        (tail there, good)
  ]
    where
      kept :
          p k ≡ true
          → (Memᴰ m (filter p ms) → Memᴰ m ms × (p m ≡ true))
          → Memᴰ m (k ∷ filter p ms)
          → Memᴰ m (k ∷ ms) × (p m ≡ true)
      kept good next (head e) = (head e, ap p e ∙ good)
      kept good next (tail h) = let (there, good') = next h in (tail there, good')

  All-filter {κ} :
      (P : Message → Type κ) (ms : List Message)
      → All P (filter p ms)
      → All (λ (k : Message). p k ≡ true → P k) ms
  All-filter P [] h = tt
  All-filter P (k ∷ ms) h = elim (Bool-cases (p k)) [
    | inl good ↦
        let (here, rest) =
          subst (λ (b : Bool). All P (if b then k ∷ filter p ms else filter p ms)) good h in
        (λ _. here, All-filter P ms rest)
    | inr bad ↦ (
      λ good. cc,
      All-filter P ms
          (subst (λ (b : Bool). All P (if b then k ∷ filter p ms else filter p ms)) bad h),
    )
  ]

-- What a call finds among the messages in the cache: the last from the address, or none if there
-- are none.
abbrev pub IsNewest : String → List Message → Option Message → Type 0
IsNewest addr cached none = All (λ (k : Message). (k.from_addr == addr) ≡ true → ⊥) cached
IsNewest addr cached (some m) =
    Memᴰ m cached
    × (m.from_addr ≡ addr)
    × All (λ (k : Message). (k.from_addr == addr) ≡ true → k.timestamp ≤ m.timestamp) cached

latest_of-IsNewest :
    (addr : String) (cached : List Message)
    → IsNewest addr cached (latest_of (filter (λ (m : Message). m.from_addr == addr) cached))
latest_of-IsNewest addr cached = go (filter (λ (m : Message). m.from_addr == addr) cached) refl
  where
    go :
        (l : List Message)
        → filter (λ (m : Message). m.from_addr == addr) cached ≡ l
        → IsNewest addr cached (latest_of l)
    go [] e =
        All-filter (λ (m : Message). m.from_addr == addr) (λ _. ⊥) cached
          (subst (All (λ (k : Message). ⊥)) (sym e) tt)
    go (m ∷ ms) e =
        let (up, bound) = latest-Bounds m ms in
        let (there, from) =
          Mem-filter (λ (k : Message). k.from_addr == addr) (latest m ms) cached
            (subst (Memᴰ (latest m ms)) (sym e) (latest-Mem m ms)) in
        (
          there,
          (eq_iff (latest m ms).from_addr addr).0 from,
          All-filter (λ (k : Message). k.from_addr == addr)
              (λ (k : Message). k.timestamp ≤ (latest m ms).timestamp) cached
              (subst (Bounds (latest m ms)) (sym e) (up, bound)),
        )

-- The call finds a message from the address in the cache that has not expired, with no later one
-- from that address there. It finds none only if there is none.
pub fetch_last-IsNewest :
    (now : ℕ) (from_addr : String) (c : MemoryMessageCache)
    → IsNewest from_addr
        (TimeoutDict.values now c.inbounds).0
        (fetch_last_inbound_by_from_address now from_addr c).0
unfolding fetch_last_inbound_by_from_address
fetch_last-IsNewest now from_addr c =
    latest_of-IsNewest from_addr (TimeoutDict.values now c.inbounds).0
