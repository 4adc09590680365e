-- ===== src/Connectors/Pairing.antt =====
-- The routing keys of src/vumi2/connectors.py tell connectors and message types apart, so what one
-- worker publishes reaches the handler of the connector with the same name in another.
use text.Mathlib.TextLemmas.{append_inj, append_cancel_right, append_assoc, length-append}
use Prim.Native.String.{count}
use text.Mathlib.TextEquality.{eq_iff}
use vumi.Prelude.{◌+◌, ◌≡◌, ◌≢◌, refl, sym, ap, ◌∙◌, ◌⊎◌, inl, inr, String, ◌<>◌, arith}
use vumi.Connectors.Base.{routing_key}

-- The message types that the two connectors set up.
abbrev pub IsMessageType : String → Type 0
IsMessageType t = (t ≡ "inbound") ⊎ ((t ≡ "outbound") ⊎ (t ≡ "event"))

-- Two texts that end in parts of the same length are equal part by part.
append_inj_of_right : (a b s t : String) → count s ≡ count t → a <> s ≡ b <> t → (a ≡ b) × (s ≡ t)
append_inj_of_right a b s t n h =
    append_inj h (lengths (sym (length-append a s) ∙ (ap count h ∙ length-append b t)) n)
  where
    lengths : count a + count s ≡ count b + count t → count s ≡ count t → count a ≡ count b
    lengths p q = omega arith

-- Texts that differ in a letter at the same distance from the end.
differ :
    (a b p q s t u : String)
    → count s ≡ count t
    → s ≢ t
    → a <> (p <> (s <> u)) ≢ b <> (q <> (t <> u))
differ a b p q s t u n d h =
    d
      (append_inj_of_right (a <> p) (b <> q) s t n (
        append_cancel_right ((a <> p) <> s) ((b <> q) <> t) u
          (regroup a p s u ∙ (h ∙ sym (regroup b q t u))))).1
  where
    regroup : (a p s u : String) → ((a <> p) <> s) <> u ≡ a <> (p <> (s <> u))
    regroup a p s u = append_assoc (a <> p) s u ∙ append_assoc a p (s <> u)

inbound≢outbound : (n m : String) → routing_key n "inbound" ≢ routing_key m "outbound"
unfolding routing_key
inbound≢outbound n m =
    differ n m ".i" ".ou" "n" "t" "bound" refl (λ p. ground (arith, eq_iff "n" "t"))

inbound≢event : (n m : String) → routing_key n "inbound" ≢ routing_key m "event"
unfolding routing_key
inbound≢event n m =
    differ n m ".inboun" ".even" "d" "t" "" refl (λ p. ground (arith, eq_iff "d" "t"))

outbound≢event : (n m : String) → routing_key n "outbound" ≢ routing_key m "event"
unfolding routing_key
outbound≢event n m =
    differ n m ".outboun" ".even" "d" "t" "" refl (λ p. ground (arith, eq_iff "d" "t"))

-- The same routing key for the message types `inbound`, `outbound` and `event` comes from the same
-- connector name and the same message type only.
pub routing_key-inj :
    (n m t u : String)
    → IsMessageType t
    → IsMessageType u
    → routing_key n t ≡ routing_key m u
    → (n ≡ m) × (t ≡ u)
unfolding routing_key
routing_key-inj n m t u ht hu h = elim ht [
  | inl p ↦ elim hu [
    | inl q ↦ same (p ∙ sym q)
    | inr r ↦ elim r [
      | inl q ↦ absurd (inbound≢outbound n m (at p q))
      | inr q ↦ absurd (inbound≢event n m (at p q))
    ]
  ]
  | inr r ↦ elim r [
    | inl p ↦ elim hu [
      | inl q ↦ absurd (inbound≢outbound m n (sym (at p q)))
      | inr r ↦ elim r [ inl q ↦ same (p ∙ sym q) | inr q ↦ absurd (outbound≢event n m (at p q)) ]
    ]
    | inr p ↦ elim hu [
      | inl q ↦ absurd (inbound≢event m n (sym (at p q)))
      | inr r ↦ elim r [
        | inl q ↦ absurd (outbound≢event m n (sym (at p q)))
        | inr q ↦ same (p ∙ sym q)
      ]
    ]
  ]
]
  where
    at : {v w : String} → t ≡ v → u ≡ w → routing_key n v ≡ routing_key m w
    at p q = sym (ap (routing_key n) p) ∙ (h ∙ ap (routing_key m) q)

    same : t ≡ u → (n ≡ m) × (t ≡ u)
    same p = (append_cancel_right n m ("." <> t) (h ∙ ap (λ v. m <> ("." <> v)) (sym p)), p)
