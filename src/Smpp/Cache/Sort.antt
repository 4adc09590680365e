-- ===== src/Smpp/Cache/Sort.antt =====
-- `sorted(parts.items())` does not depend on the order in which the parts came.
use mathlib.Core.List.{Permᴰ}
use mathlib.Core.Path.{ap₂, subst}
use vumi.Prelude.{
  ℕ, suc, ◌+◌, ◌<◌, ◌≤◌, ◌≡◌, ◌≢◌, refl, ap, sym, ◌∙◌, String, ◌<>◌, List, [], ◌∷◌, arith, nat_eq,
  length, ltb, if◌then◌else◌,
}
use vumi.Prelude.Dict.{NodupKeys, Absent}
use vumi.Smpp.Cache.{Parts, insert_sorted, sort_parts, join}

insert_sorted-cons :
    (i : ℕ) (c : String) (j : ℕ) (d : String) (l : Parts)
    → insert_sorted (i, c) ((j, d) ∷ l)
      ≡ (if ltb j i then (j, d) ∷ insert_sorted (i, c) l else (i, c) ∷ (j, d) ∷ l)
unfolding insert_sorted
insert_sorted-cons i c j d l = refl

insert_sorted-nil : (p : ℕ × String) → insert_sorted p [] ≡ p ∷ []
unfolding insert_sorted
insert_sorted-nil p = refl

insert_sorted_comm :
    (i : ℕ) (c : String) (j : ℕ) (d : String) (l : Parts)
    → i ≢ j
    → insert_sorted (i, c) (insert_sorted (j, d) l) ≡ insert_sorted (j, d) (insert_sorted (i, c) l)
insert_sorted_comm i c j d [] n = ground (
  arith,
  insert_sorted-nil (i, c),
  insert_sorted-nil (j, d),
  insert_sorted-cons i c j d [],
  insert_sorted-cons j d i c [],
)
insert_sorted_comm i c j d ((k, e) ∷ l) n = ground (
  arith,
  insert_sorted_comm i c j d l n,
  insert_sorted-cons i c k e l,
  insert_sorted-cons j d k e l,
  insert_sorted-cons i c k e (insert_sorted (j, d) l),
  insert_sorted-cons j d k e (insert_sorted (i, c) l),
  insert_sorted-cons i c j d ((k, e) ∷ l),
  insert_sorted-cons j d i c ((k, e) ∷ l),
)

Absent-perm : (k : ℕ) {l m : Parts} → Permᴰ l m → Absent k l → Absent k m
Absent-perm k Permᴰ.nil h = h
Absent-perm k (Permᴰ.cons e p) h = (rw (← e) (h.0), Absent-perm k p h.1)
Absent-perm k (Permᴰ.swap e f) h = (
  subst (λ (q : ℕ × String). q.0 ≢ k) f h.1.0,
  (subst (λ (q : ℕ × String). q.0 ≢ k) e h.0, h.1.1),
)
Absent-perm k (Permᴰ.trans p q) h = Absent-perm k q (Absent-perm k p h)

NodupKeys-perm : {l m : Parts} → Permᴰ l m → NodupKeys l → NodupKeys m
NodupKeys-perm Permᴰ.nil h = h
NodupKeys-perm (Permᴰ.cons e p) h = (rw (← e) (Absent-perm _ p h.0), NodupKeys-perm p h.1)
NodupKeys-perm (Permᴰ.swap {l} e f) h = (
  (λ x. h.0.0 (key f ∙ sym x ∙ sym (key e)), subst (λ (q : ℕ × String). Absent q.0 l) f h.1.0),
  (subst (λ (q : ℕ × String). Absent q.0 l) e h.0.1, h.1.1),
)
  where
    key : {p q : ℕ × String} → p ≡ q → p.0 ≡ q.0
    key = ap (λ (q : ℕ × String). q.0)
NodupKeys-perm (Permᴰ.trans p q) h = NodupKeys-perm q (NodupKeys-perm p h)

sort_parts-perm : {l m : Parts} → Permᴰ l m → NodupKeys l → sort_parts l ≡ sort_parts m
unfolding sort_parts
sort_parts-perm Permᴰ.nil h = refl
sort_parts-perm (Permᴰ.cons e p) h = ap₂ insert_sorted e (sort_parts-perm p h.1)
sort_parts-perm (Permᴰ.swap {a} {b} {a'} {b'} {l} e f) h =
    insert_sorted_comm a.0 a.1 b.0 b.1 (sort_parts l) (λ x. h.0.0 (sym x))
    ∙ ap₂ (λ x y. insert_sorted x (insert_sorted y (sort_parts l))) f e
sort_parts-perm (Permᴰ.trans p q) h = sort_parts-perm p h ∙ sort_parts-perm q (NodupKeys-perm p h)

-- The segments of a message with their numbers, from `i` on.
unfoldable pub number_from : ℕ → List String → Parts
number_from i [] = []
number_from i (c ∷ l) = (i, c) ∷ number_from (i + 1) l

-- `"".join(…)`
unfoldable pub concat : List String → String
concat [] = ""
concat (c ∷ l) = c <> concat l

-- Every part number is at least `i`.
abbrev From : ℕ → Parts → Type 0
From i [] = Unit
From i ((j, c) ∷ l) = (i ≤ j) × From i l

From-number_from : (i j : ℕ) (l : List String) → i ≤ j → From i (number_from j l)
unfolding number_from
From-number_from i j [] h = tt
From-number_from i j (c ∷ l) h = (h, From-number_from i (j + 1) l (omega arith))

insert_sorted_first :
    (i : ℕ) (c : String) (l : Parts) → From (i + 1) l → insert_sorted (i, c) l ≡ (i, c) ∷ l
unfolding insert_sorted
insert_sorted_first i c [] h = refl
insert_sorted_first i c ((j, d) ∷ l) h = ground arith

sort_number_from : (i : ℕ) (l : List String) → sort_parts (number_from i l) ≡ number_from i l
unfolding sort_parts number_from
sort_number_from i [] = refl
sort_number_from i (c ∷ l) =
    ap (insert_sorted (i, c)) (sort_number_from (i + 1) l)
    ∙ insert_sorted_first i c _ (From-number_from (i + 1) (i + 1) l (omega arith))

Absent-number_from : (k i : ℕ) (l : List String) → k < i → Absent k (number_from i l)
unfolding number_from
Absent-number_from k i [] h = tt
Absent-number_from k i (c ∷ l) h = (omega arith, Absent-number_from k (i + 1) l (omega arith))

pub number_from-NodupKeys : (i : ℕ) (l : List String) → NodupKeys (number_from i l)
unfolding number_from
number_from-NodupKeys i [] = tt
number_from-NodupKeys i (c ∷ l) =
    (Absent-number_from i (i + 1) l (omega arith), number_from-NodupKeys (i + 1) l)

join-number_from : (i : ℕ) (l : List String) → join (number_from i l) ≡ concat l
unfolding join concat number_from
join-number_from i [] = refl
join-number_from i (c ∷ l) = ap (◌<>◌ c) (join-number_from (i + 1) l)

-- Sorting any arrangement of the numbered segments and joining gives the segments in order.
pub join-sort_parts :
    (l : List String) {parts : Parts}
    → Permᴰ (number_from 1 l) parts
    → join (sort_parts parts) ≡ concat l
join-sort_parts l p =
    ap join (sym (sort_parts-perm p (number_from-NodupKeys 1 l)) ∙ sort_number_from 1 l)
    ∙ join-number_from 1 l

pub NodupKeys-arrangement :
    (l : List String) {parts : Parts} → Permᴰ (number_from 1 l) parts → NodupKeys parts
NodupKeys-arrangement l p = NodupKeys-perm p (number_from-NodupKeys 1 l)

length-perm : {l m : Parts} → Permᴰ l m → length l ≡ length m
length-perm Permᴰ.nil = refl
length-perm (Permᴰ.cons e p) = ap suc (length-perm p)
length-perm (Permᴰ.swap e f) = refl
length-perm (Permᴰ.trans p q) = length-perm p ∙ length-perm q

length-number_from : (i : ℕ) (l : List String) → length (number_from i l) ≡ length l
unfolding number_from
length-number_from i [] = refl
length-number_from i (c ∷ l) = ap suc (length-number_from (i + 1) l)

pub length-arrangement :
    (l : List String) {parts : Parts} → Permᴰ (number_from 1 l) parts → length l ≡ length parts
length-arrangement l p = sym (length-number_from 1 l) ∙ length-perm p
