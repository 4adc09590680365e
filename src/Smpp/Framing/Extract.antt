-- ===== src/Smpp/Framing/Extract.antt =====
-- What `extract_pdu` (src/vumi2/transports/smpp/client.py) cuts off a buffer.
use vumi.Prelude.{
  ℕ, zero, suc, ◌≤◌, ◌<◌, ◌≡◌, refl, sym, ap, ◌∙◌, some, [], ◌∷◌, ◌++◌, length, take, drop, arith,
  inl, inr, ◌⊎◌, length-append, length-drop,
}
use vumi.Smpp.Pdu.{Bytes}
use vumi.Smpp.Framing.{from_bytes, extract_pdu}

take-append : (n : ℕ) (xs ys : Bytes) → n ≤ length xs → take n (xs ++ ys) ≡ take n xs
take-append zero xs ys h = refl
take-append (suc n) [] ys h = ground arith
take-append (suc n) (x ∷ xs) ys h = ap (◌∷◌ x) (take-append n xs ys (omega arith))

drop-append : (n : ℕ) (xs ys : Bytes) → n ≤ length xs → drop n (xs ++ ys) ≡ drop n xs ++ ys
drop-append zero xs ys h = refl
drop-append (suc n) [] ys h = ground arith
drop-append (suc n) (x ∷ xs) ys h = drop-append n xs ys (omega arith)

-- What a successful extraction says of the buffer.
pub extract_pdu-some :
    (a p r : Bytes)
    → extract_pdu a ≡ some (p, r)
    → (16 ≤ length a)
      × (from_bytes 0 (take 4 a) ≤ length a)
      × (take (from_bytes 0 (take 4 a)) a ≡ p)
      × (drop (from_bytes 0 (take 4 a)) a ≡ r)
unfolding extract_pdu
extract_pdu-some a p r h = ground arith

pub some-extract_pdu :
    (a : Bytes)
    → 16 ≤ length a
    → from_bytes 0 (take 4 a) ≤ length a
    → extract_pdu a ≡ some (take (from_bytes 0 (take 4 a)) a, drop (from_bytes 0 (take 4 a)) a)
unfolding extract_pdu
some-extract_pdu a long full = ground arith

pub extract_pdu-append :
    (a b p r : Bytes) → extract_pdu a ≡ some (p, r) → extract_pdu (a ++ b) ≡ some (p, r ++ b)
extract_pdu-append a b p r h =
    let (long, full, pdu, rest) = extract_pdu-some a p r h in
    let same : from_bytes 0 (take 4 (a ++ b)) ≡ from_bytes 0 (take 4 a) =
      ap (from_bytes 0) (take-append 4 a b (omega arith)) in
    let n = from_bytes 0 (take 4 a) in
    some-extract_pdu (a ++ b) (omega (arith, length-append a b))
      (omega (arith, length-append a b, same))
    ∙ ap (λ (k : ℕ). some (take k (a ++ b), drop k (a ++ b))) same
    ∙ rw (take-append n a b full, drop-append n a b full, pdu, rest)

cut_shorter :
    (n : ℕ) (a p r : Bytes)
    → 16 ≤ length a
    → take n a ≡ p
    → drop n a ≡ r
    → (p ≡ []) ⊎ (length r < length a)
cut_shorter zero a p r long pdu rest = inl (sym pdu)
cut_shorter (suc n) a p r long pdu rest =
    inr (omega (arith, ap (length {A = ℕ}) rest, length-drop (suc n) a))

pub extract_pdu-shorter :
    (a p r : Bytes) → extract_pdu a ≡ some (p, r) → (p ≡ []) ⊎ (length r < length a)
extract_pdu-shorter a p r h =
    let (long, full, pdu, rest) = extract_pdu-some a p r h in cut_shorter _ a p r long pdu rest
