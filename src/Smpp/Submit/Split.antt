-- ===== src/Smpp/Submit/Split.antt =====
-- `_split_message` cuts the whole message, into pieces of the right size
-- (src/vumi2/transports/smpp/processors.py).
use native.Mathlib.Nat.{div-add-mod', mod-lt, zero-add, suc-add}
use vumi.Prelude.{
  ℕ, zero, suc, ◌+◌, ◌-◌, ◌*◌, ◌/◌, ◌≤◌, ◌<◌, ◌≡◌, refl, ap, sym, ◌∙◌, List, [], ◌∷◌, ◌++◌, length,
  take, drop, All, arith, length-take, take-append-drop,
}
use vumi.Smpp.Pdu.{Bytes}
use vumi.Smpp.Submit.{split_from, split_message}

-- The pieces put together.
unfoldable pub join_bytes : List Bytes → Bytes
join_bytes [] = []
join_bytes (piece ∷ pieces) = piece ++ join_bytes pieces

drop_nil : (n : ℕ) → drop {A = ℕ} n [] ≡ []
drop_nil zero = refl
drop_nil (suc n) = refl

drop-drop : (n i : ℕ) (l : Bytes) → drop n (drop i l) ≡ drop (i + n) l
drop-drop n zero l = rw zero-add
drop-drop n (suc i) [] = rw suc-add (drop_nil n)
drop-drop n (suc i) (x ∷ l) = rw suc-add (drop-drop n i l)

drop_all : (i : ℕ) (l : Bytes) → length l ≤ i → drop i l ≡ []
drop_all zero [] h = refl
drop_all zero (x ∷ l) h = absurd (omega arith)
drop_all (suc i) [] h = refl
drop_all (suc i) (x ∷ l) h = drop_all i l (omega arith)

join-split_from :
    (rounds i size : ℕ) (message : Bytes)
    → length message ≤ i + rounds * size
    → join_bytes (split_from rounds i size message) ≡ drop i message
unfolding join_bytes split_from
join-split_from zero i size message h = sym (drop_all i message (omega arith))
join-split_from (suc r) i size message h =
    ap (λ (l : Bytes). take size (drop i message) ++ l)
      (join-split_from r (i + size) size message (grind arith) ∙ sym (drop-drop size i message))
    ∙ take-append-drop size (drop i message)

enough_rounds : (n size : ℕ) → 0 < size → n ≤ ((n + (size - 1)) / size) * size
enough_rounds n size h =
    omega (arith, div-add-mod' (n + (size - 1)) size, mod-lt (n + (size - 1)) h)

-- Whatever the size, the pieces put together are the message.
pub join-split_message :
    (message : Bytes) (size : ℕ) → 0 < size → join_bytes (split_message message size) ≡ message
unfolding split_message
join-split_message message size h =
    join-split_from _ 0 size message (omega (arith, enough_rounds (length message) size h))

length-split_from :
    (rounds i size : ℕ) (message : Bytes)
    → (length (split_from rounds i size message) ≡ rounds)
      × All (λ (piece : Bytes). length piece ≤ size) (split_from rounds i size message)
unfolding split_from
length-split_from zero i size message = (refl, tt)
length-split_from (suc r) i size message =
    let (n, small) = length-split_from r (i + size) size message in
    (ap suc n, (omega (arith, length-take size (drop i message)), small))

-- No piece is longer than the size, and there are as many as the length needs.
pub length-split_message :
    (message : Bytes) (size : ℕ)
    → (length (split_message message size) ≡ (length message + (size - 1)) / size)
      × All (λ (piece : Bytes). length piece ≤ size) (split_message message size)
unfolding split_message
length-split_message message size = length-split_from _ 0 size message
