-- ===== src/Connectors/Closing/Counts.antt =====
-- How often a delivery is at a place in a `Consumer` (src/vumi2/connectors.py).
use vumi.Prelude.{
  ℕ, suc, ◌+◌, ◌≡◌, refl, String, Bool, true, false, List, [], ◌∷◌, ◌++◌, ◌=?◌, Result, ok, err,
  if◌then◌else◌, some, arith,
}
use vumi.Connectors.{
  Delivery, Settled, acked, nacked, consume_message, Call, Calls, returns, raises, cancelled,
  refuse,
}

-- How often a tag is among deliveries.
abbrev pub times : ℕ → List Delivery → ℕ
times t [] = 0
times t (d ∷ ds) = let rest = times t ds in if d.delivery_tag =? t then suc rest else rest

abbrev pub tag_of : Settled → ℕ
tag_of (acked t) = t
tag_of (nacked t) = t

-- How often it is settled, either way.
abbrev pub times_settled : ℕ → List Settled → ℕ
times_settled t [] = 0
times_settled t (s ∷ ss) = let rest = times_settled t ss in if tag_of s =? t then suc rest else rest

pub times-append : (t : ℕ) (xs ys : List Delivery) → times t (xs ++ ys) ≡ times t xs + times t ys
times-append t [] ys = omega arith
times-append t (d ∷ ds) ys = ground (arith, times-append t ds ys)

pub times_settled-append :
    (t : ℕ) (xs ys : List Settled)
    → times_settled t (xs ++ ys) ≡ times_settled t xs + times_settled t ys
times_settled-append t [] ys = omega arith
times_settled-append t (s ∷ ss) ys = ground (arith, times_settled-append t ss ys)

tag_of-refuse :
    (calls : Calls) (d : Delivery) (s : Settled)
    → refuse calls d ≡ some s
    → tag_of s ≡ d.delivery_tag
tag_of-refuse calls d s h = go calls.nack refl
  where
    go : (n : Call) → calls.nack ≡ n → tag_of s ≡ d.delivery_tag
    go returns e = cc
    go raises e = cc
    go cancelled e = cc

pub tag_of-consume_message :
    {R : Type 0} (handle : String → Result R) (calls : Calls) (d : Delivery) (s : Settled)
    → consume_message handle calls d ≡ some s
    → tag_of s ≡ d.delivery_tag
unfolding consume_message
tag_of-consume_message {R = R} handle calls d s h =
    go calls.is_cancelled (handle d.body) calls.ack refl refl refl
  where
    go :
        (b : Bool) (r : Result R) (a : Call)
        → calls.is_cancelled ≡ b
        → handle d.body ≡ r
        → calls.ack ≡ a
        → tag_of s ≡ d.delivery_tag
    go true r a e k l = cc
    go false (err x) a e k l = tag_of-refuse calls d s (cc)
    go false (ok x) returns e k l = cc
    go false (ok x) raises e k l = tag_of-refuse calls d s (cc)
    go false (ok x) cancelled e k l = cc
