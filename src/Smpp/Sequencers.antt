-- ===== src/Smpp/Sequencers.antt =====
-- `InMemorySequencer` of src/vumi2/transports/smpp/sequencers.py.
use vumi.Prelude.{ℕ, zero, suc, ◌+◌, ◌-◌, ◌%◌, ◌≤◌, ◌<◌, ◌≡◌, ◌≢◌, ◌∙◌, arith}

pub record Sequencer : Type 0 where
  pub sequence_number : ℕ

unfoldable pub new : Sequencer
new = record { sequence_number = 0 }

abbrev pub limit : ℕ
limit = 0x7FFFFFFF

unfoldable pub get_next_sequence_number : Sequencer → ℕ × Sequencer
get_next_sequence_number s =
    let n = s.sequence_number % limit + 1 in (n, record { sequence_number = n })

-- The state after `k` calls.
unfoldable pub after : ℕ → Sequencer → Sequencer
unfolding get_next_sequence_number
after zero s = s
after (suc k) s = after k (get_next_sequence_number s).1

-- Every number given out lies in the range of SMPP.
pub next_bounds :
    (s : Sequencer)
    → (1 ≤ (get_next_sequence_number s).0) × ((get_next_sequence_number s).0 ≤ limit)
unfolding get_next_sequence_number
next_bounds s = omega arith

-- From a number in the range, the number after `k` more calls.
after_lem :
    (k n : ℕ)
    → 1 ≤ n
    → n ≤ limit
    → (after k (record { sequence_number = n })).sequence_number ≡ (n - 1 + k) % limit + 1
unfolding after
after_lem zero n lo hi = omega arith
after_lem (suc k) n lo hi = after_lem k (n % limit + 1) (omega arith) (omega arith) ∙ omega arith

-- The number of a call and that of the call `k` calls later differ, for every `k` below the
-- length of the range, also where the sequence wraps.
pub after_distinct :
    (s : Sequencer) (k : ℕ)
    → 0 < k
    → k < limit
    → (get_next_sequence_number s).0 ≢ (get_next_sequence_number (after k s)).0
unfolding get_next_sequence_number after
after_distinct s zero lo hi e = absurd (omega arith)
after_distinct s (suc k) lo hi e =
    omega (arith, e, after_lem k (s.sequence_number % limit + 1) (omega arith) (omega arith))
