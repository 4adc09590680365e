-- ===== src/Smpp/Framing.antt =====
-- The framing of the stream of bytes in `EsmeClient` (src/vumi2/transports/smpp/client.py):
-- `extract_pdu` and the loop of `consume_stream`. What is done with the bytes of one PDU, that is
-- `self.encoder.decode` and `handle_pdu`, is the argument `receive`.
pub mod Extract
pub mod Chunks
pub mod Frames
use vumi.Prelude.{
  ℕ, zero, suc, ◌*◌, ◌+◌, Option, none, some, List, [], ◌∷◌, ◌++◌, length, take, drop, ltb, Result,
  ok, err, Error, if◌then◌else◌,
}
use vumi.Smpp.Pdu.{Bytes}

-- `int.from_bytes(data, "big")`, onto what was read before.
abbrev pub from_bytes : ℕ → Bytes → ℕ
from_bytes n [] = n
from_bytes n (b ∷ bs) = from_bytes (n * 256 + b) bs

-- The PDU, and what is left in the buffer.
unfoldable pub extract_pdu : Bytes → Option (Bytes × Bytes)
extract_pdu buffer =
    if ltb (length buffer) 16
    then none
    else let cmd_length = from_bytes 0 (take 4 buffer) in
      if ltb (length buffer) cmd_length
      then none
      else some (take cmd_length buffer, drop cmd_length buffer)

-- Where the inner loop ends: at `break`, with the buffer, or in an exception of `receive`.
pub data Drained (S : Type 0) : Type 0 where
  waiting : Bytes → S → Drained S
  raised : Error → S → Drained S
  out_of_fuel : Drained S

-- What follows the call of `receive`, unless that raises.
abbrev pub received : {S : Type 0} → Result (Unit {0}) × S → (S → Drained S) → Drained S
received (err e, s) next = raised e s
received (ok _, s) next = next s

module _ {S : Type 0} (receive : Bytes → S → Result (Unit {0}) × S) where
  -- The `while True` of `consume_stream`.
  unfoldable pub drain : ℕ → Bytes → S → Drained S
  unfolding extract_pdu
  drain zero buffer s = out_of_fuel
  drain (suc fuel) buffer s = elim (extract_pdu buffer) [
    | none ↦ waiting buffer s
    | some (pdu_data, rest) ↦ received (receive pdu_data s) (λ s'. drain fuel rest s')
  ]

  -- A PDU takes a byte of the buffer at least, or else `receive` raises.
  abbrev pub enough : Bytes → ℕ
  enough buffer = suc (length buffer)

  -- The `async for` of `consume_stream`, over the chunks that the stream gives.
  unfoldable pub consume_stream : List Bytes → Bytes → S → Drained S
  unfolding drain
  consume_stream [] buffer s = waiting buffer s
  consume_stream (chunk ∷ chunks) buffer s =
      elim (drain (enough (buffer ++ chunk)) (buffer ++ chunk) s) [
        | waiting buffer' s' ↦ consume_stream chunks buffer' s'
        | raised e s' ↦ raised e s'
        | out_of_fuel ↦ out_of_fuel
      ]
