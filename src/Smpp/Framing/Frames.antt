-- ===== src/Smpp/Framing/Frames.antt =====
-- The PDUs that `consume_stream` (src/vumi2/transports/smpp/client.py) receives from the stream.
use vumi.Prelude.{
  ℕ, zero, suc, ◌≤◌, ◌<◌, ◌≡◌, refl, ap, ◌∙◌, none, some, List, [], ◌∷◌, ◌++◌, length, take, drop,
  Result, err, Error, arith, length-append, fun_ext, All,
}
use mathlib.Core.List.{append_assoc}
use vumi.Smpp.Pdu.{Bytes}
use vumi.Smpp.Framing.Extract.{some-extract_pdu, extract_pdu-append}
use vumi.Smpp.Framing.Chunks.{concat, consume_stream_lem}
use vumi.Smpp.Framing.{
  from_bytes, extract_pdu, Drained, waiting, received, drain, enough, consume_stream,
}

take_all : (p : Bytes) → take (length p) p ≡ p
take_all [] = refl
take_all (x ∷ p) = ap (◌∷◌ x) (take_all p)

drop_all : (p : Bytes) → drop (length p) p ≡ []
drop_all [] = refl
drop_all (x ∷ p) = drop_all p

-- Each frame at the front of a buffer is received, in order.
abbrev pub IsFrame : Bytes → Type 0
IsFrame p = (16 ≤ length p) × (from_bytes 0 (take 4 p) ≡ length p)

abbrev pub receive_all :
    {S : Type 0} → (Bytes → S → Result (Unit {0}) × S) → Bytes → List Bytes → S → Drained S
receive_all receive tail [] s = waiting tail s
receive_all receive tail (p ∷ ps) s = received (receive p s) (λ s'. receive_all receive tail ps s')

extract_pdu-frame : (p b : Bytes) → IsFrame p → extract_pdu (p ++ b) ≡ some (p, b)
extract_pdu-frame p b (long, full) = extract_pdu-append p b p [] (
    some-extract_pdu p long (omega arith)
    ∙ ap (λ (k : ℕ). some (take k p, drop k p)) full
    ∙ rw (take_all p, drop_all p) refl)

frame_lt :
    (n : ℕ) (p q r : Bytes) → 16 ≤ length p → length ((p ++ q) ++ r) < suc n → length (q ++ r) < n
frame_lt n p q r f h = omega (arith, length-append (p ++ q) r, length-append p q, length-append q r)

drain-frames :
    {S : Type 0} (receive : Bytes → S → Result (Unit {0}) × S) (n : ℕ) (ps : List Bytes)
    (tail : Bytes) (s : S)
    → All IsFrame ps
    → extract_pdu tail ≡ none
    → length (concat ps ++ tail) < n
    → drain receive n (concat ps ++ tail) s ≡ receive_all receive tail ps s
unfolding drain
drain-frames receive zero ps tail s fs short h = ground arith
drain-frames receive (suc n) [] tail s fs short h = rw (short, drain) refl
drain-frames receive (suc n) (p ∷ ps) tail s (f, fs) short h =
    rw (append_assoc p (concat ps) tail, extract_pdu-frame p (concat ps ++ tail) f, drain)
      (ap (received (receive p s)) (
        fun_ext
          (λ s'. drain-frames receive n ps tail s' fs short (frame_lt n p (concat ps) tail f.0 h))))

-- However the stream of some frames and a rest too short for one is cut into chunks, each frame is
-- received once and in order, until one raises, and the rest stays in the buffer.
-- It holds where `receive` raises on no bytes.
pub consume_stream-receives :
    {S : Type 0} (receive : Bytes → S → Result (Unit {0}) × S) (chunks frames : List Bytes)
    (tail : Bytes) (s : S)
    → ((s' : S) → (e : Error) × ((receive [] s').0 ≡ err e))
    → All IsFrame frames
    → extract_pdu tail ≡ none
    → concat chunks ≡ concat frames ++ tail
    → consume_stream receive chunks [] s ≡ receive_all receive tail frames s
consume_stream-receives receive chunks frames tail s empty whole short same =
    consume_stream_lem receive empty chunks s
    ∙ ap (λ (b : Bytes). drain receive (enough receive b) b s) same
    ∙ drain-frames receive (enough receive (concat frames ++ tail)) frames tail s whole short
        (omega arith)
