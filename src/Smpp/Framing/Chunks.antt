-- ===== src/Smpp/Framing/Chunks.antt =====
-- The cuts of the stream into chunks, and the end of the loops, in `consume_stream`
-- (src/vumi2/transports/smpp/client.py).
use vumi.Prelude.{
  ℕ, zero, suc, ◌<◌, ◌≡◌, ◌≢◌, refl, sym, ap, ◌∙◌, some, List, [], ◌∷◌, ◌++◌, length, Result, ok,
  err, Error, arith, Option-cases, inl, inr, length-append, fun_ext,
}
use mathlib.Core.List.{append_assoc, append-nil}
use vumi.Smpp.Pdu.{Bytes}
use vumi.Smpp.Framing.Extract.{extract_pdu-append, extract_pdu-shorter}
use vumi.Smpp.Framing.{
  extract_pdu, Drained, waiting, raised, out_of_fuel, received, drain, enough, consume_stream,
}

abbrev pub concat : List Bytes → Bytes
concat [] = []
concat (c ∷ cs) = c ++ concat cs

received_err :
    {S : Type 0} (x : Result (Unit {0}) × S) (e : Error) (f : S → Drained S)
    → x.0 ≡ err e
    → received x f ≡ raised e x.1
received_err (err e', s) e f h = cc
received_err (ok u, s) e f h = cc

abbrev resume : {S : Type 0} → Drained S → (Bytes → S → Drained S) → Drained S
resume (waiting a s) next = next a s
resume (raised e s) next = raised e s
resume out_of_fuel next = out_of_fuel

resume-received :
    {S : Type 0} (x : Result (Unit {0}) × S) (f : S → Drained S) (next : Bytes → S → Drained S)
    → resume (received x f) next ≡ received x (λ s. resume (f s) next)
resume-received (err e, s) f next = refl
resume-received (ok u, s) f next = refl

module _ {S : Type 0} (receive : Bytes → S → Result (Unit {0}) × S)
    (empty : (s : S) → (e : Error) × ((receive [] s).0 ≡ err e)) where
  -- Both raise, or both go on with a shorter rest.
  agree :
      (a p r : Bytes) (s : S) (f g : S → Drained S)
      → extract_pdu a ≡ some (p, r)
      → (length r < length a → (s' : S) → f s' ≡ g s')
      → received (receive p s) f ≡ received (receive p s) g
  agree a p r s f g h same = elim (extract_pdu-shorter a p r h) [
    | inl none_left ↦
        let (e, raises) = empty s in
        let raises' : (receive p s).0 ≡ err e =
          ap (λ (q : Bytes). (receive q s).0) none_left ∙ raises in
        received_err (receive p s) e f raises' ∙ sym (received_err (receive p s) e g raises')
    | inr shorter ↦ ap (received (receive p s)) (fun_ext (same shorter))
  ]

  fuel_enough :
      (m n : ℕ) (a : Bytes) (s : S)
      → length a < m
      → length a < n
      → drain receive m a s ≡ drain receive n a s
  unfolding drain
  fuel_enough zero n a s h k = ground arith
  fuel_enough (suc m) zero a s h k = ground arith
  fuel_enough (suc m) (suc n) a s h k = elim (Option-cases (extract_pdu a)) [
    | inl e ↦ rw (e, drain) refl
    | inr ((p, r), e) ↦
        rw (e, drain)
          (agree a p r s _ _ e (λ shorter s'. fuel_enough m n r s' (omega arith) (omega arith)))
  ]

  drain-append :
      (n : ℕ) (a b : Bytes) (s : S)
      → length a < n
      → resume
          (drain receive n a s)
          (λ a' s'. drain receive (enough receive (a' ++ b)) (a' ++ b) s')
        ≡ drain receive (enough receive (a ++ b)) (a ++ b) s
  unfolding drain
  drain-append zero a b s h = ground arith
  drain-append (suc n) a b s h = elim (Option-cases (extract_pdu a)) [
    | inl e ↦ rw (e, drain) refl
    | inr ((p, r), e) ↦
        rw (e, extract_pdu-append a b p r e, drain)
          (resume-received (receive p s) _ _
            ∙ agree a p r s _ _ e (λ shorter s'.
              drain-append n r b s' (omega arith)
              ∙ fuel_enough (enough receive (r ++ b)) _ (r ++ b) s' (omega arith)
                  (omega (arith, length-append a b, length-append r b))))
  ]

  resume-waiting : (d : Drained S) → resume d (λ a s. waiting a s) ≡ d
  resume-waiting (waiting a s) = refl
  resume-waiting (raised e s) = refl
  resume-waiting out_of_fuel = refl

  resume_chunk :
      (d : Drained S) (c : Bytes) (cs : List Bytes)
      → resume d (consume_stream receive (c ∷ cs))
        ≡ resume
            (resume d (λ a' s'. drain receive (enough receive (a' ++ c)) (a' ++ c) s'))
            (consume_stream receive cs)
  unfolding consume_stream
  resume_chunk (waiting a s) c cs = go (drain receive (enough receive (a ++ c)) (a ++ c) s)
    where
      go :
          (d : Drained S)
          → elim d [
            | waiting b t ↦ consume_stream receive cs b t
            | raised e t ↦ raised e t
            | out_of_fuel ↦ out_of_fuel
          ]
            ≡ resume d (consume_stream receive cs)
      go (waiting b t) = refl
      go (raised e t) = refl
      go out_of_fuel = refl
  resume_chunk (raised e s) c cs = refl
  resume_chunk out_of_fuel c cs = refl

  -- The loop from a drained buffer on.
  consume_stream-resume :
      (cs : List Bytes) (n : ℕ) (a : Bytes) (s : S)
      → length a < n
      → resume (drain receive n a s) (consume_stream receive cs)
        ≡ drain receive (enough receive (a ++ concat cs)) (a ++ concat cs) s
  unfolding consume_stream
  consume_stream-resume [] n a s h =
      resume-waiting (drain receive n a s)
      ∙ fuel_enough n (enough receive a) a s h (omega arith)
      ∙ ap (λ (b : Bytes). drain receive (enough receive b) b s) (sym (append-nil a))
  consume_stream-resume (c ∷ cs) n a s h =
      resume_chunk (drain receive n a s) c cs
      ∙ ap (λ (d : Drained S). resume d (consume_stream receive cs)) (drain-append n a c s h)
      ∙ consume_stream-resume cs (enough receive (a ++ c)) (a ++ c) s (omega arith)
      ∙ ap (λ (b : Bytes). drain receive (enough receive b) b s) (append_assoc a c (concat cs))

  -- The cuts between the chunks change nothing: the loop does what it would do on all bytes at once.
  pub consume_stream_lem :
      (chunks : List Bytes) (s : S)
      → consume_stream receive chunks [] s
        ≡ drain receive (enough receive (concat chunks)) (concat chunks) s
  unfolding consume_stream drain
  consume_stream_lem chunks s = consume_stream-resume chunks (enough receive []) [] s (omega arith)

  received_ends :
      (x : Result (Unit {0}) × S) (f : S → Drained S)
      → ((s : S) → f s ≢ out_of_fuel)
      → received x f ≢ out_of_fuel
  received_ends (err e, s) f h = λ p. cc
  received_ends (ok u, s) f h = h s

  drain_ends : (n : ℕ) (a : Bytes) (s : S) → length a < n → drain receive n a s ≢ out_of_fuel
  unfolding drain
  drain_ends zero a s h = ground arith
  drain_ends (suc n) a s h = elim (Option-cases (extract_pdu a)) [
    | inl e ↦ rw (e, drain) (λ p. cc)
    | inr ((p, r), e) ↦ elim (extract_pdu-shorter a p r e) [
      | inl none_left ↦
          let (x, raises) = empty s in
          rw
            (
              e,
              drain,
              received_err (receive p s) x (λ s'. drain receive n r s')
                  (ap (λ (q : Bytes). (receive q s).0) none_left ∙ raises),
            )
            (λ p. cc)
      | inr shorter ↦
          rw (e, drain) (received_ends (receive p s) _ (λ s'. drain_ends n r s' (omega arith)))
    ]
  ]

  -- The loops come to an end for every stream: no run is out of fuel. This holds where `receive`
  -- raises on no bytes, for the length that a PDU states may be 0.
  pub consume_stream_ends :
      (chunks : List Bytes) (s : S) → consume_stream receive chunks [] s ≢ out_of_fuel
  consume_stream_ends chunks s =
      rw (consume_stream_lem chunks s)
        (drain_ends (enough receive (concat chunks)) (concat chunks) s (omega arith))
