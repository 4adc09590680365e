-- ===== src/Smpp/Submit/Segments.antt =====
-- How many PDUs an outbound message takes, and when none is returned
-- (src/vumi2/transports/smpp/processors.py).
use vumi.Prelude.{
  ℕ, suc, ◌+◌, ◌-◌, ◌/◌, ◌≤◌, ◌<◌, ◌≡◌, ◌⊎◌, inl, inr, ◌≢◌, ◌∙◌, ap, refl, String, true, false,
  none, some, List, [], ◌∷◌, ok, err, value_error, zero_division_error, length, leb, lt→ltb,
  le→not-ltb, ◌=?◌, arith, if◌then◌else◌, Bool-cases,
}
use vumi.Smpp.Pdu.{Bytes, SubmitSm}
use vumi.Smpp.Sequencers.{Sequencer, get_next_sequence_number}
use vumi.Smpp.Submit.{
  Config, MultipartHandling, Submits, cons_submit, short_message, multipart_sar, multipart_udh,
  udh_message, udh_loop, sar_loop, submit_csm_udh_message, submit_csm_sar_message, split_message,
  get_msg_length, fits_in_one_message, submit_content, submit_sm_short_message,
}
use vumi.Smpp.Submit.Split.{length-split_message}

module _ (config : Config) (from_addr to_addr : String) where
  udh_loop_fails :
      (ref_num total : ℕ) (segments : List Bytes) (s : Sequencer)
      → 0 < length segments
      → ref_num < 256
      → 256 ≤ total
      → udh_loop config from_addr to_addr ref_num total 0 segments s ≡ (err value_error, s)
  unfolding udh_loop udh_message
  udh_loop_fails ref_num total [] s pos r t = absurd (omega arith)
  udh_loop_fails ref_num total (segment ∷ segments) s pos r t =
      rw (lt→ltb _ _ r, le→not-ltb _ _ t, udh_loop)

  -- A message of more than 255 pieces raises `ValueError`: no PDU is returned, and one sequence
  -- number is used.
  pub submit_csm_udh_too_long :
      (message : Bytes) (s : Sequencer)
      → 256 ≤ length (split_message message (get_msg_length config true))
      → submit_csm_udh_message config from_addr to_addr message s
        ≡ (err value_error, (get_next_sequence_number s).1)
  unfolding submit_csm_udh_message
  submit_csm_udh_too_long message s long =
      udh_loop_fails _ _ (split_message message (get_msg_length config true)) _ (omega arith)
        (omega arith) long

  -- How many PDUs a result holds; none if the call raised.
  abbrev pub count : Submits → ℕ
  count (ok pdus, s) = length pdus
  count (err e, s) = 0

  abbrev pub IsReturn : Submits → Type 0
  IsReturn (ok pdus, s) = Unit
  IsReturn (err e, s) = ⊥

  count-cons :
      (p : SubmitSm) (r : Submits)
      → IsReturn r
      → IsReturn (cons_submit p r) × (count (cons_submit p r) ≡ suc (count r))
  count-cons p (ok pdus, s) h = (tt, refl)
  count-cons p (err e, s) h = absurd h

  count-sar_loop :
      (ref_num total i : ℕ) (segments : List Bytes) (s : Sequencer)
      → IsReturn (sar_loop config from_addr to_addr ref_num total i segments s)
        × (count (sar_loop config from_addr to_addr ref_num total i segments s) ≡ length segments)
  unfolding sar_loop
  count-sar_loop ref_num total i [] s = (tt, refl)
  count-sar_loop ref_num total i (segment ∷ segments) s =
      let (h, n) = count-sar_loop ref_num total (i + 1) segments _ in
      let (k, m) = count-cons _ _ h in (k, m ∙ ap suc n)

  -- The number of PDUs that a handling needs: `size` bytes go into a message, `part` into a piece.
  abbrev pub needed : MultipartHandling → (length size part : ℕ) → ℕ
  needed multipart_sar n size part = if leb n size then 1 else (n + (part - 1)) / part
  needed _ n size part = 1

  sar_counted :
      (content : Bytes) (s : Sequencer)
      → (config.multipart_sar_reference_rollover =? 0) ≡ false
      → IsReturn (submit_csm_sar_message config from_addr to_addr content s)
        × (count (submit_csm_sar_message config from_addr to_addr content s)
            ≡ (length content + (get_msg_length config true - 1)) / get_msg_length config true)
  unfolding submit_csm_sar_message
  sar_counted content s nonzero = rw nonzero (
      let (h, n) = count-sar_loop _ _ 0 (split_message content (get_msg_length config true)) _ in
      (h, n ∙ (length-split_message content (get_msg_length config true)).0))

  -- Without the header handling (`multipart_udh`), and where the rollover of the reference numbers
  -- is not 0, no content raises: one PDU is returned, or, for a content that does not fit under
  -- `multipart_sar`, one for each piece.
  pub submit_content-count :
      (content : Bytes) (s : Sequencer)
      → config.multipart_handling ≢ multipart_udh
      → (config.multipart_sar_reference_rollover =? 0) ≡ false
      → IsReturn (submit_content config from_addr to_addr content s)
        × (count (submit_content config from_addr to_addr content s)
            ≡ needed config.multipart_handling
                (length content)
                (get_msg_length config false)
                (get_msg_length config true))
  unfolding submit_content
  submit_content-count content s n nonzero = by_handling config.multipart_handling refl
    where
      by_handling :
          (h : MultipartHandling)
          → config.multipart_handling ≡ h
          → IsReturn (submit_content config from_addr to_addr content s)
            × (count (submit_content config from_addr to_addr content s)
                ≡ needed config.multipart_handling
                    (length content)
                    (get_msg_length config false)
                    (get_msg_length config true))
      by_handling MultipartHandling.short_message e = ground (arith, e)
      by_handling MultipartHandling.message_payload e = ground (arith, e)
      by_handling MultipartHandling.multipart_sar e =
          elim (Bool-cases (fits_in_one_message config content)) [
            | inl f ↦ ground (arith, e, f)
            | inr f ↦ ground (arith, e, f, sar_counted content s nonzero)
          ]
      by_handling MultipartHandling.multipart_udh e = absurd (n e)

  -- A message to split raises `ZeroDivisionError` where the rollover is 0: one sequence number is
  -- used.
  pub submit_csm_sar_no_rollover :
      (message : Bytes) (s : Sequencer)
      → config.multipart_sar_reference_rollover ≡ 0
      → submit_csm_sar_message config from_addr to_addr message s
        ≡ (err zero_division_error, (get_next_sequence_number s).1)
  unfolding submit_csm_sar_message
  submit_csm_sar_no_rollover message s h = rw h refl

  -- With the default handling, and for every content that fits, the whole content is the
  -- `short_message` of one PDU, whatever its length.
  pub submit_content_whole :
      (content : Bytes) (s : Sequencer)
      → (config.multipart_handling ≡ short_message) ⊎ (fits_in_one_message config content ≡ true)
      → (p : SubmitSm) × (submit_content config from_addr to_addr content s
          ≡ (ok (p ∷ []), (get_next_sequence_number s).1))
        × (p.short_message ≡ some content)
        × (p.message_payload ≡ none)
        × (p.sar_total_segments ≡ none)
  unfolding submit_content
  submit_content_whole content s h = (
    (submit_sm_short_message config from_addr to_addr content s).0,
    ground arith,
    refl,
    refl,
    refl,
  )
