-- ===== src/Smpp/Client/Answers.antt =====
-- What the handlers of `EsmeClient` (src/vumi2/transports/smpp/client.py) send and publish.
use vumi.Prelude.{
  ◌≡◌, refl, List, [], ◌∷◌, ◌++◌, Result, err, Error, ◌⊎◌, inl, inr, Option-cases, nat_eq,
}
use vumi.Prelude.Dict
use vumi.Smpp.Deliver
use vumi.Smpp.Reports
use vumi.Smpp.Client.{Sent, respond, Client, Published, Response, handle_response}
use vumi.Smpp.Client.Handlers.{Received, deliver_sm, unbind, enquire_link_request, other_request}

-- The responses that SMPP asks for.
abbrev pub responses_to : Received → List Sent
responses_to (deliver_sm pdu) = respond "DeliverSMResp" pdu.seq_num "ESME_ROK" ∷ []
responses_to (unbind n) = respond "UnbindResp" n "ESME_ROK" ∷ []
responses_to (enquire_link_request n) = respond "EnquireLinkResp" n "ESME_ROK" ∷ []
responses_to (other_request n) = respond "GenericNack" n "ESME_RINVCMDID" ∷ []
responses_to _ = []

-- Nothing is sent or published, and an exception comes out.
abbrev pub Fails : Client → Result (Unit {0}) × Client → Type 0
Fails c out =
    ((e : Error) × (out.0 ≡ err e)) × (out.1.sent ≡ c.sent) × (out.1.published ≡ c.published)

-- The right responses are sent, and one thing is published at most.
abbrev pub Answers : Received → Client → Result (Unit {0}) × Client → Type 0
Answers r c out =
    (out.1.sent ≡ c.sent ++ responses_to r)
    × ((out.1.published ≡ c.published)
        ⊎ ((m : Published) × (out.1.published ≡ c.published ++ (m ∷ []))))

pub handle_response-Answers :
    (r : Response) (c : Client)
    → ((handle_response r c).1.sent ≡ c.sent) × ((handle_response r c).1.published ≡ c.published)
unfolding handle_response
handle_response-Answers r c = elim (Option-cases (Dict.lookup r.seq_num c.responses)) [
  | inl e ↦ rw (e, handle_response) (refl, refl)
  | inr (class, e) ↦ rw (e, handle_response) (refl, refl)
]
