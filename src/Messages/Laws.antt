-- ===== src/Messages/Laws.antt =====
-- What a reply keeps of the message that it answers, and which events can be built
-- (src/vumi2/messages.py).
use vumi.Prelude.{
  ℕ, ◌≡◌, refl, ◌↔◌, inl, inr, Bool-cases, String, true, false, Option, some, List, [], ◌∷◌, map,
  Result, ok, err, >>=-eq-ok, string_eq, arith,
}
use mathlib.Core.Path.{subst}
use vumi.Messages.Value.{Fields}
use vumi.Messages.{
  Message, Session, EventType, DeliveryStatus, ack, nack, delivery_report, Kwarg, name, update,
  update_all, protected_names, any_protected, reply, reply_fields, new_event, transport_name,
  provider,
}

-- The fields by which a reply is addressed.
pub record SameAddress (m r : Message) : Type 0 where
  pub to_addr : r.to_addr ≡ m.to_addr
  pub from_addr : r.from_addr ≡ m.from_addr
  pub group : r.group ≡ m.group
  pub in_reply_to : r.in_reply_to ≡ m.in_reply_to
  pub transport_type : r.transport_type ≡ m.transport_type
  pub transport_metadata : r.transport_metadata ≡ m.transport_metadata

SameAddress-refl : (m : Message) → SameAddress m m
SameAddress-refl m = record {
  to_addr = refl;
  from_addr = refl;
  group = refl;
  in_reply_to = refl;
  transport_type = refl;
  transport_metadata = refl;
}

SameAddress-trans : {a b c : Message} → SameAddress a b → SameAddress b c → SameAddress a c
SameAddress-trans h k = record {
  to_addr = cc;
  from_addr = cc;
  group = cc;
  in_reply_to = cc;
  transport_type = cc;
  transport_metadata = cc;
}

-- One keyword argument, none of the refused names among it.
update-SameAddress :
    (k : Kwarg) (m : Message) {r : Message}
    → any_protected protected_names (name k ∷ []) ≡ false
    → update k m ≡ ok r
    → SameAddress m r
unfolding update any_protected
update-SameAddress (Kwarg.to_addr v) m p h = cc
update-SameAddress (Kwarg.from_addr v) m p h = cc
update-SameAddress (Kwarg.group v) m p h = cc
update-SameAddress (Kwarg.in_reply_to v) m p h = cc
update-SameAddress (Kwarg.transport_type v) m p h = cc
update-SameAddress (Kwarg.transport_metadata v) m p h = cc
update-SameAddress k m p h = ground arith

any_protected-cons :
    (fs : List String) (n : String) (ns : List String)
    → any_protected fs (n ∷ ns) ≡ false
    → (any_protected fs (n ∷ []) ≡ false) × (any_protected fs ns ≡ false)
unfolding any_protected
any_protected-cons [] n ns h = (refl, refl)
any_protected-cons (f ∷ fs) n ns h = ground (arith, any_protected-cons fs n ns)

update_all-SameAddress :
    (ks : List Kwarg) (m : Message) {r : Message}
    → any_protected protected_names (map name ks) ≡ false
    → update_all ks m ≡ ok r
    → SameAddress m r
unfolding update_all
update_all-SameAddress [] m {r} p h = subst (λ x. SameAddress m x) (cc) (SameAddress-refl m)
update_all-SameAddress (k ∷ ks) m p h =
    let (free, rest) = any_protected-cons protected_names (name k) (map name ks) p in
    let (m', first, later) = >>=-eq-ok (update k m) (λ m'. update_all ks m') h in
    SameAddress-trans (update-SameAddress k m free first) (update_all-SameAddress ks m' rest later)

module _ (m : Message) (now : ℕ) (id : String) (content : Option String) (s : Session)
    (kwargs : List Kwarg) where
  reply_refused :
      any_protected protected_names (map name kwargs) ≡ true
      → {r : Message} → reply m now id content s kwargs ≡ ok r
      → ⊥
  unfolding reply
  reply_refused p h = ground arith

  reply_accepted :
      any_protected protected_names (map name kwargs) ≡ false
      → {r : Message} → reply m now id content s kwargs ≡ ok r
      → update_all kwargs (reply_fields m now id content s) ≡ ok r
  unfolding reply
  reply_accepted p h = rw (p, reply) at h

-- Whatever keyword arguments `reply` accepts, the reply goes to the sender of the message, comes
-- from its receiver, names the message as the one it answers, and keeps its group, transport type
-- and transport metadata.
pub reply-address :
    (m : Message) (now : ℕ) (id : String) (content : Option String) (s : Session)
    (kwargs : List Kwarg) {r : Message}
    → reply m now id content s kwargs ≡ ok r
    → (r.to_addr ≡ m.from_addr)
      × (r.from_addr ≡ m.to_addr)
      × (r.in_reply_to ≡ some m.message_id)
      × (r.group ≡ m.group)
      × (r.transport_type ≡ m.transport_type)
      × (r.transport_metadata ≡ m.transport_metadata)
reply-address m now id content s kwargs h =
    elim (Bool-cases (any_protected protected_names (map name kwargs))) [
      | inl refused ↦ absurd (reply_refused m now id content s kwargs refused h)
      | inr free ↦
          let a =
            update_all-SameAddress kwargs (reply_fields m now id content s) free
              (reply_accepted m now id content s kwargs free h) in
          unfold reply_fields in
          (a.to_addr, a.from_addr, a.in_reply_to, a.group, a.transport_type, a.transport_metadata)
    ]

-- `reply` refuses neither `provider` nor `transport_name`: each replaces the value of the message.
pub reply-overrides :
    (m : Message) (now : ℕ) (id : String) (content : Option String) (s : Session) (t : String)
    (p : Option String)
    → (r : Message) × (reply m now id content s (transport_name t ∷ provider p ∷ []) ≡ ok r)
      × (r.transport_name ≡ t)
      × (r.provider ≡ p)
unfolding reply
reply-overrides m now id content s t p = (_, refl, refl, refl)

-- Which field an event of each type needs.
abbrev pub Required : EventType → Option String → Option String → Option DeliveryStatus → Type 0
Required ack sent reason status = (v : String) × (sent ≡ some v)
Required nack sent reason status = (v : String) × (reason ≡ some v)
Required delivery_report sent reason status = (v : DeliveryStatus) × (status ≡ some v)

abbrev pub IsOk {ℓ} : {A : Type ℓ} → Result A → Type 0
IsOk (ok _) = Unit
IsOk (err _) = ⊥

-- An event can be built exactly when the field that its type needs is given.
pub new_event_iff :
    (now : ℕ) (id user : String) (t : EventType) (sent reason : Option String)
    (status : Option DeliveryStatus) (d : Fields)
    → IsOk (new_event now id user t sent reason status d) ↔ Required t sent reason status
unfolding new_event
new_event_iff now id user ack sent reason status d = (λ h. ground arith, λ (v, h). rw h tt)
new_event_iff now id user nack sent reason status d = (λ h. ground arith, λ (v, h). rw h tt)
new_event_iff now id user delivery_report sent reason status d =
    (λ h. ground arith, λ (v, h). rw h tt)
