-- ===== src/Smpp/Cache/Ids.antt =====
-- The message ids of `InMemorySmppCache` (src/vumi2/transports/smpp/smpp_cache.py).
use vumi.Prelude.{
  ℕ, ◌≤◌, ◌≡◌, ◌∙◌, ap, sym, refl, String, none, some, ◌==◌, string_eq, beq_self, arith,
  if◌then◌else◌,
}
use vumi.Cache.TimeoutDict.{is_expired, set_item, pop}
use vumi.Cache.TimeoutDict.Expiry.{IsValid}
use vumi.Cache.TimeoutDict.Laws.{view, view-set_item, view-pop, methods-IsValid, IsValid-later}
use vumi.Smpp.Cache.{SmppCache, store_smpp_message_id, get_smpp_message_id, delete_smpp_message_id}

-- A stored id is found under its key until the timeout has passed since the store, and what is
-- found under another key is what was there before.
pub get-store :
    (now stamp later : ℕ) (vumi_id smpp_id other : String) (c : SmppCache)
    → now ≤ stamp
    → stamp ≤ later
    → IsValid now c.smpp_msg_id
    → (get_smpp_message_id later other (store_smpp_message_id now stamp vumi_id smpp_id c)).0 ≡ (
        if smpp_id == other
        then (if is_expired later c.smpp_msg_id.timeout stamp then none else some vumi_id)
        else view later other c.smpp_msg_id)
unfolding get_smpp_message_id store_smpp_message_id
get-store now stamp later vumi_id smpp_id other c b d h =
    (view-pop later later other other (set_item now stamp smpp_id vumi_id c.smpp_msg_id)
      (omega arith)
      (IsValid-later d (methods-IsValid now stamp smpp_id vumi_id c.smpp_msg_id b h).0)).0
    ∙ view-set_item now stamp later smpp_id other vumi_id c.smpp_msg_id b d h

-- Reading an id removes it: whatever was stored, a second read of the same id, at any later time,
-- finds nothing, as if the id had been deleted.
pub get_twice :
    (now later : ℕ) (smpp_id : String) (c : SmppCache)
    → now ≤ later
    → IsValid now c.smpp_msg_id
    → ((get_smpp_message_id later smpp_id (get_smpp_message_id now smpp_id c).1).0 ≡ none)
      × ((get_smpp_message_id now smpp_id c).1 ≡ delete_smpp_message_id now smpp_id c)
unfolding get_smpp_message_id delete_smpp_message_id
get_twice now later smpp_id c b h = (
  (view-pop later later smpp_id smpp_id _ (omega arith) (IsValid-later b popped)).0
      ∙ (view-pop now later smpp_id smpp_id c.smpp_msg_id b h).1
      ∙ rw (beq_self smpp_id),
  refl,
)
  where
    popped : IsValid now (pop now smpp_id c.smpp_msg_id).1
    popped = (methods-IsValid now now smpp_id "" c.smpp_msg_id (omega arith) h).3

module _ (now : ℕ) (smpp_id : String) (c : SmppCache) (h : IsValid now c.smpp_msg_id) where
  pub get-eq-view : (get_smpp_message_id now smpp_id c).0 ≡ view now smpp_id c.smpp_msg_id
  unfolding get_smpp_message_id
  get-eq-view = (view-pop now now smpp_id smpp_id c.smpp_msg_id (omega arith) h).0

  pub get-IsValid : IsValid now (get_smpp_message_id now smpp_id c).1.smpp_msg_id
  unfolding get_smpp_message_id
  get-IsValid = (methods-IsValid now now smpp_id "" c.smpp_msg_id (omega arith) h).3

  pub get-delete :
      (later : ℕ)
      → now ≤ later
      → (get_smpp_message_id later smpp_id (delete_smpp_message_id now smpp_id c)).0 ≡ none
  get-delete later b =
      let (found, same) = get_twice now later smpp_id c b h in
      ap (λ (d : SmppCache). (get_smpp_message_id later smpp_id d).0) (sym same) ∙ found
