-- ===== src/Junebug/StateCache.antt =====
-- What `MemoryJunebugStateCache`
-- (src/vumi2/applications/junebug_message_api/junebug_state_cache.py) remembers of a message's
-- events.
use vumi.Prelude.{
  ℕ, String, Bool, true, false, ◌≤◌, ◌≡◌, refl, ◌∙◌, Option, none, some, string_eq, beq_self,
  if◌then◌else◌, arith,
}
use vumi.Cache.TimeoutDict.{is_expired}
use vumi.Cache.TimeoutDict.Expiry.{IsValid}
use vumi.Cache.TimeoutDict.Laws.{
  view, view-set_item, view-pop, get_item-eq-view, methods-IsValid, IsValid-later,
}
use vumi.Junebug.{
  EventHttpInfo, MemoryJunebugStateCache, store_event_http_info, fetch_event_http_info,
  delete_event_http_info,
}

fetch-eq-view :
    (now : ℕ) (id : String) (c : MemoryJunebugStateCache)
    → IsValid now c.event_http_info
    → (fetch_event_http_info now id c).0 ≡ view now id c.event_http_info
unfolding fetch_event_http_info
fetch-eq-view now id c h = get_item-eq-view now id c.event_http_info h

-- A store keeps the dictionary valid and gives the view below.
store_lem :
    (now stamp later : ℕ) (id url : String) (auth_token : Option String)
    (c : MemoryJunebugStateCache) (b : Bool)
    → c.store_event_info ≡ b
    → now ≤ stamp
    → stamp ≤ later
    → IsValid now c.event_http_info
    → IsValid stamp (store_event_http_info now stamp id url auth_token c).event_http_info
      × (view later id (store_event_http_info now stamp id url auth_token c).event_http_info ≡ (
          if b
          then (if is_expired later c.event_http_info.timeout stamp
              then none
              else some (record { url = url; auth_token = auth_token }))
          else view later id c.event_http_info))
unfolding store_event_http_info
store_lem now stamp later id url auth_token c true e b d h =
    let info : EventHttpInfo = record { url = url; auth_token = auth_token } in
    rw (e, store_event_http_info)
      (
        (methods-IsValid now stamp id info c.event_http_info b h).0,
        view-set_item now stamp later id id info c.event_http_info b d h ∙ rw (beq_self id) refl,
      )
store_lem now stamp later id url auth_token c false e b d h =
    rw (e, store_event_http_info) (IsValid-later b h, refl)

-- Where events are stored, the address for the events of a message is found in a valid cache
-- until the timeout has passed, and until it is deleted. With `store_event_info` off nothing is
-- stored.
pub fetch_event_http_info_lem :
    (now stamp later : ℕ) (id url : String) (auth_token : Option String)
    (c : MemoryJunebugStateCache)
    → now ≤ stamp
    → stamp ≤ later
    → IsValid now c.event_http_info
    → ((fetch_event_http_info later id (store_event_http_info now stamp id url auth_token c)).0 ≡ (
        if c.store_event_info
        then (if is_expired later c.event_http_info.timeout stamp
            then none
            else some (record { url = url; auth_token = auth_token }))
        else view later id c.event_http_info))
      × ((fetch_event_http_info later id (
            delete_event_http_info stamp id
              (store_event_http_info now stamp id url auth_token c))).0
          ≡ none)
unfolding delete_event_http_info
fetch_event_http_info_lem now stamp later id url auth_token c b d h =
    let (valid, shown) =
      store_lem now stamp later id url auth_token c c.store_event_info refl b d h in
    let stored = store_event_http_info now stamp id url auth_token c in
    let ids = stored.event_http_info in
    (
      fetch-eq-view later id stored (IsValid-later d valid) ∙ shown,
      fetch-eq-view later id (delete_event_http_info stamp id stored) (
            IsValid-later d
              (methods-IsValid stamp stamp id (record { url = url; auth_token = auth_token }) ids
                (omega arith) valid).3)
          ∙ (view-pop stamp later id id ids d valid).1
          ∙ rw (beq_self id) refl,
    )
