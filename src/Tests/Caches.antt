-- ===== src/Tests/Caches.antt =====
-- The theorems on src/vumi2/message_caches.py and src/vumi2/transports/smpp/smpp_cache.py at
-- concrete inputs.
use vumi.Prelude.{
  true, ℕ, ◌≡◌, refl, String, none, some, [], ◌∷◌, string_eq, nat_eq, pair_eq, arith,
}
use mathlib.Core.List.Permᴰ.{swap}
use text.Mathlib.TextEquality.{eq_iff}
use vumi.Prelude.Dict
use vumi.Messages.{Message, new_message, sms}
use vumi.Cache.TimeoutDict.{TimeoutDict, remove_expired, set_item, get_item, del_item, pop, values}
use vumi.Cache.TimeoutDict.Expiry.{IsValid, live, remove_expired-eq-live}
use vumi.Cache.TimeoutDict.Laws.{methods-IsValid}
use vumi.Cache.MessageCache.{MemoryMessageCache, fetch_last_inbound_by_from_address}
use vumi.Junebug.{MemoryJunebugStateCache}
use vumi.Smpp.Cache.{SmppCache, Key}
use vumi.Smpp.Cache.Multipart.{store_all, waits_then, store_all-arrangement}
use vumi.Smpp.Cache.Sort.{concat, number_from}

abbrev key_a : String
key_a = "a"

abbrev key_b : String
key_b = "b"

abbrev ids : TimeoutDict String
ids = record { items = ("a", (1, "m1")) ∷ ("b", (6, "m2")) ∷ []; timeout = 4 }

ids-IsValid : IsValid 8 ids
ids-IsValid = record {
  distinct = ((λ p. ground (arith, eq_iff "b" "a"), tt), (tt, tt));
  ordered = ((omega arith, tt), (tt, tt));
  past = (omega arith, (omega arith, tt));
}

remove_expired-eq-live_example : remove_expired 8 ids ≡ record ids { items = live 8 4 ids.items }
remove_expired-eq-live_example = remove_expired-eq-live 8 ids ids-IsValid

-- The first of the two is expired, the other not.
remove_expired_run : (remove_expired 8 ids).items ≡ ("b", (6, "m2")) ∷ []
unfolding remove_expired
remove_expired_run = refl

methods-IsValid_example :
    IsValid 9 (set_item 8 9 "c" "m3" ids)
    × IsValid 8 (get_item 8 "c" ids).1
    × IsValid 8 (del_item 8 "c" ids)
    × IsValid 8 (pop 8 "c" ids).1
    × IsValid 8 (values 8 ids).1
methods-IsValid_example = methods-IsValid 8 9 "c" "m3" ids (omega arith) ids-IsValid

abbrev from_same : ℕ → Message
from_same t = new_message t "m" "+1" "+2" "smpp" sms

abbrev inbounds : MemoryMessageCache
inbounds = record {
  outbounds = record { items = []; timeout = 4 };
  inbounds = record {
    items = ("m1", (1, from_same 9)) ∷ ("m2", (6, from_same 5)) ∷ ("m3", (7, from_same 8)) ∷ [];
    timeout = 4;
  };
}

-- The latest one has expired.
fetch_last_run : (fetch_last_inbound_by_from_address 8 "+2" inbounds).0 ≡ some (from_same 8)
unfolding fetch_last_inbound_by_from_address new_message
fetch_last_run = refl

abbrev cache : SmppCache
cache = record { multipart = ((7, 3), (1, "x") ∷ []) ∷ []; smpp_msg_id = ids }

-- The second of two segments comes first.
store_all-arrangement_example :
    ((store_all 7 2 ((2, "world") ∷ (1, "hello ") ∷ []) cache).0
      ≡ waits_then 1 (some (concat ("hello " ∷ "world" ∷ []))))
    × ((j : Key)
        → Dict.lookup j (store_all 7 2 ((2, "world") ∷ (1, "hello ") ∷ []) cache).1.multipart
          ≡ Dict.lookup j cache.multipart)
    × ((store_all 7 2 ((2, "world") ∷ (1, "hello ") ∷ []) cache).1.smpp_msg_id ≡ ids)
unfolding Dict.lookup number_from
store_all-arrangement_example =
    store_all-arrangement 7 "hello " ("world" ∷ []) ((2, "world") ∷ (1, "hello ") ∷ []) cache
      (swap refl refl) (tt, tt) free
  where
    free : Dict.lookup (7, 2) cache.multipart ≡ none
    free = refl

abbrev junebug : MemoryJunebugStateCache
junebug = record {
  store_event_info = true;
  event_http_info = record { items = []; timeout = 4 };
  inbound = record { items = []; timeout = 4 };
}
