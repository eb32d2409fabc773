-- ===== src/Observability/Logging.antt =====
-- app/observability/logging.py: the processors of an event dictionary.
use ai_backend_foundation.Prelude.{
  List, Option, String, [], if◌then◌else◌, is_empty, none, some, str_eq, ◌∷◌,
}
use ai_backend_foundation.Shared.Values.{Value, get_claim, is_true, text}

abbrev pub EventDict : Type 0
EventDict = List (String × Value)

-- `event_dict[key] = value`
abbrev pub put_value : String → Value → EventDict → EventDict
put_value key value [] = (key, value) ∷ []
put_value key value ((k, v) ∷ d) =
    if str_eq k key then (k, value) ∷ d else (k, v) ∷ put_value key value d

-- `event_dict.pop(key)`
abbrev pub drop_key : String → EventDict → EventDict
drop_key key [] = []
drop_key key ((k, v) ∷ d) =
    let rest = drop_key key d in if str_eq k key then rest else (k, v) ∷ rest

unfoldable pub add_request_id : String → EventDict → EventDict
add_request_id request_id event_dict =
    if is_empty request_id then event_dict else put_value "request_id" (text request_id) event_dict

abbrev pub rename_to_event : Option Value → EventDict → EventDict
rename_to_event none event_dict = event_dict
rename_to_event (some msg) event_dict =
    if is_true (get_claim "event" event_dict)
    then event_dict
    else put_value "event" msg (drop_key "msg" event_dict)

-- `"msg" in d and ("event" not in d or not d["event"])`: `is_true` is false on a missing key too.
unfoldable pub event_renamer : EventDict → EventDict
event_renamer event_dict = rename_to_event (get_claim "msg" event_dict) event_dict
