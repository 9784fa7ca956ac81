-- ===== src/Anomaly/Notifications.antt =====
-- app/services/notification_service.py: `send_notification`. The JSON it reads is made text by
-- Python's `str` and `lower`, and a webhook is called through the package httpx: parameters.
pub mod Sent
use python_backend_projects.Base.{
  ℕ, suc, String, Bool, true, false, not, Option, none, some, List, [], ◌∷◌, ◌++◌, Result, return,
  raise, Exception, ◌==◌, if◌then◌else◌,
}
use python_backend_projects.Base.Value.{
  Value, null, boolean, number, text, array, object, Items, nil, cons, Fields, end, field,
  get_field,
}
use python_backend_projects.Anomaly.Records.{AlertNotification}

pub record Outside : Type 0 where
  -- `str(v)` and `s.lower()`
  pub str : Value → String
  pub lower : String → String
  -- whether a number's literal is that of zero
  pub is_zero : String → Bool
  -- `client.post(url, json=payload)` and `raise_for_status`, in that channel
  pub post : ℕ → (url : Value) → (payload : Fields) → Result (Unit {0})
  -- `str(e)`
  pub str_exception : Exception → String
  pub now : ℕ

-- `bool(v)`
unfoldable pub truthy : Outside → Value → Bool
truthy out null = false
truthy out (boolean b) = b
truthy out (number n) = not (out.is_zero n)
truthy out (text s) = not (s == "")
truthy out (array nil) = false
truthy out (array (cons v vs)) = true
truthy out (object end) = false
truthy out (object (field k v fs)) = true

abbrev get_or : Option Value → Value → Value
get_or none d = d
get_or (some v) d = v

-- `ch.get(key)`, where None stands for a missing key
abbrev pub get_or_null : Fields → String → Value
get_or_null ch key = get_or (get_field ch key) null

-- `str(ch.get("type", ch.get("channel", ""))).lower()`
unfoldable pub channel_type : Outside → Fields → String
channel_type out ch =
    out.lower (out.str (get_or (get_field ch "type") (get_or (get_field ch "channel") (text ""))))

abbrev pub sent_by : (anomaly : ℕ) → (channel : String) → Fields → AlertNotification
sent_by anomaly channel payload = record {
  anomaly_id = anomaly;
  channel = channel;
  payload = payload;
  status = "sent";
  sent_at = none;
  error = none;
}

-- the row of a webhook's call, by how the call ended
unfoldable pub webhook_result : Outside → ℕ → Fields → Result (Unit {0}) → AlertNotification
webhook_result out anomaly payload (return _) = record {
  anomaly_id = anomaly;
  channel = "webhook";
  payload = payload;
  status = "sent";
  sent_at = some out.now;
  error = none;
}
webhook_result out anomaly payload (raise e) = record {
  anomaly_id = anomaly;
  channel = "webhook";
  payload = payload;
  status = "failed";
  sent_at = none;
  error = some (out.str_exception e);
}

abbrev or_unknown : String → String
or_unknown ctype = if ctype == "" then "unknown" else ctype

abbrev pub unsupported : ℕ → String → Fields → AlertNotification
unsupported anomaly ctype payload = record {
  anomaly_id = anomaly;
  channel = or_unknown ctype;
  payload = payload;
  status = "failed";
  sent_at = none;
  error = some "unsupported channel";
}

-- The notification that a channel adds, if it adds one: `n` is the channel's place.
unfoldable pub notify : Outside → ℕ → Fields → ℕ → Fields → Option AlertNotification
notify out anomaly base_payload n ch =
    let ctype = channel_type out ch in
    let url = get_or_null ch "url" in
    if ctype == "webhook"
    then (if not (truthy out url)
        then none
        else some (
            webhook_result out anomaly (field "target" url base_payload)
              (out.post n url base_payload)))
    else if ctype == "email"
    then some (sent_by anomaly "email" (field "to" (get_or_null ch "to") base_payload))
    else if ctype == "slack"
    then some (sent_by anomaly "slack" (field "channel" (get_or_null ch "channel_id") base_payload))
    else some (unsupported anomaly ctype base_payload)

abbrev pub add_notification :
    Option AlertNotification → List AlertNotification → List AlertNotification
add_notification none rows = rows
add_notification (some n) rows = n ∷ rows

-- the rows that the loop adds, in its order
unfoldable pub notify_all : Outside → ℕ → Fields → ℕ → List Fields → List AlertNotification
notify_all out anomaly base_payload n [] = []
notify_all out anomaly base_payload n (ch ∷ rest) =
    add_notification (notify out anomaly base_payload n ch)
      (notify_all out anomaly base_payload (suc n) rest)

-- `send_notification`: what it adds to the table
unfoldable pub send_notification :
    Outside → ℕ → Fields → List Fields → List AlertNotification → List AlertNotification
send_notification out anomaly base_payload channels rows =
    rows ++ notify_all out anomaly base_payload 0 channels
