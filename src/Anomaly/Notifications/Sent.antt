-- ===== src/Anomaly/Notifications/Sent.antt =====
-- What `send_notification` (app/services/notification_service.py) records.
use python_backend_projects.Base.{
  ℕ, suc, ◌+◌, ◌≡◌, refl, ◌⊎◌, inl, inr, String, Bool, not, ◌&&◌, Option, none, some, List, [], ◌∷◌,
  ◌++◌, Result, return, raise, ◌==◌, if◌then◌else◌, if-both, All, length, keep, arith,
}
use python_backend_projects.Base.Value.{Fields, field}
use python_backend_projects.Anomaly.Records.{AlertNotification}
use python_backend_projects.Anomaly.Notifications.{
  Outside, truthy, get_or_null, channel_type, webhook_result, notify, add_notification, notify_all,
  send_notification,
}

-- The row is for that anomaly and settled: sent without an error, or failed with one.
pub record IsSettled (anomaly : ℕ) (row : AlertNotification) : Type 0 where
  pub about : row.anomaly_id ≡ anomaly
  pub outcome :
      ((row.status ≡ "sent") × (row.error ≡ none))
      ⊎ ((row.status ≡ "failed") × ((e : String) × (row.error ≡ some e)))

-- A webhook without an address is passed over; every other channel is notified.
abbrev pub is_notified : Outside → Fields → Bool
is_notified out ch =
    not (channel_type out ch == "webhook" && not (truthy out (get_or_null ch "url")))

abbrev SettledOr : ℕ → Option AlertNotification → Type 0
SettledOr anomaly none = Unit
SettledOr anomaly (some row) = IsSettled anomaly row

webhook_result-IsSettled :
    (out : Outside) (anomaly : ℕ) (payload : Fields) (r : Result (Unit {0}))
    → IsSettled anomaly (webhook_result out anomaly payload r)
unfolding webhook_result
webhook_result-IsSettled out anomaly payload (return _) = record {
  about = refl;
  outcome = inl (refl, refl);
}
webhook_result-IsSettled out anomaly payload (raise e) = record {
  about = refl;
  outcome = inr (refl, (out.str_exception e, refl));
}

notify-SettledOr :
    (out : Outside) (anomaly : ℕ) (payload : Fields) (n : ℕ) (ch : Fields)
    → SettledOr anomaly (notify out anomaly payload n ch)
unfolding notify
notify-SettledOr out anomaly payload n ch =
    let ctype = channel_type out ch in
    let url = get_or_null ch "url" in
    if-both (SettledOr anomaly) (ctype == "webhook")
      (if-both (SettledOr anomaly) (not (truthy out url)) tt (
        webhook_result-IsSettled out anomaly (field "target" url payload) (out.post n url payload)))
      (if-both (SettledOr anomaly) (ctype == "email")
        (record { about = refl; outcome = inl (refl, refl) })
        (if-both (SettledOr anomaly) (ctype == "slack")
          (record { about = refl; outcome = inl (refl, refl) })
          (record { about = refl; outcome = inr (refl, ("unsupported channel", refl)) })))

add-All :
    (anomaly : ℕ) (o : Option AlertNotification) (rows : List AlertNotification)
    → SettledOr anomaly o
    → All (IsSettled anomaly) rows
    → All (IsSettled anomaly) (add_notification o rows)
add-All anomaly none rows h rest = rest
add-All anomaly (some row) rows h rest = (h, rest)

notify_all-All :
    (out : Outside) (anomaly : ℕ) (payload : Fields) (n : ℕ) (channels : List Fields)
    → All (IsSettled anomaly) (notify_all out anomaly payload n channels)
unfolding notify_all
notify_all-All out anomaly payload n [] = tt
notify_all-All out anomaly payload n (ch ∷ rest) =
    add-All anomaly (notify out anomaly payload n ch) _ (notify-SettledOr out anomaly payload n ch)
      (notify_all-All out anomaly payload (suc n) rest)

length-add :
    (o : Option AlertNotification) (rows : List AlertNotification)
    → length (add_notification o rows) ≡ length (add_notification o []) + length rows
length-add none rows = omega arith
length-add (some row) rows = omega arith

notify-length :
    (out : Outside) (anomaly : ℕ) (payload : Fields) (n : ℕ) (ch : Fields)
    → length (add_notification (notify out anomaly payload n ch) [])
      ≡ (if is_notified out ch then 1 else 0)
unfolding notify
notify-length out anomaly payload n ch = ground arith

notify_all-length :
    (out : Outside) (anomaly : ℕ) (payload : Fields) (n : ℕ) (channels : List Fields)
    → length (notify_all out anomaly payload n channels) ≡ length (keep (is_notified out) channels)
unfolding notify_all
notify_all-length out anomaly payload n [] = refl
notify_all-length out anomaly payload n (ch ∷ rest) = ground (
  arith,
  length-add (notify out anomaly payload n ch) (notify_all out anomaly payload (suc n) rest),
  notify-length out anomaly payload n ch,
  notify_all-length out anomaly payload (suc n) rest,
)

-- Whatever the webhooks answer, the rows that were there stay, each channel but a webhook without
-- an address adds one row, and every added row is for the anomaly and either sent without an error
-- or failed with one: none stays pending.
pub send_notification-IsSettled :
    (out : Outside) (anomaly : ℕ) (payload : Fields) (channels : List Fields)
    (rows : List AlertNotification)
    → (new : List AlertNotification) × (send_notification out anomaly payload channels rows
        ≡ rows ++ new)
      × (length new ≡ length (keep (is_notified out) channels))
      × All (IsSettled anomaly) new
unfolding send_notification
send_notification-IsSettled out anomaly payload channels rows = (
  notify_all out anomaly payload 0 channels,
  refl,
  notify_all-length out anomaly payload 0 channels,
  notify_all-All out anomaly payload 0 channels,
)
