-- ===== src/Anomaly/Window.antt =====
-- app/cache/redis_client.py of the anomaly platform: the sliding window of a metric, and how
-- app/services/detection_engine.py reads it. A member is the JSON text of a value, its time and a
-- new id, which `json.dumps` writes and `json.loads` reads back, or another text, which is passed
-- over.
pub mod Latest
use python_backend_projects.Base.{
  ℕ, suc, ◌-◌, String, Option, none, some, List, [], ◌∷◌, ltb, if◌then◌else◌,
}
use python_backend_projects.Anomaly.Redis.{SortedSets}

pub data Member (F : Type 0) : Type 0 where
  written : (value : F) (time id : ℕ) → Member F
  other : String → Member F

-- settings.DETECTION_WINDOW_SIZE, as app/config.py sets it
abbrev pub detection_window_size : ℕ
detection_window_size = 100

-- the values of the members that can be read
unfoldable pub read_values : {F : Type 0} → List (Member F) → List F
read_values [] = []
read_values (written v t id ∷ rest) = v ∷ read_values rest
read_values (other text ∷ rest) = read_values rest

-- `window[:-1]` and `window[-1]`, if there is a value
abbrev pub put_before : {F : Type 0} → F → Option (List F × F) → Option (List F × F)
put_before x none = some ([], x)
put_before x (some (before, current)) = some (x ∷ before, current)

unfoldable pub split_last : {F : Type 0} → List F → Option (List F × F)
split_last [] = none
split_last (x ∷ xs) = put_before x (split_last xs)

module _ {F : Type 0} (zs : SortedSets (Member F)) where
  unfoldable pub get_sliding_window : zs.Set → (window_size : ℕ) → List F
  get_sliding_window s window_size = read_values (zs.zrange_last s window_size)

  -- `id` is the new UUID
  unfoldable pub add_to_sliding_window :
      zs.Set → (timestamp : ℕ) → (value : F) → (id window_size : ℕ) → zs.Set
  add_to_sliding_window s timestamp value id window_size =
      let added = zs.zadd s (written value timestamp id) timestamp in
      let n = zs.zcard added in
      if ltb window_size n then zs.zremrangebyrank added (n - window_size - 1) else added
