-- ===== src/Anomaly/Redis.antt =====
-- What app/cache/redis_client.py of the anomaly platform uses of Redis' sorted sets. Redis is not
-- part of the repository, so its commands are a parameter, and what its documentation says of them
-- is the record of laws. A score is a time, a whole number of microseconds.
pub mod Listed
use python_backend_projects.Base.{
  ℕ, suc, ◌≤◌, ◌-◌, ◌≡◌, ◌≢◌, List, [], ◌∷◌, ◌++◌, length, drop, All, map,
}

-- One command each, on the set that is stored at a key.
pub record SortedSets (M : Type 0) : Type 1 where
  pub Set : Type 0
  pub no_set : Set
  pub zadd : Set → (member : M) → (score : ℕ) → Set
  pub zcard : Set → ℕ
  -- `ZREMRANGEBYRANK key 0 stop`
  pub zremrangebyrank : Set → (stop : ℕ) → Set
  -- `ZRANGE key -n -1`
  pub zrange_last : Set → (n : ℕ) → List M
  -- `ZRANGE key 0 -1 WITHSCORES`
  pub entries : Set → List (M × ℕ)

-- the scores do not fall along the list
abbrev pub IsAscending : {M : Type 0} → List (M × ℕ) → Type 0
IsAscending [] = Unit
IsAscending ((m, t) ∷ rest) = All (λ e. t ≤ e.1) rest × IsAscending rest

abbrev pub members : {M : Type 0} → List (M × ℕ) → List M
members [] = []
members ((m, t) ∷ rest) = m ∷ members rest

-- the second list is the first with one entry put in somewhere
pub record IsPutIn {M : Type 0} (entry : M × ℕ) (before after : List (M × ℕ)) : Type 0 where
  pub lower : List (M × ℕ)
  pub upper : List (M × ℕ)
  pub split : before ≡ lower ++ upper
  pub joined : after ≡ lower ++ (entry ∷ upper)

pub record IsRedis {M : Type 0} (zs : SortedSets M) : Type 0 where
  pub entries-no_set : zs.entries zs.no_set ≡ []
  pub ascending : (s : zs.Set) → IsAscending (zs.entries s)
  -- a member that is not there yet
  pub entries-zadd :
      (s : zs.Set) (m : M) (t : ℕ)
      → All (λ e. e.0 ≢ m) (zs.entries s)
      → IsPutIn (m, t) (zs.entries s) (zs.entries (zs.zadd s m t))
  pub zcard-entries : (s : zs.Set) → zs.zcard s ≡ length (zs.entries s)
  pub entries-zremrangebyrank :
      (s : zs.Set) (stop : ℕ)
      → zs.entries (zs.zremrangebyrank s stop) ≡ drop (suc stop) (zs.entries s)
  pub zrange_last-entries :
      (s : zs.Set) (n : ℕ)
      → zs.zrange_last s n ≡ members (drop (length (zs.entries s) - n) (zs.entries s))
