-- ===== src/Anomaly/Redis/Listed.antt =====
-- Sorted sets as ascending lists of entries: commands that meet the laws of `IsRedis`.
use python_backend_projects.Base.{
  ℕ, zero, suc, ◌≤◌, ◌-◌, refl, ap, List, [], ◌∷◌, length, drop, All, leb, if◌then◌else◌, if-both,
  Bool-cases, inl, inr, arith,
}
use python_backend_projects.Anomaly.Redis.{SortedSets, IsAscending, members, IsPutIn, IsRedis}

module _ {M : Type 0} where
  -- behind the entries that are not later
  unfoldable pub put_in : M × ℕ → List (M × ℕ) → List (M × ℕ)
  put_in e [] = e ∷ []
  put_in e (x ∷ xs) = if leb (suc e.1) x.1 then e ∷ x ∷ xs else x ∷ put_in e xs

  put_in-IsPutIn : (e : M × ℕ) (xs : List (M × ℕ)) → IsPutIn e xs (put_in e xs)
  unfolding put_in
  put_in-IsPutIn e [] = record { lower = []; upper = []; split = refl; joined = refl }
  put_in-IsPutIn e (x ∷ xs) =
      let h = put_in-IsPutIn e xs in
      if-both (IsPutIn e (x ∷ xs)) (leb (suc e.1) x.1)
        (record { lower = []; upper = x ∷ xs; split = refl; joined = refl })
        (record {
          lower = x ∷ h.lower;
          upper = h.upper;
          split = ap (λ l. x ∷ l) h.split;
          joined = ap (λ l. x ∷ l) h.joined;
        })

  All-later : (t u : ℕ) (xs : List (M × ℕ)) → t ≤ u → All (λ e. u ≤ e.1) xs → All (λ e. t ≤ e.1) xs
  All-later t u [] le h = tt
  All-later t u (x ∷ xs) le h = (omega (arith, le, h.0), All-later t u xs le h.1)

  All-put_in :
      (t : ℕ) (e : M × ℕ) (xs : List (M × ℕ))
      → t ≤ e.1
      → All (λ x. t ≤ x.1) xs
      → All (λ x. t ≤ x.1) (put_in e xs)
  unfolding put_in
  All-put_in t e [] le h = (le, tt)
  All-put_in t e (x ∷ xs) le h =
      if-both (All (λ y. t ≤ y.1)) (leb (suc e.1) x.1) (le, h) (h.0, All-put_in t e xs le h.1)

  pub put_in-IsAscending :
      (e : M × ℕ) (xs : List (M × ℕ)) → IsAscending xs → IsAscending (put_in e xs)
  unfolding put_in
  put_in-IsAscending e [] h = (tt, tt)
  put_in-IsAscending (m, t) ((m', t') ∷ xs) h = elim (Bool-cases (leb (suc t) t')) [
    | inl later ↦
        rw later ((ground (arith, later), All-later t t' xs (ground (arith, later)) h.0), h)
    | inr earlier ↦
        rw earlier
          (All-put_in t' (m, t) xs (ground (arith, earlier)) h.0, put_in-IsAscending (m, t) xs h.1)
  ]

  drop-All : (t n : ℕ) (xs : List (M × ℕ)) → All (λ e. t ≤ e.1) xs → All (λ e. t ≤ e.1) (drop n xs)
  drop-All t zero xs h = h
  drop-All t (suc n) [] h = tt
  drop-All t (suc n) (x ∷ xs) h = drop-All t n xs h.1

  pub drop-IsAscending : (n : ℕ) (xs : List (M × ℕ)) → IsAscending xs → IsAscending (drop n xs)
  drop-IsAscending zero xs h = h
  drop-IsAscending (suc n) [] h = tt
  drop-IsAscending (suc n) (x ∷ xs) h = drop-IsAscending n xs h.1

-- a set is an ascending list
abbrev pub Ascending : Type 0 → Type 0
Ascending M = (xs : List (M × ℕ)) × IsAscending xs

unfoldable pub listed : (M : Type 0) → SortedSets M
listed M = record {
  Set = Ascending M;
  no_set = ([], tt);
  zadd = λ s m t. (put_in (m, t) s.0, put_in-IsAscending (m, t) s.0 s.1);
  zcard = λ s. length s.0;
  zremrangebyrank = λ s stop. (drop (suc stop) s.0, drop-IsAscending (suc stop) s.0 s.1);
  zrange_last = λ s n. members (drop (length s.0 - n) s.0);
  entries = λ s. s.0;
}

pub listed-IsRedis : (M : Type 0) → IsRedis (listed M)
unfolding listed
listed-IsRedis M = record {
  entries-no_set = refl;
  ascending = λ s. s.1;
  entries-zadd = λ s m t _. put_in-IsPutIn (m, t) s.0;
  zcard-entries = λ s. refl;
  entries-zremrangebyrank = λ s stop. refl;
  zrange_last-entries = λ s n. refl;
}
