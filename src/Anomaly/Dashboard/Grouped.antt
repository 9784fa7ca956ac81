-- ===== src/Anomaly/Dashboard/Grouped.antt =====
-- Groups and their numbers, as the dashboard of the anomaly platform counts and orders them
-- (app/api/routes/dashboard.py).
use text.Mathlib.TextEquality.{eq_iff}
use python_backend_projects.Base.{
  ℕ, zero, suc, ◌+◌, ◌≤◌, String, ◌==◌, ==-refl, Bool, true, false, Bool-cases, inl, inr, List, [],
  ◌∷◌, length, take, keep, All, if◌then◌else◌, if-both, ◌≡◌, refl, ap, ◌∙◌, arith,
}
use python_backend_projects.Anomaly.Dashboard.{
  add_to_groups, group_counts, put_group, order_groups, by_hour,
}

-- the sum of the numbers
abbrev pub total : {A : Type 0} → List (A × ℕ) → ℕ
total [] = 0
total ((k, n) ∷ rest) = n + total rest

module _ {A : Type 0} (same : A → A → Bool) where
  -- the number of the group of a key, 0 if there is none
  abbrev pub number_of : A → List (A × ℕ) → ℕ
  number_of x [] = 0
  number_of x ((k, n) ∷ rest) = if same x k then n else number_of x rest

  total-add_to_groups :
      (x : A) (groups : List (A × ℕ)) → total (add_to_groups same x groups) ≡ suc (total groups)
  unfolding add_to_groups
  total-add_to_groups x [] = refl
  total-add_to_groups x ((k, n) ∷ rest) = ground (arith, total-add_to_groups x rest)

  -- The numbers of the groups make up the number of the rows.
  pub total-group_counts : (xs : List A) → total (group_counts same xs) ≡ length xs
  unfolding group_counts
  total-group_counts [] = refl
  total-group_counts (x ∷ xs) =
      total-add_to_groups x (group_counts same xs) ∙ ap suc (total-group_counts xs)

  module _ (same-refl : (x : A) → same x x ≡ true)
      (same-true : (x y : A) → same x y ≡ true → x ≡ y) where
    number_of-add_to_groups :
        (x y : A) (groups : List (A × ℕ))
        → number_of y (add_to_groups same x groups)
          ≡ (if same y x then suc (number_of y groups) else number_of y groups)
    unfolding add_to_groups
    number_of-add_to_groups x y [] = refl
    number_of-add_to_groups x y ((k, n) ∷ rest) =
        let ih = number_of-add_to_groups x y rest in
        elim (Bool-cases (same x k)) [
          | inl e ↦ ground (arith, e, ap (same y) (same-true x k e))
          | inr e ↦ elim (Bool-cases (same y x)) [
            | inl d ↦ ground (arith, e, d, ap (λ z. same z k) (same-true y x d), ih)
            | inr d ↦ ground (arith, e, d, ih)
          ]
        ]

    -- The number of a group is that of its rows.
    pub number_of-group_counts :
        (y : A) (xs : List A)
        → number_of y (group_counts same xs) ≡ length (keep (λ x. same y x) xs)
    unfolding group_counts
    number_of-group_counts y [] = refl
    number_of-group_counts y (x ∷ xs) =
        ground
          (arith, number_of-add_to_groups x y (group_counts same xs), number_of-group_counts y xs)

module _ {A : Type 0} (before : A × ℕ → A × ℕ → Bool) where
  total-put_group :
      (g : A × ℕ) (groups : List (A × ℕ)) → total (put_group before g groups) ≡ g.1 + total groups
  unfolding put_group
  total-put_group g [] = refl
  total-put_group g (h ∷ rest) = ground (arith, total-put_group g rest)

  -- Ordering keeps the sum.
  pub total-order_groups :
      (groups : List (A × ℕ)) → total (order_groups before groups) ≡ total groups
  unfolding order_groups
  total-order_groups [] = refl
  total-order_groups (g ∷ rest) =
      total-put_group g (order_groups before rest) ∙ ap (λ n. g.1 + n) (total-order_groups rest)

module _ {A : Type 0} (Before : A × ℕ → A × ℕ → Type 0) where
  -- each group stands before those after it
  abbrev pub AreOrdered : List (A × ℕ) → Type 0
  AreOrdered [] = Unit
  AreOrdered (g ∷ rest) = All (Before g) rest × AreOrdered rest

module _ {A : Type 0} (before : A × ℕ → A × ℕ → Bool) (Before : A × ℕ → A × ℕ → Type 0)
    (before-true : (g h : A × ℕ) → before g h ≡ true → Before g h)
    (before-false : (g h : A × ℕ) → before g h ≡ false → Before h g)
    (Before-trans : (g h k : A × ℕ) → Before g h → Before h k → Before g k) where
  All-put_group :
      (P : A × ℕ → Type 0) (g : A × ℕ) (groups : List (A × ℕ))
      → P g
      → All P groups
      → All P (put_group before g groups)
  unfolding put_group
  All-put_group P g [] p h = (p, h)
  All-put_group P g (k ∷ rest) p h =
      if-both (All P) (before g k) (p, h) (h.0, All-put_group P g rest p h.1)

  All-Before :
      (g k : A × ℕ) (groups : List (A × ℕ))
      → Before g k
      → All (Before k) groups
      → All (Before g) groups
  All-Before g k [] b h = tt
  All-Before g k (x ∷ rest) b h = (Before-trans g k x b h.0, All-Before g k rest b h.1)

  put_group-AreOrdered :
      (g : A × ℕ) (groups : List (A × ℕ))
      → AreOrdered Before groups
      → AreOrdered Before (put_group before g groups)
  unfolding put_group
  put_group-AreOrdered g [] h = (tt, tt)
  put_group-AreOrdered g (k ∷ rest) h = elim (Bool-cases (before g k)) [
    | inl b ↦ let le = before-true g k b in rw b ((le, All-Before g k rest le h.0), h)
    | inr b ↦
        rw b (
          All-put_group (Before k) g rest (before-false g k b) h.0,
          put_group-AreOrdered g rest h.1,
        )
  ]

  pub order_groups-AreOrdered :
      (groups : List (A × ℕ)) → AreOrdered Before (order_groups before groups)
  unfolding order_groups
  order_groups-AreOrdered [] = tt
  order_groups-AreOrdered (g ∷ rest) =
      put_group-AreOrdered g (order_groups before rest) (order_groups-AreOrdered rest)

  All-take : (P : A × ℕ → Type 0) (n : ℕ) (xs : List (A × ℕ)) → All P xs → All P (take n xs)
  All-take P zero xs h = tt
  All-take P (suc n) [] h = tt
  All-take P (suc n) (x ∷ xs) h = (h.0, All-take P n xs h.1)

  pub take-AreOrdered :
      (n : ℕ) (xs : List (A × ℕ)) → AreOrdered Before xs → AreOrdered Before (take n xs)
  take-AreOrdered zero xs h = tt
  take-AreOrdered (suc n) [] h = tt
  take-AreOrdered (suc n) (x ∷ xs) h = (All-take (Before x) n xs h.0, take-AreOrdered n xs h.1)

-- a group of that hour or an earlier one
abbrev pub IsEarlier : ℕ × ℕ → ℕ × ℕ → Type 0
IsEarlier g h = g.0 ≤ h.0

pub order_by_hour : (groups : List (ℕ × ℕ)) → AreOrdered IsEarlier (order_groups by_hour groups)
order_by_hour groups =
    order_groups-AreOrdered by_hour IsEarlier (λ g h e. ground (arith, e))
      (λ g h e. ground (arith, e)) (λ g h k a b. omega (arith, a, b)) groups

pub text_groups :
    (s : String) (xs : List String)
    → number_of ◌==◌ s (group_counts ◌==◌ xs) ≡ length (keep (λ x. s == x) xs)
text_groups s xs = number_of-group_counts ◌==◌ ==-refl (λ a b e. ground (arith, e, eq_iff a b)) s xs
