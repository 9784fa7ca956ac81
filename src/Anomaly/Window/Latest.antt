-- ===== src/Anomaly/Window/Latest.antt =====
-- The sliding window holds the latest values (app/cache/redis_client.py).
use python_backend_projects.Base.{
  ℕ, zero, suc, ◌-◌, ◌≤◌, ◌<◌, min, ◌≡◌, ◌≢◌, refl, sym, ◌∙◌, ap, subst, Bool-cases, inl, inr, some,
  List, [], ◌∷◌, ◌++◌, length, take, drop, length-append, length-drop, All, arith, ltb,
}
use python_backend_projects.Anomaly.Redis.{SortedSets, IsAscending, members, IsPutIn, IsRedis}
use python_backend_projects.Anomaly.Window.{
  Member, written, other, read_values, split_last, put_before, get_sliding_window,
  add_to_sliding_window,
}

module _ {A : Type 0} where
  take-drop : (n : ℕ) (xs : List A) → xs ≡ take n xs ++ drop n xs
  take-drop zero xs = refl
  take-drop (suc n) [] = refl
  take-drop (suc n) (x ∷ xs) = ap (λ l. x ∷ l) (take-drop n xs)

  append_nil : (xs : List A) → xs ≡ xs ++ []
  append_nil [] = refl
  append_nil (x ∷ xs) = ap (λ l. x ∷ l) (append_nil xs)

  -- Leaving out the first n of a list whose last element stays.
  drop-snoc :
      (n : ℕ) (xs : List A) (y : A)
      → n ≤ length xs
      → drop n (xs ++ (y ∷ [])) ≡ drop n xs ++ (y ∷ [])
  drop-snoc zero xs y h = refl
  drop-snoc (suc n) [] y h = absurd (omega arith)
  drop-snoc (suc n) (x ∷ xs) y h = drop-snoc n xs y (omega (arith, h))

  split_last-snoc : (xs : List A) (y : A) → split_last (xs ++ (y ∷ [])) ≡ some (xs, y)
  unfolding split_last
  split_last-snoc [] y = refl
  split_last-snoc (x ∷ xs) y = ap (put_before x) (split_last-snoc xs y)

module _ {F : Type 0} where
  read_values-append :
      (xs ys : List (Member F)) → read_values (xs ++ ys) ≡ read_values xs ++ read_values ys
  unfolding read_values
  read_values-append [] ys = refl
  read_values-append (written v t id ∷ xs) ys = ap (λ l. v ∷ l) (read_values-append xs ys)
  read_values-append (other text ∷ xs) ys = read_values-append xs ys

-- No entry of the first list is later than one of the second.
abbrev pub AreEarlier : {M : Type 0} → List (M × ℕ) → List (M × ℕ) → Type 0
AreEarlier [] ys = Unit
AreEarlier ((m, t) ∷ xs) ys = All (λ e. t ≤ e.1) ys × AreEarlier xs ys

module _ {M : Type 0} where
  drop-All : (P : M × ℕ → Type 0) (n : ℕ) (xs : List (M × ℕ)) → All P xs → All P (drop n xs)
  drop-All P zero xs h = h
  drop-All P (suc n) [] h = tt
  drop-All P (suc n) (x ∷ xs) h = drop-All P n xs h.1

  AreEarlier-drop :
      (n : ℕ) (xs : List (M × ℕ)) → IsAscending xs → AreEarlier (take n xs) (drop n xs)
  AreEarlier-drop zero xs h = tt
  AreEarlier-drop (suc n) [] h = tt
  AreEarlier-drop (suc n) ((m, t) ∷ xs) h =
      (drop-All (λ e. t ≤ e.1) n xs h.0, AreEarlier-drop n xs h.1)

  length-IsPutIn :
      (e : M × ℕ) (xs ys : List (M × ℕ)) → IsPutIn e xs ys → length ys ≡ suc (length xs)
  length-IsPutIn e xs ys h =
      let split = ap length h.split ∙ length-append h.lower h.upper in
      let joined = ap length h.joined ∙ length-append h.lower (e ∷ h.upper) in
      omega (arith, split, joined)

  -- An entry that is later than all others is put in at the end.
  latest_upper :
      (m : M) (t : ℕ) (lower upper : List (M × ℕ))
      → IsAscending (lower ++ ((m, t) ∷ upper))
      → All (λ e. e.1 < t) (lower ++ upper)
      → upper ≡ []
  latest_upper m t [] [] asc h = refl
  latest_upper m t [] (x ∷ upper) asc h = absurd (omega (arith, asc.0.0, h.0))
  latest_upper m t (x ∷ lower) upper asc h = latest_upper m t lower upper asc.1 h.1

  latest_at_end :
      (m : M) (t : ℕ) (xs ys : List (M × ℕ))
      → IsPutIn (m, t) xs ys
      → IsAscending ys
      → All (λ e. e.1 < t) xs
      → ys ≡ xs ++ ((m, t) ∷ [])
  latest_at_end m t xs ys h asc late =
      let none_above =
        latest_upper m t h.lower h.upper (subst IsAscending h.joined asc)
          (subst (All (λ (e : M × ℕ). e.1 < t)) h.split late) in
      h.joined
      ∙ ap (λ u. h.lower ++ ((m, t) ∷ u)) none_above
      ∙ ap (λ l. l ++ ((m, t) ∷ [])) (append_nil h.lower)
      ∙ ap (λ u. (h.lower ++ u) ++ ((m, t) ∷ [])) (sym none_above)
      ∙ ap (λ l. l ++ ((m, t) ∷ [])) (sym h.split)

  members-append : (xs ys : List (M × ℕ)) → members (xs ++ ys) ≡ members xs ++ members ys
  members-append [] ys = refl
  members-append ((m, t) ∷ xs) ys = ap (λ l. m ∷ l) (members-append xs ys)

module _ {F : Type 0} (zs : SortedSets (Member F)) (laws : IsRedis zs) (s : zs.Set) (timestamp : ℕ)
    (value : F) (id window_size : ℕ)
    (fresh : All (λ e. e.0 ≢ written value timestamp id) (zs.entries s)) where
  abbrev entry : Member F × ℕ
  entry = (written value timestamp id, timestamp)

  abbrev inserted : List (Member F × ℕ)
  inserted = zs.entries (zs.zadd s (written value timestamp id) timestamp)

  abbrev pub window : zs.Set
  window = add_to_sliding_window zs s timestamp value id window_size

  put : IsPutIn entry (zs.entries s) inserted
  put = laws.entries-zadd s (written value timestamp id) timestamp fresh

  -- The window is what is left of the inserted list without its first elements, if it is too long.
  entries-window : zs.entries window ≡ drop (length inserted - window_size) inserted
  unfolding add_to_sliding_window
  entries-window =
      let count = laws.zcard-entries (zs.zadd s (written value timestamp id) timestamp) in
      let added = zs.zadd s (written value timestamp id) timestamp in
      elim (Bool-cases (ltb window_size (zs.zcard added))) [
        | inl full ↦
            let first : suc (zs.zcard added - window_size - 1) ≡ length inserted - window_size =
              ground (arith, count, full) in
            rw full (
              laws.entries-zremrangebyrank added (zs.zcard added - window_size - 1)
              ∙ ap (λ k. drop k inserted) first)
        | inr room ↦
            let none_out : 0 ≡ length inserted - window_size = ground (arith, count, room) in
            rw room (ap (λ k. drop k inserted) none_out)
      ]

  -- A new value is put into the window, which then holds the latest values, `window_size` of them
  -- at most: the list with the new entry is the left-out entries followed by the window's, none of
  -- the left-out ones is later than one that is kept, and nothing is left out while there is room.
  -- The member is new, and Redis keeps its laws.
  pub add_to_sliding_window_latest :
      (dropped : List (Member F × ℕ)) × IsPutIn entry (zs.entries s) (dropped ++ zs.entries window)
      × (length (zs.entries window) ≡ min (suc (length (zs.entries s))) window_size)
      × AreEarlier dropped (zs.entries window)
  add_to_sliding_window_latest =
      let k = length inserted - window_size in
      let total = length-IsPutIn entry (zs.entries s) inserted put in
      let split : inserted ≡ take k inserted ++ zs.entries window =
        take-drop k inserted ∙ ap (λ l. take k inserted ++ l) (sym entries-window) in
      let asc = laws.ascending (zs.zadd s (written value timestamp id) timestamp) in
      (
        take k inserted,
        subst (IsPutIn entry (zs.entries s)) split put,
        ap length entries-window ∙ length-drop k inserted ∙ omega (arith, total),
        subst (AreEarlier (take k inserted)) (sym entries-window) (AreEarlier-drop k inserted asc),
      )

  -- If its time is after all the others', the value that was added is the one that the detectors
  -- judge, against the values before it in the window.
  pub add_to_sliding_window_current :
      1 ≤ window_size
      → All (λ e. e.1 < timestamp) (zs.entries s)
      → split_last (get_sliding_window zs window window_size)
        ≡ some (
          read_values (members (drop (suc (length (zs.entries s)) - window_size) (zs.entries s))),
          value,
        )
  unfolding get_sliding_window read_values
  add_to_sliding_window_current room late =
      let before = zs.entries s in
      let k = suc (length before) - window_size in
      let total = length-IsPutIn entry before inserted put in
      let asc = laws.ascending (zs.zadd s (written value timestamp id) timestamp) in
      let at_end =
        latest_at_end (written value timestamp id) timestamp before inserted put asc late in
      let kept : zs.entries window ≡ drop k before ++ (entry ∷ []) =
        entries-window
        ∙ ap (λ n. drop (n - window_size) inserted) total
        ∙ ap (drop k) at_end
        ∙ drop-snoc k before entry (omega (arith, room)) in
      let size = ap length kept ∙ length-append (drop k before) (entry ∷ []) in
      let all_kept : length (zs.entries window) - window_size ≡ 0 =
        omega (arith, size, length-drop k before, room) in
      let read : get_sliding_window zs window window_size
          ≡ read_values (members (drop k before)) ++ (value ∷ []) =
        ap read_values (laws.zrange_last-entries window window_size)
        ∙ ap (λ n. read_values (members (drop n (zs.entries window)))) all_kept
        ∙ ap (λ l. read_values (members l)) kept
        ∙ ap read_values (members-append (drop k before) (entry ∷ []))
        ∙ read_values-append (members (drop k before)) (written value timestamp id ∷ []) in
      ap split_last read ∙ split_last-snoc (read_values (members (drop k before))) value
