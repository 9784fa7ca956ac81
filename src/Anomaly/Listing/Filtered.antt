-- ===== src/Anomaly/Listing/Filtered.antt =====
-- What a page of anomalies holds (app/services/anomaly_service.py).
use text.Mathlib.TextEquality.{eq_iff}
use python_backend_projects.Base.{
  String, Option, none, some, ◌↔◌, ℕ, zero, suc, ◌+◌, ◌-◌, ◌*◌, ◌≤◌, ◌≡◌, refl, ap, sym, ◌∙◌, Bool,
  true, false, List, [], ◌∷◌, ◌++◌, keep, length, take, drop, take_add, length-take, All, arith,
}
use python_backend_projects.Anomaly.Records.{AnomalyRecord}
use python_backend_projects.Anomaly.Listing.{
  Filters, is_text, is_from, is_until, passes, list_anomalies,
}

module _ {A : Type 0} (P : A → Type 0) where
  All-take : (n : ℕ) (xs : List A) → All P xs → All P (take n xs)
  All-take zero xs h = tt
  All-take (suc n) [] h = tt
  All-take (suc n) (x ∷ xs) h = (h.0, All-take n xs h.1)

  All-drop : (n : ℕ) (xs : List A) → All P xs → All P (drop n xs)
  All-drop zero xs h = h
  All-drop (suc n) [] h = tt
  All-drop (suc n) (x ∷ xs) h = All-drop n xs h.1

-- the text is the one that is asked for, if one is
abbrev pub IsText : Option String → String → Type 0
IsText none t = Unit
IsText (some s) t = t ≡ s

-- at that time or later, and at that time or earlier, if one is asked for
abbrev pub IsFrom : Option ℕ → ℕ → Type 0
IsFrom none t = Unit
IsFrom (some start) t = start ≤ t

abbrev pub IsUntil : Option ℕ → ℕ → Type 0
IsUntil none t = Unit
IsUntil (some stop) t = t ≤ stop

is_text_iff : (o : Option String) (t : String) → (is_text o t ≡ true) ↔ IsText o t
is_text_iff none t = ((λ h. tt), (λ h. refl))
is_text_iff (some s) t =
    ((λ h. ground (arith, h, eq_iff t s)), (λ h. ground (arith, h, eq_iff t s)))

is_from_iff : (o : Option ℕ) (t : ℕ) → (is_from o t ≡ true) ↔ IsFrom o t
is_from_iff none t = ((λ h. tt), (λ h. refl))
is_from_iff (some s) t = ((λ h. ground (arith, h)), (λ h. ground (arith, h)))

is_until_iff : (o : Option ℕ) (t : ℕ) → (is_until o t ≡ true) ↔ IsUntil o t
is_until_iff none t = ((λ h. tt), (λ h. refl))
is_until_iff (some s) t = ((λ h. ground (arith, h)), (λ h. ground (arith, h)))

module _ (F : Type 0) where
  -- an anomaly that the filters ask for, the bounds of the time included
  abbrev pub IsWanted : Filters → AnomalyRecord F → Type 0
  IsWanted f rec =
      IsText f.severity rec.severity
      × IsText f.status rec.status
      × IsText f.detector rec.detector_type
      × IsFrom f.start rec.detected_at
      × IsUntil f.stop rec.detected_at

  -- a test of that
  abbrev pub Decides : Filters → (AnomalyRecord F → Bool) → Type 0
  Decides f wanted = (rec : AnomalyRecord F) → (wanted rec ≡ true) ↔ IsWanted f rec

  pub passes-Decides : (f : Filters) → Decides f (passes F f)
  unfolding passes
  passes-Decides f rec =
      let severity = is_text_iff f.severity rec.severity in
      let status = is_text_iff f.status rec.status in
      let detector = is_text_iff f.detector rec.detector_type in
      let from = is_from_iff f.start rec.detected_at in
      let until = is_until_iff f.stop rec.detected_at in
      (
        (λ h. (
          severity.0 (ground (arith, h)),
          status.0 (ground (arith, h)),
          detector.0 (ground (arith, h)),
          from.0 (ground (arith, h)),
          until.0 (ground (arith, h)),
        )),
        λ (a, b, c, d, e).
            ground (arith, severity.1 a, status.1 b, detector.1 c, from.1 d, until.1 e),
      )

  same_test : (a b : Bool) (P : Type 0) → (a ≡ true) ↔ P → (b ≡ true) ↔ P → a ≡ b
  same_test true true P f g = refl
  same_test true false P f g = sym (g.1 (f.0 refl))
  same_test false true P f g = f.1 (g.0 refl)
  same_test false false P f g = refl

  keep-passes :
      (f : Filters) (wanted : AnomalyRecord F → Bool) (rows : List (AnomalyRecord F))
      → Decides f wanted
      → keep (passes F f) rows ≡ keep wanted rows
  keep-passes f wanted [] d = refl
  keep-passes f wanted (x ∷ rest) d =
      let same = same_test (passes F f x) (wanted x) (IsWanted f x) (passes-Decides f x) (d x) in
      ground (arith, same, keep-passes f wanted rest d)

  All-keep-IsWanted :
      (f : Filters) (rows : List (AnomalyRecord F)) → All (IsWanted f) (keep (passes F f) rows)
  All-keep-IsWanted f [] = tt
  All-keep-IsWanted f (x ∷ rest) =
      one (passes F f x) (λ e. (passes-Decides f x).0 e) (All-keep-IsWanted f rest)
    where
      one :
          (b : Bool)
          → (b ≡ true → IsWanted f x)
          → All (IsWanted f) (keep (passes F f) rest)
          → All
              (IsWanted f)
              (elim b [ true ↦ x ∷ keep (passes F f) rest | false ↦ keep (passes F f) rest ])
      one true new more = (new refl, more)
      one false new more = more

  -- the items of the pages 1 to n
  abbrev pub pages_to :
      (counted newest_first : List (AnomalyRecord F))
      → ℕ
      → (size : ℕ) → Filters
      → List (AnomalyRecord F)
  pages_to counted rows zero size f = []
  pages_to counted rows (suc n) size f =
      pages_to counted rows n size f ++ (list_anomalies F counted rows (suc n) size f).0

  pages_to-take :
      (counted rows : List (AnomalyRecord F)) (n size : ℕ) (f : Filters)
      → pages_to counted rows n size f ≡ take (n * size) (keep (passes F f) rows)
  unfolding list_anomalies
  pages_to-take counted rows zero size f =
      let none_yet : 0 ≡ 0 * size = omega arith in
      ap (λ k. take k (keep (passes F f) rows)) none_yet
  pages_to-take counted rows (suc n) size f =
      let kept = keep (passes F f) rows in
      let count : n * size + size ≡ suc n * size = grind arith in
      let start : suc n - 1 ≡ n = omega arith in
      ap (λ l. l ++ (list_anomalies F counted rows (suc n) size f).0)
        (pages_to-take counted rows n size f)
      ∙ ap (λ k. take (n * size) kept ++ take size (drop (k * size) kept)) start
      ∙ sym (take_add (n * size) size kept)
      ∙ ap (λ k. take k kept) count

  -- A page holds at most `size` anomalies, all of which are wanted by the filters: a filter that is
  -- given is the severity, the status or the detector, or a bound of the time, itself included. The
  -- total counts the wanted rows of the table that the first statement reads; and while the table
  -- that the second one reads stays in its order, the pages 1 to n together are the first n * size
  -- of its wanted rows, in that order. `wanted` is any test of what the filters want.
  pub list_anomalies_lem :
      (counted rows : List (AnomalyRecord F)) (n size : ℕ) (f : Filters)
      (wanted : AnomalyRecord F → Bool)
      → Decides f wanted
      → ((page : ℕ)
          → let (items, total) = list_anomalies F counted rows page size f in
            All (IsWanted f) items × (length items ≤ size) × (total ≡ length (keep wanted counted)))
        × (pages_to counted rows n size f ≡ take (n * size) (keep wanted rows))
  unfolding list_anomalies
  list_anomalies_lem counted rows n size f wanted decides = (
    λ page. (
      All-take (IsWanted f) size _
          (All-drop (IsWanted f) ((page - 1) * size) _ (All-keep-IsWanted f rows)),
      length-take size _,
      ap length (keep-passes f wanted counted decides),
    ),
    pages_to-take counted rows n size f ∙ ap (take (n * size)) (keep-passes f wanted rows decides),
  )
