-- ===== src/Workflow/Graphs/Adjacency/Peel.antt =====
-- The acyclicity test of the concrete graph library, sound and complete for rankings.
use python_backend_projects.Base.{
  ℕ, zero, suc, ◌<◌, ◌≤◌, String, ◌≡◌, refl, ap, Bool, true, false, ◌&&◌, ◌||◌, List, [], ◌∷◌,
  contains, length, is_empty, str_dec, arith, Bool-cases, inl, inr, ◌==◌, if◌then◌else◌,
}
use python_backend_projects.Base.Search.{Least, minimum_of}
use python_backend_projects.Workflow.Graphs.{IsRanking, has_edge}

-- some edge enters `u`
has_entry : List (String × String) → String → Bool
has_entry [] u = false
has_entry ((a, b) ∷ es) u = u == b || has_entry es u

keep_sources : (String → Bool) → List (String × String) → List (String × String)
keep_sources test [] = []
keep_sources test ((a, b) ∷ es) =
    let rest = keep_sources test es in if test a then (a, b) ∷ rest else rest

-- the edges whose source has an entering edge
inner : List (String × String) → List (String × String)
unfolding has_entry keep_sources
inner es = keep_sources (has_entry es) es

unfoldable pub peel : ℕ → List (String × String) → Bool
unfolding inner
peel zero es = is_empty es
peel (suc f) es = let rest = peel f (inner es) in if is_empty es then true else rest

unfoldable pub peel_rank : ℕ → List (String × String) → String → ℕ
unfolding inner
peel_rank zero es u = 0
peel_rank (suc f) es u =
    let rest = peel_rank f (inner es) u in if has_entry es u then suc rest else 0

has_edge-keep_sources :
    (test : String → Bool) (es : List (String × String)) (u v : String)
    → has_edge (keep_sources test es) u v ≡ (has_edge es u v && test u)
unfolding keep_sources
has_edge-keep_sources test [] u v = refl
has_edge-keep_sources test ((a, b) ∷ es) u v = elim (str_dec u a) [
  | yes same ↦ ground (arith, has_edge-keep_sources test es u v, ap test same)
  | no other ↦ ground (arith, has_edge-keep_sources test es u v)
]

has_edge→has_entry :
    (es : List (String × String)) (u v : String) → has_edge es u v ≡ true → has_entry es v ≡ true
unfolding has_entry
has_edge→has_entry [] u v h = cc
has_edge→has_entry ((a, b) ∷ es) u v h = ground (arith, has_edge→has_entry es u v)

peel_grows :
    (f : ℕ) (es : List (String × String)) (u v : String)
    → peel f es ≡ true
    → has_edge es u v ≡ true
    → peel_rank f es u < peel_rank f es v
unfolding peel peel_rank inner
peel_grows zero es u v h e = ground arith
peel_grows (suc f) es u v h e = ground (
  arith,
  has_edge→has_entry es u v e,
  has_edge-keep_sources (has_entry es) es u v,
  peel_grows f (inner es) u v,
)

pub peel-IsRanking :
    (f : ℕ) (es : List (String × String)) → peel f es ≡ true → IsRanking es (peel_rank f es)
peel-IsRanking f es h = record { grows = λ u v e. peel_grows f es u v h e }

sources : List (String × String) → List String
sources [] = []
sources ((a, b) ∷ es) = a ∷ sources es

has_edge→source :
    (es : List (String × String)) (u v : String)
    → has_edge es u v ≡ true
    → contains (sources es) u ≡ true
unfolding sources
has_edge→source [] u v h = cc
has_edge→source ((a, b) ∷ es) u v h = ground (arith, has_edge→source es u v)

has_entry→has_edge :
    (es : List (String × String)) (v : String)
    → has_entry es v ≡ true
    → (u : String) × (has_edge es u v ≡ true)
unfolding has_entry
has_entry→has_edge [] v h = absurd (cc)
has_entry→has_edge ((a, b) ∷ es) v h = elim (str_dec v b) [
  | yes same ↦ (a, ground arith)
  | no other ↦ let (u, e) = has_entry→has_edge es v (ground arith) in (u, ground arith)
]

length-keep_sources :
    (test : String → Bool) (es : List (String × String)) → length (keep_sources test es) ≤ length es
unfolding keep_sources
length-keep_sources test [] = omega arith
length-keep_sources test ((a, b) ∷ es) = ground (arith, length-keep_sources test es)

-- A source that fails the test makes the list shorter.
length-keep_sources_lt :
    (test : String → Bool) (es : List (String × String)) (u : String)
    → contains (sources es) u ≡ true
    → test u ≡ false
    → length (keep_sources test es) < length es
unfolding keep_sources sources
length-keep_sources_lt test [] u h t = cc
length-keep_sources_lt test ((a, b) ∷ es) u h t = elim (str_dec u a) [
  | yes same ↦ ground (arith, length-keep_sources test es, ap test same)
  | no other ↦ ground (arith, length-keep_sources_lt test es u)
]

-- In a ranked graph a source of least rank has no entering edge.
lowest_source :
    (rank : String → ℕ) (es : List (String × String))
    → IsRanking es rank
    → (low : Least rank (sources es)) → has_entry es low.element ≡ false
lowest_source rank es r low = elim (Bool-cases (has_entry es low.element)) [
  | inr free ↦ free
  | inl entered ↦
      let (u, e) = has_entry→has_edge es low.element entered in
      absurd
        (omega (arith, r.grows u low.element e, low.least u (has_edge→source es u low.element e)))
]

inner-IsRanking :
    (rank : String → ℕ) (es : List (String × String))
    → IsRanking es rank
    → IsRanking (inner es) rank
unfolding inner
inner-IsRanking rank es r = record {
  grows = λ u v e. r.grows u v (ground (arith, has_edge-keep_sources (has_entry es) es u v, e));
}

inner_shorter :
    (rank : String → ℕ) (e : String × String) (es : List (String × String))
    → IsRanking (e ∷ es) rank
    → length (inner (e ∷ es)) < length (e ∷ es)
unfolding inner sources
inner_shorter rank e es r =
    let low = minimum_of rank e.0 (sources es) in
    length-keep_sources_lt (has_entry (e ∷ es)) (e ∷ es) low.element low.member
      (lowest_source rank (e ∷ es) r low)

pub IsRanking-peel :
    (rank : String → ℕ) (f : ℕ) (es : List (String × String))
    → length es ≤ f
    → IsRanking es rank
    → peel f es ≡ true
unfolding peel
IsRanking-peel rank zero [] h r = refl
IsRanking-peel rank zero (e ∷ es) h r = absurd (omega arith)
IsRanking-peel rank (suc f) [] h r = refl
IsRanking-peel rank (suc f) (e ∷ es) h r =
    IsRanking-peel rank f (inner (e ∷ es)) (omega (arith, inner_shorter rank e es r))
      (inner-IsRanking rank (e ∷ es) r)
