-- ===== src/Anomaly/Floats.antt =====
-- What the detectors (app/detectors) use of Python's floats, numpy and scikit-learn. They are
-- parameters: the code's arithmetic is translated over them, and nothing computes a float here.
use python_backend_projects.Base.{ℕ, String, Bool, true, List, ◌≡◌, if◌then◌else◌}

pub record Floats (F : Type 0) : Type 0 where
  -- a float literal of the code
  pub lit : String → F
  pub of_nat : ℕ → F
  pub add : F → F → F
  pub sub : F → F → F
  pub mul : F → F → F
  pub div : F → F → F
  pub abs : F → F
  pub exp : F → F
  -- `a < b` and `a >= b`: both are false where one of them is not a number
  pub lt : F → F → Bool
  pub ge : F → F → Bool
  -- `f"{x:.4f}"` and `str(x)`
  pub fixed4 : F → String
  pub str : F → String
  -- numpy: mean, median, std with ddof=1, and convolve with mode="same"
  pub mean : List F → F
  pub median : List F → F
  pub std : List F → F
  pub convolve_same : List F → List F → List F
  -- an `IsolationForest` that is fitted on the list: whether it predicts -1 of a value, and its
  -- decision function there
  pub isolation_forest : (contamination : F) → (random_state : ℕ) → List F → F → Bool × F

module _ {F : Type 0} (fl : Floats F) where
  -- Python's `min(a, b)`
  abbrev pub min_float : F → F → F
  min_float a b = if fl.lt b a then b else a

  -- Half is reached by what exceeds a positive threshold, divided by its double: below 1e300 the
  -- double is exact, and the division rounds monotonically. One is at least a half.
  pub record AreFloats : Type 0 where
    pub exceeds :
        (x t : F)
        → fl.lt (fl.lit "0.0") t ≡ true
        → fl.lt t (fl.lit "1e300") ≡ true
        → fl.lt t x ≡ true
        → fl.ge (fl.div x (fl.mul t (fl.lit "2.0"))) (fl.lit "0.5") ≡ true
    pub one_ge_half : fl.ge (fl.lit "1.0") (fl.lit "0.5") ≡ true
