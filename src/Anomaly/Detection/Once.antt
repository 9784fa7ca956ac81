-- ===== src/Anomaly/Detection/Once.antt =====
-- A detection run that is repeated while its cooldowns last reports nothing again
-- (app/services/detection_engine.py).
use python_backend_projects.Base.{
  ℕ, zero, suc, ◌+◌, ◌≡◌, refl, String, Bool, true, false, not, ◌||◌, List, [], ◌∷◌, Result, return,
  raise, ==-refl, nat_eq_refl, if◌then◌else◌, if-both, lt→ltb, All, arith,
}
use python_backend_projects.Anomaly.Records.{AlertRule, DetectionResult, AnomalyRecord}
use python_backend_projects.Anomaly.Notifications.{Outside}
use python_backend_projects.Anomaly.Detection.{
  Key, cd, rulecd, key_eq, Cooldowns, check_cooldown, anomaly_cooldown_seconds, arm_cooldown,
  rule_applies, armed_or, append_rule, match_armed, match_rules, Encode, Platform, store_matched,
  record_anomaly, handle_result, after_result, run_results,
}

key_eq_refl : (k : Key) → key_eq k k ≡ true
unfolding key_eq
key_eq_refl (cd s m d) = ground (arith, nat_eq_refl s, ==-refl m, ==-refl d)
key_eq_refl (rulecd r s m) = ground (arith, nat_eq_refl r, nat_eq_refl s, ==-refl m)

-- What was cooling down still is.
record Keeps (now : ℕ) (before after : Cooldowns) : Type 0 where
  kept : (k : Key) → check_cooldown now k before ≡ true → check_cooldown now k after ≡ true

Keeps-push :
    (now : ℕ) (k : Key) (ttl : ℕ) (cds : Cooldowns) → Keeps now cds ((k, now + suc ttl) ∷ cds)
unfolding check_cooldown
Keeps-push now k ttl cds =
    let later = lt→ltb now (now + suc ttl) (omega arith) in
    record { kept = λ j h. ground (arith, later, h) }

check_cooldown-push :
    (now : ℕ) (k : Key) (ttl : ℕ) (cds : Cooldowns)
    → check_cooldown now k ((k, now + suc ttl) ∷ cds) ≡ true
unfolding check_cooldown
check_cooldown-push now k ttl cds =
    rw (key_eq_refl k, lt→ltb now (now + suc ttl) (omega arith)) refl

choose :
    {A : Type 0} (P : A → Type 0) (b : Bool) {x y : A}
    → (b ≡ true → P x)
    → P y
    → P (if b then x else y)
choose P true px py = px refl
choose P false px py = py

Keeps-trans : (now : ℕ) (a b c : Cooldowns) → Keeps now a b → Keeps now b c → Keeps now a c
Keeps-trans now a b c x y = record { kept = λ k h. y.kept k (x.kept k h) }

Keeps-arm :
    (now : ℕ) (k : Key) (ttl : ℕ) (cds : Cooldowns)
    → Keeps now cds (armed_or cds (arm_cooldown now k ttl cds))
unfolding arm_cooldown
Keeps-arm now k zero cds = record { kept = λ j h. h }
Keeps-arm now k (suc ttl) cds = Keeps-push now k ttl cds

append_rule-cooldowns :
    (rule : AlertRule) (m : Result (List AlertRule) × Cooldowns) → (append_rule rule m).1 ≡ m.1
append_rule-cooldowns rule (raise e, cds) = refl
append_rule-cooldowns rule (return matched, cds) = refl

Keeps-match_armed :
    (now : ℕ) (rule : AlertRule) (cds : Cooldowns) (r : Result Cooldowns)
    (more : Result (List AlertRule) × Cooldowns)
    → Keeps now cds more.1
    → Keeps now cds (match_armed rule cds r more).1
Keeps-match_armed now rule cds (raise e) more h = record { kept = λ j a. a }
Keeps-match_armed now rule cds (return armed) more h = rw (append_rule-cooldowns rule more) h

Keeps-match_rules :
    (now source : ℕ) (metric detector severity : String) (rules : List AlertRule) (cds : Cooldowns)
    → Keeps now cds (match_rules now source metric detector severity rules cds).1
unfolding match_rules
Keeps-match_rules now source metric detector severity [] cds = record { kept = λ j h. h }
Keeps-match_rules now source metric detector severity (rule ∷ rest) cds =
    let k = rulecd rule.id source metric in
    let arming = arm_cooldown now k rule.cooldown_seconds cds in
    if-both (λ (m : Result (List AlertRule) × Cooldowns). Keeps now cds m.1)
      (not (rule_applies source metric detector severity rule) || check_cooldown now k cds)
      (Keeps-match_rules now source metric detector severity rest cds)
      (Keeps-match_armed now rule cds arming _ (
        Keeps-trans now cds (armed_or cds arming) _ (Keeps-arm now k rule.cooldown_seconds cds)
          (Keeps-match_rules now source metric detector severity rest (armed_or cds arming))))

module _ (F : Type 0) (out : Outside) (enc : Encode F) (source : ℕ) (metric : String)
    (rules : List AlertRule) where
  -- the result is no anomaly, or its key is cooling down
  abbrev pub IsQuiet : Cooldowns → DetectionResult F → Type 0
  IsQuiet cds det =
      (not det.is_anomaly || check_cooldown out.now (cd source metric det.detector_name) cds) ≡ true

  store_matched-cooldowns :
      (rec : AnomalyRecord F) (p : Platform F) (m : Result (List AlertRule) × Cooldowns)
      → (store_matched F out enc rec p m).1.cooldowns ≡ m.1
  unfolding store_matched
  store_matched-cooldowns rec p (raise e, cds) = refl
  store_matched-cooldowns rec p (return matched, cds) = refl

  record_anomaly-Keeps :
      (det : DetectionResult F) (p : Platform F)
      → Keeps out.now
          ((cd source metric det.detector_name, out.now + anomaly_cooldown_seconds) ∷ p.cooldowns)
          (record_anomaly F out enc source metric rules det p).1.cooldowns
  unfolding record_anomaly
  record_anomaly-Keeps det p =
      let armed =
        (cd source metric det.detector_name, out.now + anomaly_cooldown_seconds) ∷ p.cooldowns in
      rw
        (store_matched-cooldowns _ _
          (match_rules out.now source metric det.detector_name det.severity rules armed))
        (Keeps-match_rules out.now source metric det.detector_name det.severity rules armed)

  handle_result-Keeps :
      (det : DetectionResult F) (p : Platform F)
      → Keeps out.now p.cooldowns (handle_result F out enc source metric rules det p).1.cooldowns
  unfolding handle_result
  handle_result-Keeps det p =
      if-both (λ (r : Result (Unit {0}) × Platform F). Keeps out.now p.cooldowns r.1.cooldowns)
        (not det.is_anomaly
          || check_cooldown out.now (cd source metric det.detector_name) p.cooldowns)
        (record { kept = λ j h. h })
        (Keeps-trans out.now p.cooldowns _ _
          (Keeps-push out.now (cd source metric det.detector_name) 299 p.cooldowns)
          (record_anomaly-Keeps det p))

  record_anomaly-IsQuiet :
      (det : DetectionResult F) (p : Platform F)
      → IsQuiet (record_anomaly F out enc source metric rules det p).1.cooldowns det
  record_anomaly-IsQuiet det p =
      let k = cd source metric det.detector_name in
      let armed =
        (record_anomaly-Keeps det p).kept k (check_cooldown-push out.now k 299 p.cooldowns) in
      ground (arith, armed)

  -- After its round a result is quiet.
  handle_result-IsQuiet :
      (det : DetectionResult F) (p : Platform F)
      → IsQuiet (handle_result F out enc source metric rules det p).1.cooldowns det
  unfolding handle_result
  handle_result-IsQuiet det p =
      choose (λ (r : Result (Unit {0}) × Platform F). IsQuiet r.1.cooldowns det)
        (not det.is_anomaly
          || check_cooldown out.now (cd source metric det.detector_name) p.cooldowns)
        (λ quiet. quiet) (record_anomaly-IsQuiet det p)

  -- Results that are quiet change nothing.
  pub run_results-quiet :
      (dets : List (DetectionResult F)) (p : Platform F)
      → All (IsQuiet p.cooldowns) dets
      → run_results F out enc source metric rules dets p ≡ (return tt, p)
  unfolding run_results handle_result
  run_results-quiet [] p quiet = refl
  run_results-quiet (det ∷ dets) p quiet = rw (quiet.0) (run_results-quiet dets p quiet.1)

  IsQuiet-kept :
      (det : DetectionResult F) (a b : Cooldowns)
      → Keeps out.now a b
      → IsQuiet a det
      → IsQuiet b det
  IsQuiet-kept det a b keeps quiet =
      let kept = keeps.kept (cd source metric det.detector_name) in ground (arith, kept, quiet)

  after_result-Keeps :
      (cds : Cooldowns) (r : Result (Unit {0})) (p' : Platform F)
      (more : Result (Unit {0}) × Platform F)
      → Keeps out.now cds p'.cooldowns
      → Keeps out.now cds more.1.cooldowns
      → Keeps out.now cds (after_result F r p' more).1.cooldowns
  after_result-Keeps cds (raise e) p' more a b = a
  after_result-Keeps cds (return _) p' more a b = b

  run_results-Keeps :
      (dets : List (DetectionResult F)) (p : Platform F)
      → Keeps out.now p.cooldowns (run_results F out enc source metric rules dets p).1.cooldowns
  unfolding run_results
  run_results-Keeps [] p = record { kept = λ j h. h }
  run_results-Keeps (det ∷ dets) p =
      let (r, p') = handle_result F out enc source metric rules det p in
      let one = handle_result-Keeps det p in
      after_result-Keeps p.cooldowns r p' _ one
        (Keeps-trans out.now p.cooldowns p'.cooldowns _ one (run_results-Keeps dets p'))

  after_result-IsQuiet :
      (det : DetectionResult F) (dets : List (DetectionResult F)) (r : Result (Unit {0}))
      (p' : Platform F) (more : Result (Unit {0}) × Platform F)
      → IsQuiet more.1.cooldowns det
      → (more.0 ≡ return tt → All (IsQuiet more.1.cooldowns) dets)
      → (after_result F r p' more).0 ≡ return tt
      → IsQuiet (after_result F r p' more).1.cooldowns det
        × All (IsQuiet (after_result F r p' more).1.cooldowns) dets
  after_result-IsQuiet det dets (raise e) p' more first rest done = absurd cc
  after_result-IsQuiet det dets (return _) p' more first rest done = (first, rest done)

  -- A run that ends without an exception leaves all its results quiet.
  pub run_results-All :
      (dets : List (DetectionResult F)) (p : Platform F)
      → (run_results F out enc source metric rules dets p).0 ≡ return tt
      → All (IsQuiet (run_results F out enc source metric rules dets p).1.cooldowns) dets
  unfolding run_results
  run_results-All [] p done = tt
  run_results-All (det ∷ dets) p done =
      let (r, p') = handle_result F out enc source metric rules det p in
      after_result-IsQuiet det dets r p' (run_results F out enc source metric rules dets p')
        (IsQuiet-kept det p'.cooldowns _ (run_results-Keeps dets p') (handle_result-IsQuiet det p))
        (run_results-All dets p') done
