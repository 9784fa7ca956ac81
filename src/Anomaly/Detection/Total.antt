-- ===== src/Anomaly/Detection/Total.antt =====
-- A detection run ends without an exception if the rules' cooldowns are positive, and repeated it
-- changes nothing (app/services/detection_engine.py).
use python_backend_projects.Base.{
  ℕ, zero, suc, ◌≤◌, ◌≡◌, refl, String, not, ◌||◌, List, [], ◌∷◌, Result, return, raise, if-both,
  All, arith,
}
use python_backend_projects.Anomaly.Records.{AlertRule, DetectionResult, AnomalyRecord}
use python_backend_projects.Anomaly.Notifications.{Outside}
use python_backend_projects.Anomaly.Detection.{
  Key, cd, rulecd, Cooldowns, check_cooldown, arm_cooldown, rule_applies, armed_or, append_rule,
  match_armed, match_rules, Encode, Platform, store_matched, record_anomaly, handle_result,
  after_result, run_results,
}
use python_backend_projects.Anomaly.Detection.Once.{run_results-All, run_results-quiet}

-- the rule has a cooldown that Redis accepts
abbrev pub HasCooldown : AlertRule → Type 0
HasCooldown rule = 1 ≤ rule.cooldown_seconds

-- the matching returned
Matched : Result (List AlertRule) × Cooldowns → Type 0
Matched m = (matched : List AlertRule) × (m.0 ≡ return matched)

Armed : Result Cooldowns → Type 0
Armed r = (cds : Cooldowns) × (r ≡ return cds)

arm_cooldown-Armed :
    (now : ℕ) (k : Key) (ttl : ℕ) (cds : Cooldowns) → 1 ≤ ttl → Armed (arm_cooldown now k ttl cds)
unfolding arm_cooldown Armed
arm_cooldown-Armed now k zero cds h = absurd (omega arith)
arm_cooldown-Armed now k (suc ttl) cds h = (_, refl)

append_rule-Matched :
    (rule : AlertRule) (m : Result (List AlertRule) × Cooldowns)
    → Matched m
    → Matched (append_rule rule m)
unfolding Matched
append_rule-Matched rule (raise e, cds) (matched, h) = absurd cc
append_rule-Matched rule (return l, cds) h = (rule ∷ l, refl)

match_armed-Matched :
    (rule : AlertRule) (cds : Cooldowns) (r : Result Cooldowns)
    (more : Result (List AlertRule) × Cooldowns)
    → Armed r
    → Matched more
    → Matched (match_armed rule cds r more)
unfolding Armed
match_armed-Matched rule cds (raise e) more (armed, h) m = absurd cc
match_armed-Matched rule cds (return armed) more a m = append_rule-Matched rule more m

match_rules-Matched :
    (now source : ℕ) (metric detector severity : String) (rules : List AlertRule) (cds : Cooldowns)
    → All HasCooldown rules
    → Matched (match_rules now source metric detector severity rules cds)
unfolding match_rules Matched
match_rules-Matched now source metric detector severity [] cds h = ([], refl)
match_rules-Matched now source metric detector severity (rule ∷ rest) cds h =
    let k = rulecd rule.id source metric in
    let arming = arm_cooldown now k rule.cooldown_seconds cds in
    if-both Matched
      (not (rule_applies source metric detector severity rule) || check_cooldown now k cds)
      (match_rules-Matched now source metric detector severity rest cds h.1)
      (match_armed-Matched rule cds arming _
        (arm_cooldown-Armed now k rule.cooldown_seconds cds h.0)
        (match_rules-Matched now source metric detector severity rest (armed_or cds arming) h.1))

module _ (F : Type 0) (out : Outside) (enc : Encode F) (source : ℕ) (metric : String)
    (rules : List AlertRule) where
  store_matched-returns :
      (rec : AnomalyRecord F) (p : Platform F) (m : Result (List AlertRule) × Cooldowns)
      → Matched m
      → (store_matched F out enc rec p m).0 ≡ return tt
  unfolding store_matched Matched
  store_matched-returns rec p (raise e, cds) (matched, h) = absurd cc
  store_matched-returns rec p (return matched, cds) h = refl

  handle_result-returns :
      All HasCooldown rules
      → (det : DetectionResult F) (p : Platform F)
      → (handle_result F out enc source metric rules det p).0 ≡ return tt
  unfolding handle_result record_anomaly
  handle_result-returns h det p =
      if-both (λ (r : Result (Unit {0}) × Platform F). r.0 ≡ return tt)
        (not det.is_anomaly
          || check_cooldown out.now (cd source metric det.detector_name) p.cooldowns)
        refl
        (store_matched-returns _ _ _
          (match_rules-Matched out.now source metric det.detector_name det.severity rules _ h))

  after_result-returns :
      (r : Result (Unit {0})) (p' : Platform F) (more : Result (Unit {0}) × Platform F)
      → r ≡ return tt
      → more.0 ≡ return tt
      → (after_result F r p' more).0 ≡ return tt
  after_result-returns (raise e) p' more h rest = absurd cc
  after_result-returns (return _) p' more h rest = rest

  run_results-returns :
      All HasCooldown rules
      → (dets : List (DetectionResult F)) (p : Platform F)
      → (run_results F out enc source metric rules dets p).0 ≡ return tt
  unfolding run_results
  run_results-returns h [] p = refl
  run_results-returns h (det ∷ dets) p =
      let (r, p') = handle_result F out enc source metric rules det p in
      after_result-returns r p' _ (handle_result-returns h det p) (run_results-returns h dets p')

  -- With rules whose cooldowns are positive, the loop over the detectors' results ends without an
  -- exception, and the same results handled again at the same time change nothing: no anomaly is
  -- recorded and no rule notified a second time.
  pub run_results_twice :
      All HasCooldown rules
      → (dets : List (DetectionResult F)) (p : Platform F)
      → let (r, p') = run_results F out enc source metric rules dets p in
        (r ≡ return tt) × (run_results F out enc source metric rules dets p' ≡ (return tt, p'))
  run_results_twice h dets p =
      let done = run_results-returns h dets p in
      (
        done,
        run_results-quiet F out enc source metric rules dets
            (run_results F out enc source metric rules dets p).1
            (run_results-All F out enc source metric rules dets p done),
      )
