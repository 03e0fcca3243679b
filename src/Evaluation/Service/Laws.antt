-- ===== src/Evaluation/Service/Laws.antt =====
-- Duplicates, retries and the pairing of anomalies with verdicts, for the evaluation of reports.
use open_fire_watch.Base.{
  ℕ, ◌≡◌, refl, ap, ◌∙◌, ◌⊎◌, Bool, true, false, Option, none, some, any, arith,
}
use open_fire_watch.Store.{Store, conflicts, insert_anomaly, insert_event, publish}
use open_fire_watch.Store.Rows.{any-conflicts, insert_anomaly_conflict, conflict_of_none}
use open_fire_watch.Evaluation.Decision.{Decision, SmoulderingEvidence}
use open_fire_watch.Evaluation.Report.{DetectionReport, report_is_valid}
use open_fire_watch.Evaluation.Service.{
  Environment, Stage, insert_stage, zones_stage, event_stage, Outcome, duplicate, failed,
  conditions_in, conclude, evaluate_new, evaluate_inserted, evaluate, verdict_in, evidence_in,
}

module _ (env : Environment) (report : DetectionReport) (fails : Stage → Bool) where
  conclude-anomalies :
      (id : ℕ) (d : Decision) (evidence : Option SmoulderingEvidence) (s : Store)
      → (conclude env report fails id d evidence s).1.anomalies ≡ s.anomalies
  unfolding conclude insert_event publish
  conclude-anomalies id d evidence s = ground arith

  evaluate_new-anomalies :
      (id : ℕ) (s : Store) → (evaluate_new env report fails id s).1.anomalies ≡ s.anomalies
  unfolding evaluate_new
  evaluate_new-anomalies id s =
      ground (arith, conclude-anomalies id (verdict_in env report s) (evidence_in env report s) s)

  evaluate_inserted-conflicts :
      (s : Store) (o : Option (ℕ × Store))
      → insert_anomaly report.detection (conditions_in report.weather) s ≡ o
      → any (conflicts report.detection) (evaluate_inserted env report fails s o).1.anomalies ≡ true
  evaluate_inserted-conflicts s none e =
      conflict_of_none report.detection (conditions_in report.weather) s e
  evaluate_inserted-conflicts s (some (id, s')) e =
      ap (any (conflicts report.detection)) (evaluate_new-anomalies id s')
      ∙ any-conflicts report.detection (conditions_in report.weather) s s' id e

  -- Once the insertion was tried for a valid report, its detection stands in the table, whatever
  -- failed afterwards.
  evaluate-conflicts :
      (s : Store)
      → report_is_valid report ≡ true
      → fails insert_stage ≡ false
      → any (conflicts report.detection) (evaluate env report fails s).1.anomalies ≡ true
  unfolding evaluate
  evaluate-conflicts s v f = rw (v, f) (evaluate_inserted-conflicts s _ refl)

evaluate-duplicate :
    (env : Environment) (report : DetectionReport) (fails : Stage → Bool) (s : Store)
    → report_is_valid report ≡ true
    → fails insert_stage ≡ false
    → any (conflicts report.detection) s.anomalies ≡ true
    → evaluate env report fails s ≡ (duplicate, s)
unfolding evaluate
evaluate-duplicate env report fails s v f c =
    rw (v, f, insert_anomaly_conflict report.detection (conditions_in report.weather) s c) refl

-- A valid report is evaluated at most once: after any attempt at it that reached the insertion, a
-- further attempt that reaches it, in any environment, answers DUPLICATE and changes nothing.
pub evaluate-evaluate :
    (env env' : Environment) (report : DetectionReport) (fails fails' : Stage → Bool) (s : Store)
    → report_is_valid report ≡ true
    → fails insert_stage ≡ false
    → fails' insert_stage ≡ false
    → let s' = (evaluate env report fails s).1 in evaluate env' report fails' s' ≡ (duplicate, s')
evaluate-evaluate env env' report fails fails' s v f f' =
    evaluate-duplicate env' report fails' _ v f' (evaluate-conflicts env report fails s v f)

evaluate_new-lost :
    (env : Environment) (report : DetectionReport) (fails : Stage → Bool) (id : ℕ) (s : Store)
    → (fails zones_stage ≡ true) ⊎ (fails event_stage ≡ true)
    → evaluate_new env report fails id s ≡ (failed, s)
unfolding evaluate_new conclude
evaluate_new-lost env report fails id s h = ground arith

evaluate-failed :
    (env : Environment) (report : DetectionReport) (fails : Stage → Bool) (s : Store)
    → report_is_valid report ≡ true
    → fails insert_stage ≡ false
    → any (conflicts report.detection) s.anomalies ≡ false
    → (fails zones_stage ≡ true) ⊎ (fails event_stage ≡ true)
    → let r = evaluate env report fails s in
      (r.0 ≡ failed) × (r.1.events ≡ s.events) × (r.1.published ≡ s.published)
unfolding evaluate insert_anomaly
evaluate-failed env report fails s v f fresh h =
    rw (v, f, fresh) (rw (evaluate_new-lost env report fails _ _ h) (refl, refl, refl))

-- When the zone lookup or the insertion of the verdict fails for a valid report of a detection not
-- seen before, the attempt fails, and a retry that reaches the insertion answers DUPLICATE: no
-- verdict is stored and nothing is broadcast by either.
pub evaluate-lost :
    (env env' : Environment) (report : DetectionReport) (fails fails' : Stage → Bool) (s : Store)
    → report_is_valid report ≡ true
    → fails insert_stage ≡ false
    → fails' insert_stage ≡ false
    → any (conflicts report.detection) s.anomalies ≡ false
    → (fails zones_stage ≡ true) ⊎ (fails event_stage ≡ true)
    → let first = evaluate env report fails s in
      let retry = evaluate env' report fails' first.1 in
      (first.0 ≡ failed)
      × (retry.0 ≡ duplicate)
      × (retry.1.events ≡ s.events)
      × (retry.1.published ≡ s.published)
evaluate-lost env env' report fails fails' s v f f' fresh h =
    let (lost, same_events, same_published) = evaluate-failed env report fails s v f fresh h in
    let again = evaluate-evaluate env env' report fails fails' s v f f' in
    (
      lost,
      ap (λ (r : Outcome × Store). r.0) again,
      ap (λ (r : Outcome × Store). r.1.events) again ∙ same_events,
      ap (λ (r : Outcome × Store). r.1.published) again ∙ same_published,
    )
