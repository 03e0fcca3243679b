-- ===== src/Evaluation/Service/Bus.antt =====
-- What the evaluation of a report may put on the bus, and what it writes beside an anomaly.
use open_fire_watch.Base.{
  ℕ, ◌≡◌, refl, sym, ap, ◌∙◌, Bool, true, false, not, ◌&&◌, Option, none, some, List, ◌∷◌, All,
  arith, map, if◌then◌else◌, is_some,
}
use open_fire_watch.Store.{
  Anomaly, Event, Store, AlertPayload, RiskZone, insert_anomaly, insert_event, publish,
}
use open_fire_watch.Store.Rows.{insert_anomaly_new, IsMatched}
use open_fire_watch.Sensors.Current.{LocalConditions}
use open_fire_watch.Evaluation.Decision.{Decision, SmoulderingEvidence}
use open_fire_watch.Evaluation.Decision.Extremes.{decide-info, decide-smouldering, is_smouldering}
use open_fire_watch.Evaluation.Level.{is_info}
use open_fire_watch.Evaluation.Report.{DetectionReport}
use open_fire_watch.Evaluation.Service.Passes.{IsFaint, HasTwoPasses, detect_smouldering-two}
use open_fire_watch.Evaluation.Service.{
  Environment, Stage, zone_of, backfilled, zone_hazard, zone_sensor, conditions_in, is_weak,
  detect_smouldering, evidence_in, verdict_in, conclude, evaluate_new, evaluate_inserted, evaluate,
}

-- What may be broadcast: an alert inside a zone, with more than the INFO level.
abbrev pub IsAlert : AlertPayload → Type 0
IsAlert p = (is_some p.zone ≡ true) × (is_info p.level ≡ false)

is_some-zone_hazard : (z : Option RiskZone) → is_some (zone_hazard z) ≡ is_some z
is_some-zone_hazard none = refl
is_some-zone_hazard (some z) = refl

zone_sensor-backfill : (env : Environment) (z : Option RiskZone) → zone_sensor env true z ≡ none
zone_sensor-backfill env none = refl
zone_sensor-backfill env (some z) = refl

and-right : (a b : Bool) → (a && b) ≡ true → b ≡ true
and-right true b h = h
and-right false b h = cc

when-some :
    (a b : Bool) (o : Option SmoulderingEvidence)
    → is_some (if a && b then o else none) ≡ true
    → (a ≡ true) × (b ≡ true) × (is_some o ≡ true) × ((if a && b then o else none) ≡ o)
when-some true true o h = (refl, refl, h, refl)
when-some true false o h = cc
when-some false b o h = cc

module _ (env : Environment) (report : DetectionReport) where
  verdict-info :
      (s : Store) → is_info (verdict_in env report s).level ≡ not (is_some (zone_of env report))
  unfolding verdict_in
  verdict-info s = decide-info env.to_number _ ∙ ap not (is_some-zone_hazard (zone_of env report))

  conclude-All :
      (fails : Stage → Bool) (id : ℕ) (d : Decision) (evidence : Option SmoulderingEvidence)
      (s : Store)
      → is_info d.level ≡ not (is_some (zone_of env report))
      → All IsAlert s.published
      → All IsAlert (conclude env report fails id d evidence s).1.published
  unfolding conclude insert_event publish
  conclude-All fails id d evidence s i h = ground arith

  evaluate_new-All :
      (fails : Stage → Bool) (id : ℕ) (s : Store)
      → All IsAlert s.published
      → All IsAlert (evaluate_new env report fails id s).1.published
  unfolding evaluate_new
  evaluate_new-All fails id s h = ground (
    arith,
    conclude-All fails id (verdict_in env report s) (evidence_in env report s) s (verdict-info s) h,
  )

  evaluate_inserted-All :
      (fails : Stage → Bool) (s : Store) (o : Option (ℕ × Store))
      → insert_anomaly report.detection (conditions_in report.weather) s ≡ o
      → All IsAlert s.published
      → All IsAlert (evaluate_inserted env report fails s o).1.published
  evaluate_inserted-All fails s none e h = h
  evaluate_inserted-All fails s (some (id, s')) e h =
      evaluate_new-All fails id s'
        (rw (insert_anomaly_new report.detection (conditions_in report.weather) s s' id e).2 h)

  -- Whatever fails, an evaluation adds only detections inside a zone and above INFO to the bus.
  pub evaluate-IsAlert :
      (fails : Stage → Bool) (s : Store)
      → All IsAlert s.published
      → All IsAlert (evaluate env report fails s).1.published
  unfolding evaluate
  evaluate-IsAlert fails s h = ground (arith, evaluate_inserted-All fails s _ refl h)

  conclude-IsMatched :
      (id : ℕ) (d : Decision) (evidence : Option SmoulderingEvidence) (s : Store)
      → map (λ (a : Anomaly). a.id) s.anomalies ≡ id ∷ map (λ (e : Event). e.anomaly_id) s.events
      → IsMatched (conclude env report (λ _. false) id d evidence s).1
  unfolding conclude insert_event publish
  conclude-IsMatched id d evidence s h = ground arith

  evaluate_inserted-IsMatched :
      (s : Store) (o : Option (ℕ × Store))
      → insert_anomaly report.detection (conditions_in report.weather) s ≡ o
      → IsMatched s
      → IsMatched (evaluate_inserted env report (λ _. false) s o).1
  unfolding evaluate_new
  evaluate_inserted-IsMatched s none e h = h
  evaluate_inserted-IsMatched s (some (id, s')) e h =
      let (same, events, published, ids) =
        insert_anomaly_new report.detection (conditions_in report.weather) s s' id e in
      ground (
        arith,
        conclude-IsMatched id (verdict_in env report s') (evidence_in env report s') s'
            (ids ∙ ap (◌∷◌ id) (sym h ∙ ap (map (λ (e : Event). e.anomaly_id)) (sym events))),
      )

  -- Where no call fails, an evaluation keeps the verdicts of the tables matched with the anomalies:
  -- exactly one each, in the order of arrival.
  pub evaluate-IsMatched :
      (s : Store) → IsMatched s → IsMatched (evaluate env report (λ _. false) s).1
  unfolding evaluate
  evaluate-IsMatched s h = ground (arith, evaluate_inserted-IsMatched s _ refl h)

  conclude-backfill :
      (fails : Stage → Bool) (id : ℕ) (d : Decision) (evidence : Option SmoulderingEvidence)
      (s : Store)
      → backfilled env report ≡ true
      → (conclude env report fails id d evidence s).1.published ≡ s.published
  unfolding conclude insert_event publish
  conclude-backfill fails id d evidence s b = ground arith

  evaluate_inserted-backfill :
      (fails : Stage → Bool) (s : Store) (o : Option (ℕ × Store))
      → insert_anomaly report.detection (conditions_in report.weather) s ≡ o
      → backfilled env report ≡ true
      → (evaluate_inserted env report fails s o).1.published ≡ s.published
  unfolding evaluate_new
  evaluate_inserted-backfill fails s none e b = refl
  evaluate_inserted-backfill fails s (some (id, s')) e b = ground (
    arith,
    conclude-backfill fails id (verdict_in env report s') (evidence_in env report s') s' b,
    (insert_anomaly_new report.detection (conditions_in report.weather) s s' id e).2,
  )

  -- A report replayed from the archive broadcasts nothing.
  pub evaluate-backfill :
      (fails : Stage → Bool) (s : Store)
      → backfilled env report ≡ true
      → (evaluate env report fails s).1.published ≡ s.published
  unfolding evaluate
  evaluate-backfill fails s b = ground (arith, evaluate_inserted-backfill fails s _ refl b)

  -- The verdict on a report from the archive does not depend on what the sensors measure today.
  pub verdict_in-backfill :
      (rows : List LocalConditions) (s : Store)
      → backfilled env report ≡ true
      → verdict_in (record env { sensor_rows = rows }) report s ≡ verdict_in env report s
  unfolding verdict_in
  verdict_in-backfill rows s b = simp (b, zone_sensor-backfill)

  evidence_in-cases :
      (s : Store)
      → is_some (evidence_in env report s) ≡ true
      → let found = detect_smouldering env report.detection.geom s.anomalies in
        (is_some (zone_of env report) ≡ true)
        × (is_weak report.detection.frp_mw ≡ true)
        × (is_some found ≡ true)
        × (evidence_in env report s ≡ found)
  unfolding evidence_in
  evidence_in-cases s h = when-some (is_some (zone_of env report)) _ _ h

  -- CRITICAL_SMOULDERING is said only of a detection inside a zone with at most 5 MW, with two
  -- detections on record that were acquired at different times, each of them within the radius, not
  -- older than 72 hours and with at most 5 MW; one without a power counts as 0 MW.
  pub verdict_in-smouldering :
      (s : Store)
      → is_smouldering (verdict_in env report s).level ≡ true
      → (is_some (zone_of env report) ≡ true)
        × IsFaint report.detection.frp_mw
        × HasTwoPasses env report.detection.geom s.anomalies
  unfolding verdict_in
  verdict_in-smouldering s h =
      let both = sym (decide-smouldering env.to_number _) ∙ h in
      let (inside, weak, found, same) =
        evidence_in-cases s (and-right (is_some (zone_hazard (zone_of env report))) _ both) in
      (inside, weak, detect_smouldering-two env report.detection.geom s.anomalies found)
