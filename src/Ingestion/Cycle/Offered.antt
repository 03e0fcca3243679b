-- ===== src/Ingestion/Cycle/Offered.antt =====
-- Which reports a cycle offers, and that it offers none twice.
use open_fire_watch.Base.{
  ℕ, ◌<◌, ◌≡◌, refl, ap, subst, ◌∙◌, String, true, false, List, [], ◌∷◌, map, length, All, Any,
  Any-append_left, Any-append_right, arith, ◌==◌, inl, inr, Bool-cases,
}
use open_fire_watch.Base.Text.{Text}
use open_fire_watch.Base.Tried.{ok}
use open_fire_watch.Base.Int.{ℤ}
use open_fire_watch.Store.{Detection}
use open_fire_watch.Evaluation.Report.{DetectionReport, report_is_valid}
use open_fire_watch.Ingestion.Queue.{Job, job_id, job_for, holds, add_bulk, add_bulk-holds}
use open_fire_watch.Ingestion.Cycle.{
  Environment, Bus, MonitoringArea, StationWeather, SourceOutcome, Snapshot, polled, poll, failures,
  live_report, valid_reports, on_valid, publish_conditions, publish_source_outcomes, offer,
  correlate, after_poll, ingest_detections,
}
use open_fire_watch.Ingestion.Cycle.Outage.{Answers, failures-poll_answered, ingest_detections-poll}

-- One of the rows that a source answered with.
abbrev pub Seen : Environment → Text → Detection → String → Type 0
Seen env bbox raw s =
    (rows : List Detection) × (env.fetch s bbox ≡ ok rows) × Any (λ d. d ≡ raw) rows

poll-Seen :
    (env : Environment) (bbox : Text) (raw : Detection) (ss : List String)
    → Any (Seen env bbox raw) ss
    → Any (λ d. d ≡ raw) (poll env bbox ss).0
unfolding poll
poll-Seen env bbox raw [] h = elim h [ ]
poll-Seen env bbox raw (s ∷ ss) (inl (rows, q, h)) =
    rw (q, polled) (Any-append_left (λ d. d ≡ raw) rows (poll env bbox ss).0 h)
poll-Seen env bbox raw (s ∷ ss) (inr h) =
    Any-append_right (λ d. d ≡ raw) (polled env s (env.fetch s bbox)).0 (poll env bbox ss).0
      (poll-Seen env bbox raw ss h)

-- The valid rows become reports, and only valid rows do.
pub valid_reports-Any :
    (report : Detection → DetectionReport) (raw : Detection) (rows : List Detection)
    → report_is_valid (report raw) ≡ true
    → Any (λ d. d ≡ raw) rows
    → Any (λ r. r ≡ report raw) (valid_reports report rows)
unfolding valid_reports
valid_reports-Any report raw [] v h = elim h [ ]
valid_reports-Any report raw (d ∷ rows) v (inl e) =
    rw (ap (λ x. report_is_valid (report x)) e ∙ v, on_valid) (inl (ap report e))
valid_reports-Any report raw (d ∷ rows) v (inr h) = elim (Bool-cases (report_is_valid (report d))) [
  | inl e ↦ rw (e, on_valid) (inr (valid_reports-Any report raw rows v h))
  | inr e ↦ rw (e, on_valid) (valid_reports-Any report raw rows v h)
]

pub valid_reports-All :
    (report : Detection → DetectionReport) (rows : List Detection)
    → All (λ r. report_is_valid r ≡ true) (valid_reports report rows)
unfolding valid_reports
valid_reports-All report [] = tt
valid_reports-All report (d ∷ rows) = elim (Bool-cases (report_is_valid (report d))) [
  | inl e ↦ rw (e, on_valid) (e, valid_reports-All report rows)
  | inr e ↦ rw (e, on_valid) (valid_reports-All report rows)
]

module _ (env : Environment) (area : MonitoringArea) (station : StationWeather) (soil : ℤ)
    (a : env.area ≡ ok area) (s : env.station ≡ ok station)
    (m : env.soil_moisture area.centroid ≡ ok soil) where
  chosen :
      {r0 : DetectionReport} (P : Job → Type 0) (rs : List DetectionReport)
      → Any (λ r. r ≡ r0) rs
      → All P (map (job_for 0) rs)
      → P (job_for 0 r0)
  chosen P [] h k = elim h [ ]
  chosen P (r ∷ rs) (inl e) k = subst (λ x. P (job_for 0 x)) e k.0
  chosen P (r ∷ rs) (inr h) k = chosen P rs h k.1

  offer-holds :
      (raw : Detection) (rs : List DetectionReport) (b : Bus)
      → env.queue_fails ≡ false
      → Any (λ r. r ≡ live_report station soil raw) rs
      → ((offer env rs b).0 ≡ ok (length rs)) × (holds (job_id raw) (offer env rs b).1.jobs ≡ true)
  offer-holds raw rs b q h = rw q (
    refl,
    chosen (λ j. holds j.id (add_bulk (map (job_for 0) rs) b.jobs) ≡ true) rs h
        (add_bulk-holds (map (job_for 0) rs) b.jobs),
  )

  correlate-holds :
      (raw : Detection) (rows : List Detection) (b : Bus)
      → env.queue_fails ≡ false
      → Any (λ d. d ≡ raw) rows
      → report_is_valid (live_report station soil raw) ≡ true
      → (n : ℕ) × ((correlate env station soil rows b).0 ≡ ok n)
        × (holds (job_id raw) (correlate env station soil rows b).1.jobs ≡ true)
  correlate-holds raw [] b q h v = elim h [ ]
  correlate-holds raw (d ∷ rows) b q h v =
      let reports = valid_reports (live_report station soil) (d ∷ rows) in
      let (e, held) =
        offer-holds raw reports b q
          (valid_reports-Any (live_report station soil) raw (d ∷ rows) v h) in
      (length reports, e, held)

  after_poll-correlate :
      (rows : List Detection) (os : List SourceOutcome) (b : Bus)
      → failures os < length env.poll_sources
      → after_poll env station soil (rows, os) b
        ≡ correlate env station soil rows (publish_source_outcomes env os b)
  unfolding failures
  after_poll-correlate rows os b lt = elim (Bool-cases (failures os == length env.poll_sources)) [
    | inl e ↦ ground (arith, lt)
    | inr e ↦ rw e refl
  ]

  Seen-Answers :
      (raw : Detection) (ss : List String)
      → Any (Seen env area.bbox raw) ss
      → Any (Answers env area.bbox) ss
  Seen-Answers raw [] h = elim h [ ]
  Seen-Answers raw (x ∷ ss) (inl (rows, q, h)) = inl (rows, q)
  Seen-Answers raw (x ∷ ss) (inr h) = inr (Seen-Answers raw ss h)

  -- When the area, the weather and the queue are there, a cycle returns, and the queue then holds a job
  -- for every valid row of every source that answered, whichever other sources failed.
  pub ingest_detections-offers :
      (raw : Detection) (b : Bus)
      → env.queue_fails ≡ false
      → Any (Seen env area.bbox raw) env.poll_sources
      → report_is_valid (live_report station soil raw) ≡ true
      → (n : ℕ) × ((ingest_detections env b).0 ≡ ok n)
        × (holds (job_id raw) (ingest_detections env b).1.jobs ≡ true)
  ingest_detections-offers raw b q h v =
      let (rows, os) = poll env area.bbox env.poll_sources in
      let snapshot : Snapshot = record {
        station = station;
        soil_moisture_pct = soil;
        area = area;
        cycle_at = env.now;
      } in
      let b' = publish_conditions env snapshot b in
      let step =
        ingest_detections-poll env area station soil b a s m
        ∙ after_poll-correlate rows os b' (
            failures-poll_answered env area.bbox env.poll_sources
              (Seen-Answers raw env.poll_sources h)) in
      let (n, e, held) =
        correlate-holds raw rows (publish_source_outcomes env os b') q
          (poll-Seen env area.bbox raw env.poll_sources h) v in
      (n, rw step e, rw step held)
