-- ===== src/Ingestion/Cycle/Repeated.antt =====
-- What a cycle does to the queue, on every branch.
use open_fire_watch.Base.{
  ℕ, ◌≡◌, refl, ap, sym, ◌∙◌, true, List, [], ◌∷◌, map, length, All, ◌==◌, inl, inr, Bool-cases,
}
use open_fire_watch.Base.Text.{Text}
use open_fire_watch.Base.Tried.{Tried, ok, thrown}
use open_fire_watch.Base.Int.{ℤ}
use open_fire_watch.Store.{Detection}
use open_fire_watch.Evaluation.Report.{DetectionReport, report_is_valid}
use open_fire_watch.Ingestion.Queue.{
  Job, job_for, add_bulk, add_bulk-holds, add_bulk-held, add_bulk-All,
}
use open_fire_watch.Ingestion.Cycle.{
  Environment, Bus, MonitoringArea, StationWeather, CycleError, SourceOutcome, Snapshot, poll,
  failures, live_report, valid_reports, publish_conditions, publish_source_outcomes, offer,
  correlate, after_poll, with_soil, with_station, with_area, ingest_detections,
}
use open_fire_watch.Ingestion.Cycle.Offered.{valid_reports-All}

abbrev pub IsValidJob : Job → Type 0
IsValidJob j = report_is_valid j.data_ ≡ true

-- A step offers valid jobs that do not depend on the state, and changes the queue in no other way.
abbrev Offers : (Bus → Tried CycleError ℕ × Bus) → Type 0
Offers f = (js : List Job) × All IsValidJob js × ((b : Bus) → (f b).1.jobs ≡ add_bulk js b.jobs)

jobs_for-All :
    (rs : List DetectionReport)
    → All (λ r. report_is_valid r ≡ true) rs
    → All IsValidJob (map (job_for 0) rs)
jobs_for-All [] h = tt
jobs_for-All (r ∷ rs) h = (h.0, jobs_for-All rs h.1)

module _ (env : Environment) where
  offer-Offers :
      (rs : List DetectionReport) → All (λ r. report_is_valid r ≡ true) rs → Offers (offer env rs)
  unfolding add_bulk
  offer-Offers rs h = elim (Bool-cases env.queue_fails) [
    | inl e ↦ ([], tt, λ b. rw e refl)
    | inr e ↦ (map (job_for 0) rs, jobs_for-All rs h, λ b. rw e refl)
  ]

  correlate-Offers :
      (station : StationWeather) (soil : ℤ) (rows : List Detection)
      → Offers (correlate env station soil rows)
  unfolding add_bulk
  correlate-Offers station soil [] = ([], tt, λ b. refl)
  correlate-Offers station soil (d ∷ rows) =
      let rs = valid_reports (live_report station soil) (d ∷ rows) in
      let (js, valid, e) =
        offer-Offers rs (valid_reports-All (live_report station soil) (d ∷ rows)) in
      (js, valid, e)

  published_jobs :
      (os : List SourceOutcome) (b : Bus) → (publish_source_outcomes env os b).jobs ≡ b.jobs
  published_jobs os b = elim (Bool-cases env.sources_fail) [ inl e ↦ rw e refl | inr e ↦ rw e refl ]

  conditions_jobs :
      (snapshot : Snapshot) (b : Bus) → (publish_conditions env snapshot b).jobs ≡ b.jobs
  conditions_jobs snapshot b = elim (Bool-cases env.conditions_fail) [
    | inl e ↦ rw e refl
    | inr e ↦ rw e refl
  ]

  after_poll-Offers :
      (station : StationWeather) (soil : ℤ) (rows : List Detection) (os : List SourceOutcome)
      → Offers (after_poll env station soil (rows, os))
  unfolding add_bulk failures
  after_poll-Offers station soil rows os =
      elim (Bool-cases (failures os == length env.poll_sources)) [
        | inl e ↦ ([], tt, λ b. rw e (published_jobs os b))
        | inr e ↦
            let (js, valid, f) = correlate-Offers station soil rows in
            (
              js,
              valid,
              λ b.
                  rw e
                    (f (publish_source_outcomes env os b) ∙ ap (add_bulk js) (published_jobs os b)),
            )
      ]

  with_soil-Offers :
      (area : MonitoringArea) (station : StationWeather) (t : Tried Text ℤ)
      → Offers (with_soil env area station t)
  unfolding add_bulk
  with_soil-Offers area station (thrown e) = ([], tt, λ b. refl)
  with_soil-Offers area station (ok soil) =
      let (rows, os) = poll env area.bbox env.poll_sources in
      let snapshot : Snapshot = record {
        station = station;
        soil_moisture_pct = soil;
        area = area;
        cycle_at = env.now;
      } in
      let (js, valid, f) = after_poll-Offers station soil rows os in
      (
        js,
        valid,
        λ b. f (publish_conditions env snapshot b) ∙ ap (add_bulk js) (conditions_jobs snapshot b),
      )

  with_station-Offers :
      (area : MonitoringArea) (t : Tried Text StationWeather) → Offers (with_station env area t)
  unfolding add_bulk
  with_station-Offers area (thrown e) = ([], tt, λ b. refl)
  with_station-Offers area (ok station) =
      with_soil-Offers area station (env.soil_moisture area.centroid)

  with_area-Offers : (t : Tried Text MonitoringArea) → Offers (with_area env t)
  unfolding add_bulk
  with_area-Offers (thrown e) = ([], tt, λ b. refl)
  with_area-Offers (ok area) = with_station-Offers area env.station

  -- However a cycle ends, it leaves a queue of reports that are all valid, if it found one.
  pub ingest_detections-AllValid :
      (b : Bus) → All IsValidJob b.jobs → All IsValidJob (ingest_detections env b).1.jobs
  unfolding ingest_detections
  ingest_detections-AllValid b h =
      let (js, valid, f) = with_area-Offers env.area in
      rw (f b) (add_bulk-All IsValidJob js b.jobs valid h)

  -- A cycle that repeats another, with the same answers from everyone, adds nothing to the queue.
  pub ingest_detections-repeated :
      (b : Bus)
      → (ingest_detections env (ingest_detections env b).1).1.jobs
        ≡ (ingest_detections env b).1.jobs
  unfolding ingest_detections
  ingest_detections-repeated b =
      let (js, valid, f) = with_area-Offers env.area in
      f (with_area env env.area b).1
      ∙ ap (add_bulk js) (f b)
      ∙ add_bulk-held js (add_bulk js b.jobs) (add_bulk-holds js b.jobs)
      ∙ sym (f b)
