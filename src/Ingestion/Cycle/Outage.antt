-- ===== src/Ingestion/Cycle/Outage.antt =====
-- When a cycle fails, and what it has published by then.
use open_fire_watch.Base.{
  ◌+◌, ◌*◌, ◌≤◌, ◌<◌, ◌≡◌, refl, ap, ◌∙◌, String, false, some, List, [], ◌∷◌, length, All, Any,
  arith, inl, inr,
}
use open_fire_watch.Base.Text.{Text}
use open_fire_watch.Base.Tried.{Tried, ok, thrown}
use open_fire_watch.Base.Int.{ℤ}
use open_fire_watch.Store.{Detection}
use open_fire_watch.Ingestion.Firms.{FirmsError}
use open_fire_watch.Ingestion.Cycle.{
  Environment, Bus, MonitoringArea, StationWeather, no_source_polled, SourceOutcome, polled, poll,
  failures, with_area, Snapshot, publish_conditions, publish_source_outcomes, with_station,
  with_soil, after_poll, ingest_detections,
}

abbrev pub Fails : Environment → Text → String → Type 0
Fails env bbox s = (e : FirmsError) × (env.fetch s bbox ≡ thrown e)

abbrev pub Answers : Environment → Text → String → Type 0
Answers env bbox s = (rows : List Detection) × (env.fetch s bbox ≡ ok rows)

pub failures-poll_failing :
    (env : Environment) (bbox : Text) (ss : List String)
    → All (Fails env bbox) ss
    → failures (poll env bbox ss).1 ≡ length ss
unfolding poll failures
failures-poll_failing env bbox [] h = refl
failures-poll_failing env bbox (s ∷ ss) ((e, q), h) =
    rw (q, polled) (omega (arith, failures-poll_failing env bbox ss h))

failures_cons :
    (env : Environment) (s : String) (t : Tried FirmsError (List Detection))
    (os : List SourceOutcome)
    → failures ((polled env s t).1 ∷ os) ≤ failures os + 1
unfolding failures
failures_cons env s (ok rows) os = omega arith
failures_cons env s (thrown e) os = omega arith

failures-poll_le :
    (env : Environment) (bbox : Text) (ss : List String) → failures (poll env bbox ss).1 ≤ length ss
unfolding poll failures
failures-poll_le env bbox [] = omega arith
failures-poll_le env bbox (s ∷ ss) = omega (
  arith,
  failures_cons env s (env.fetch s bbox) (poll env bbox ss).1,
  failures-poll_le env bbox ss,
)

pub failures-poll_answered :
    (env : Environment) (bbox : Text) (ss : List String)
    → Any (Answers env bbox) ss
    → failures (poll env bbox ss).1 < length ss
unfolding poll failures
failures-poll_answered env bbox [] h = elim h [ ]
failures-poll_answered env bbox (s ∷ ss) (inl (rows, q)) =
    rw (q, polled) (omega (arith, failures-poll_le env bbox ss))
failures-poll_answered env bbox (s ∷ ss) (inr h) = omega (
  arith,
  failures_cons env s (env.fetch s bbox) (poll env bbox ss).1,
  failures-poll_answered env bbox ss h,
)

-- A cycle that has its area and its weather is decided by what the sources answer.
pub ingest_detections-poll :
    (env : Environment) (area : MonitoringArea) (station : StationWeather) (soil : ℤ) (b : Bus)
    → env.area ≡ ok area
    → env.station ≡ ok station
    → env.soil_moisture area.centroid ≡ ok soil
    → ingest_detections env b
      ≡ after_poll env station soil (poll env area.bbox env.poll_sources) (
          publish_conditions env
            (record {
              station = station;
              soil_moisture_pct = soil;
              area = area;
              cycle_at = env.now;
            })
            b)
unfolding ingest_detections
ingest_detections-poll env area station soil b a s m =
    ap (λ t. with_area env t b) a
    ∙ ap (λ t. with_station env area t b) s
    ∙ ap (λ t. with_soil env area station t b) m

after_poll-outage :
    (env : Environment) (station : StationWeather) (soil : ℤ) (rows : List Detection)
    (os : List SourceOutcome) (b : Bus)
    → failures os ≡ length env.poll_sources
    → after_poll env station soil (rows, os) b
      ≡ (thrown (no_source_polled os), publish_source_outcomes env os b)
unfolding failures
after_poll-outage env station soil rows os b e = ground (arith, e)

published :
    (env : Environment) (os : List SourceOutcome) (snapshot : Snapshot) (b : Bus)
    → env.sources_fail ≡ false
    → ((publish_source_outcomes env os (publish_conditions env snapshot b)).sources
        ≡ some (os, env.now + env.poll_interval * 4))
      × ((publish_source_outcomes env os (publish_conditions env snapshot b)).jobs ≡ b.jobs)
published env os snapshot b f = ground (arith, f)

-- One outcome for each source, in their order, each a failure.
abbrev pub AllFailed : List String → List SourceOutcome → Type 0
AllFailed [] [] = Unit
AllFailed (s ∷ ss) (o ∷ os) = (o.source ≡ s) × (o.is_ok ≡ false) × AllFailed ss os
AllFailed _ _ = ⊥

poll-AllFailed :
    (env : Environment) (bbox : Text) (ss : List String)
    → All (Fails env bbox) ss
    → AllFailed ss (poll env bbox ss).1
unfolding poll
poll-AllFailed env bbox [] h = tt
poll-AllFailed env bbox (s ∷ ss) ((e, q), h) =
    rw (q, polled) (refl, refl, poll-AllFailed env bbox ss h)

-- A cycle that has its area and its weather, and to which no source answers, throws, and has published
-- before, if Redis takes it, one failure for each source; it offers no report.
pub ingest_detections-outage :
    (env : Environment) (area : MonitoringArea) (station : StationWeather) (soil : ℤ) (b : Bus)
    → env.area ≡ ok area
    → env.station ≡ ok station
    → env.soil_moisture area.centroid ≡ ok soil
    → env.sources_fail ≡ false
    → All (Fails env area.bbox) env.poll_sources
    → (outcomes : List SourceOutcome) × ((ingest_detections env b).0
        ≡ thrown (no_source_polled outcomes))
      × ((ingest_detections env b).1.sources ≡ some (outcomes, env.now + env.poll_interval * 4))
      × ((ingest_detections env b).1.jobs ≡ b.jobs)
      × AllFailed env.poll_sources outcomes
unfolding ingest_detections
ingest_detections-outage env area station soil b a s m f h =
    let (rows, os) = poll env area.bbox env.poll_sources in
    let snapshot : Snapshot = record {
      station = station;
      soil_moisture_pct = soil;
      area = area;
      cycle_at = env.now;
    } in
    let step =
      ingest_detections-poll env area station soil b a s m
      ∙ after_poll-outage env station soil rows os (publish_conditions env snapshot b)
          (failures-poll_failing env area.bbox env.poll_sources h) in
    (
      os,
      rw step refl,
      rw step (published env os snapshot b f).0,
      rw step (published env os snapshot b f).1,
      poll-AllFailed env area.bbox env.poll_sources h,
    )
