-- ===== src/Status/Service/Page.antt =====
-- What the status page promises: when it says that all is well, and what it does without Redis.
use open_fire_watch.Base.{
  ℕ, ◌+◌, ◌*◌, ◌≡◌, ◌↔◌, refl, String, Bool, true, false, ◌&&◌, not, Option, none, some, List, [],
  ◌∷◌, map, any, leb, ◌==◌, str_eq, arith, Bool-cases, inl, inr,
}
use open_fire_watch.Base.Tried.{ok, thrown}
use open_fire_watch.Store.{Anomaly}
use open_fire_watch.Sensors.Registry.{Registry}
use open_fire_watch.Status.{is_fresh, Source, all_ok, blind, classify, feed_at, overall_state}
use open_fire_watch.Status.Ranking.{overall_state-ok}
use open_fire_watch.Status.Documents.{SourceOutcome, SystemStatus}
use open_fire_watch.Status.Service.{
  Environment, conditions, forecast, fire_danger, source_outcomes, field_of, stale_after_cycle,
  stale_after_forecast, detection_counts, sensor_counts, dead_letter_count, conditions_key,
  ingest_sources_key, page_of, input_of, source_status, feed, current,
}

-- A time stands there that the language can read, and it is at most so many seconds ago, to the
-- nearest second.
abbrev is_past : ℕ → ℕ → Option ℕ → Bool
is_past seconds now none = false
is_past seconds now (some t) = leb (now + 1) (t + seconds * 1000 + 500)

abbrev pub is_recent : (String → Option ℕ) → ℕ → ℕ → Option String → Bool
is_recent date_parse seconds now none = false
is_recent date_parse seconds now (some at) =
    not (str_eq at "") && is_past seconds now (date_parse at)

feed_at_lem :
    (at : String) (seconds now : ℕ) (t : Option ℕ)
    → is_fresh (feed_at at seconds now t).freshness ≡ is_past seconds now t
feed_at_lem at seconds now none = refl
feed_at_lem at seconds now (some t) = ground arith

classify-is_recent :
    (date_parse : String → Option ℕ) (at : Option String) (seconds now : ℕ)
    → is_fresh (classify date_parse at seconds now).freshness ≡ is_recent date_parse seconds now at
unfolding classify
classify-is_recent date_parse none seconds now = refl
classify-is_recent date_parse (some at) seconds now = elim (Bool-cases (str_eq at "")) [
  | inl e ↦ rw e
  | inr e ↦ rw e (feed_at_lem at seconds now (date_parse at))
]

any-failing :
    (xs : List SourceOutcome)
    → any
        (λ (s : Source). not s.is_ok)
        (map (λ s. record { is_ok = s.is_ok }) (map source_status xs))
      ≡ any (λ (s : SourceOutcome). not s.is_ok) xs
any-failing [] = refl
any-failing (x ∷ xs) = rw (any-failing xs)

current-page :
    (env : Environment) (rows : List Anomaly) (g : Registry)
    → env.anomalies ≡ ok rows
    → env.registry ≡ ok g
    → current env
      ≡ ok (
          page_of env
            (detection_counts env.database_now rows)
            (sensor_counts env.database_now env.max_age_minutes g))
unfolding current
current-page env rows g ha hg = cc (ha, hg)

-- Each of the four feeds delivered on time, no source failed and nothing lies in the dead letters.
abbrev pub is_well : Environment → Bool
is_well env =
    is_recent env.date_parse stale_after_cycle env.now (field_of (λ d. d.cycle_at) (conditions env))
    && not (any (λ (s : SourceOutcome). not s.is_ok) (source_outcomes env))
    && is_recent env.date_parse stale_after_cycle env.now
        (field_of (λ d. d.observed_at) (conditions env))
    && is_recent env.date_parse stale_after_forecast env.now
        (field_of (λ d. d.generated_at) (forecast env))
    && is_recent env.date_parse stale_after_forecast env.now
        (field_of (λ d. d.generated_at) (fire_danger env))
    && (dead_letter_count env.job_counts == 0)

input_of-all_ok :
    (env : Environment)
    → (overall_state (
          input_of env
            (feed env (field_of (λ d. d.cycle_at) (conditions env)) stale_after_cycle)
            (feed env (field_of (λ d. d.observed_at) (conditions env)) stale_after_cycle))
        ≡ all_ok)
      ↔ (is_well env ≡ true)
input_of-all_ok env =
    let h = overall_state-ok (
      input_of env (feed env (field_of (λ d. d.cycle_at) (conditions env)) stale_after_cycle)
        (feed env (field_of (λ d. d.observed_at) (conditions env)) stale_after_cycle)) in
    simp (any-failing (source_outcomes env), classify-is_recent) at h

-- When the database answers, there is a status page, and it says that all is well exactly when the
-- last cycle and the weather are at most 20 minutes old and the forecast and the fire danger at
-- most three hours, to the nearest second, no source that the last cycle reported failed, and the
-- dead letter queue counts nothing, as one that cannot be read does.
pub current-is_well :
    (env : Environment) (rows : List Anomaly) (g : Registry)
    → env.anomalies ≡ ok rows
    → env.registry ≡ ok g
    → (page : SystemStatus) × (current env ≡ ok page)
      × ((page.overall ≡ all_ok) ↔ (is_well env ≡ true))
current-is_well env rows g ha hg = (_, current-page env rows g ha hg, input_of-all_ok env)

-- Without Redis the page is still there if the database answers: it says that the system is blind,
-- and it counts the detections and the sensors.
pub current-blind :
    (env : Environment) (rows : List Anomaly) (g : Registry)
    → env.anomalies ≡ ok rows
    → env.registry ≡ ok g
    → ((key : String) → (e : String) × (env.get key ≡ thrown e))
    → (page : SystemStatus) × (current env ≡ ok page)
      × (page.overall ≡ blind)
      × (page.sources ≡ [])
      × (page.detections ≡ detection_counts env.database_now rows)
      × (page.sensors ≡ sensor_counts env.database_now env.max_age_minutes g)
unfolding overall_state classify
current-blind env rows g ha hg down = (
  _,
  current-page env rows g ha hg,
  rw ((down conditions_key).1),
  rw ((down ingest_sources_key).1),
  refl,
  refl,
)
