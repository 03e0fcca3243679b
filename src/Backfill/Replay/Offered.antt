-- ===== src/Backfill/Replay/Offered.antt =====
-- The reports that a replay puts on the queue.
use open_fire_watch.Base.{
  ◌≢◌, ◌⊎◌, ℕ, ◌+◌, ◌-◌, leb, Bool-cases, inl, inr, ◌≡◌, refl, Bool, true, false, Option, none,
  some, List, [], ◌∷◌, map, length, All, Any, subst, All-append,
}
use open_fire_watch.Base.Text.{Text}
use open_fire_watch.Base.Tried.{Tried, ok, thrown}
use open_fire_watch.Store.{Detection, Store}
use open_fire_watch.Evaluation.Report.{Weather, backfill, DetectionReport, report_is_valid}
use open_fire_watch.Evaluation.Service.{evaluate}
use open_fire_watch.Evaluation.Service.Bus.{evaluate-backfill}
use open_fire_watch.Evaluation.Service
use open_fire_watch.Ingestion.Queue.{Job, job_for, add_bulk-All}
use open_fire_watch.Ingestion.Cycle.{valid_reports}
use open_fire_watch.Backfill.Plan.{BackfillRequest}
use open_fire_watch.Backfill.Runs.{ReplayError}
use open_fire_watch.Backfill.Replay.{
  caught, finished, attempted, begun, running_stage, done_stage, failed_stage, Environment,
  ZonePoint, ensure_zone, ensure_zones, paired, pair_all, enqueue, publish_backfilled, replay, plan,
  body, conclude, backfill_satellite, weather_at, backfill_priority, store_archive, store_stage,
  count_weather_days,
}
use open_fire_watch.Backfill.Actions.{World, Action}
use open_fire_watch.Backfill.Weather.{WeatherHour}
use open_fire_watch.Backfill.Replay.Triples.{
  Triple, After, bind_triple, if_fails_triple, or_raise_triple, pure_triple, gets_triple,
  modify_triple, weaken,
}

-- A valid report; with the priority of a replay, one from the archive.
abbrev pub IsSound : Job → Type 0
IsSound j =
    (report_is_valid j.data_ ≡ true) × ((j.priority ≢ 10) ⊎ (j.data_.ingestion ≡ some backfill))

abbrev pub AllSound : World → Type 0
AllSound w = All IsSound w.jobs

abbrev IsArchived : DetectionReport → Type 0
IsArchived r = (report_is_valid r ≡ true) × (r.ingestion ≡ some backfill)

abbrev Keeps : {A : Type 0} → Action A → Type 0
Keeps m = Triple AllSound m (λ a. AllSound) AllSound

module _ (env : Environment) where
  paired-IsArchived : (raw : Detection) (o : Option Weather) → All IsArchived (paired env raw o)
  unfolding valid_reports
  paired-IsArchived raw none = tt
  paired-IsArchived raw (some w) =
      one (report_is_valid (record { detection = raw; weather = w; ingestion = some backfill }))
        refl
    where
      one :
          (b : Bool)
          → report_is_valid (record { detection = raw; weather = w; ingestion = some backfill }) ≡ b
          → All IsArchived (paired env raw (some w))
      one true e = rw e ((e, refl), tt)
      one false e = rw e tt

  pair_all-IsArchived :
      (ds : List Detection)
      → Triple AllSound (pair_all env ds) (λ rs w. All IsArchived rs × AllSound w) AllSound
  unfolding pair_all
  pair_all-IsArchived [] = pure_triple [] (λ w p. (tt, p))
  pair_all-IsArchived (raw ∷ rest) =
      bind_triple (λ u. AllSound) (if_fails_triple _)
        (λ u.
          bind_triple (λ history. AllSound) (gets_triple _)
            (λ history.
              bind_triple (λ rs w. All IsArchived rs × AllSound w) (pair_all-IsArchived rest)
                (λ rs. pure_triple _ (λ w q. (
                  All-append IsArchived _ rs
                      (paired-IsArchived raw (weather_at env raw.geom raw.acquired_at history)) q.0,
                  q.1,
                )))))

  jobs-IsSound :
      (rs : List DetectionReport)
      → All IsArchived rs
      → All IsSound (map (job_for (backfill_priority env)) rs)
  jobs-IsSound [] h = tt
  jobs-IsSound (r ∷ rs) h = ((h.0.0, inr h.0.1), jobs-IsSound rs h.1)

  enqueue-AllSound :
      (rs : List DetectionReport)
      → Triple (λ w. All IsArchived rs × AllSound w) (enqueue env rs) (λ n. AllSound) AllSound
  enqueue-AllSound [] = pure_triple 0 (λ w p. p.1)
  enqueue-AllSound (r ∷ rs) =
      weaken (λ w p. p.1)
        (bind_triple (λ u w. All IsArchived (r ∷ rs) × AllSound w) (if_fails_triple _)
          (λ u.
            bind_triple (λ v. AllSound)
              (modify_triple _ (λ w p.
                add_bulk-All IsSound (map (job_for (backfill_priority env)) (r ∷ rs)) w.jobs
                  (jobs-IsSound (r ∷ rs) p.0) p.1))
              (λ v. pure_triple _ (λ w p. p))))

  publish-AllSound : (ds : List Detection) → Keeps (publish_backfilled env ds)
  unfolding publish_backfilled
  publish-AllSound ds =
      bind_triple (λ rs w. All IsArchived rs × AllSound w) (pair_all-IsArchived ds)
        (λ rs. enqueue-AllSound rs)

  replay-AllSound :
      (rs : List BackfillRequest) (finished found queued : ℕ)
      → Keeps (replay env finished found queued rs)
  unfolding replay
  replay-AllSound [] finished found queued = pure_triple tt (λ w p. p)
  replay-AllSound (r ∷ rs) finished found queued =
      bind_triple (λ ds. AllSound) (or_raise_triple _)
        (λ ds.
          bind_triple (λ n. AllSound) (publish-AllSound ds)
            (λ n.
              bind_triple (λ u. AllSound) (if_fails_triple _)
                (λ u.
                  bind_triple (λ v. AllSound) (modify_triple _ (λ w p. p))
                    (λ v. replay-AllSound rs (finished + 1) (found + length ds) (queued + n)))))

  ensure_zone_jobs :
      (from to : ℕ) (z : ZonePoint) (w : World) → (ensure_zone env from to z w).jobs ≡ w.jobs
  ensure_zone_jobs from to z w =
      elim (Bool-cases (leb (to - from + 1) (count_weather_days env z.id from to w.history))) [
        | inl e ↦ rw e refl
        | inr e ↦ rw e (stored (env.fails (store_stage z.id)) (env.archive z))
      ]
    where
      stored :
          (o : Option Text) (t : Tried Text (List WeatherHour))
          → (store_archive env z o t w).jobs ≡ w.jobs
      stored none (ok hours) = refl
      stored none (thrown e) = refl
      stored (some m) t = refl

  ensure_zones-AllSound : (from to : ℕ) (zs : List ZonePoint) → Keeps (ensure_zones env from to zs)
  unfolding ensure_zones
  ensure_zones-AllSound from to [] = pure_triple tt (λ w p. p)
  ensure_zones-AllSound from to (z ∷ zs) =
      bind_triple (λ u. AllSound) (if_fails_triple _)
        (λ u.
          bind_triple (λ v. AllSound) (modify_triple _ (λ w p. rw (ensure_zone_jobs from to z w) p))
            (λ v. ensure_zones-AllSound from to zs))

  plan-AllSound : (from to : ℕ) → Keeps (plan env from to)
  unfolding plan
  plan-AllSound from to =
      bind_triple (λ a. AllSound) (or_raise_triple _)
        (λ a.
          bind_triple (λ rs. AllSound) (or_raise_triple _)
            (λ rs.
              bind_triple (λ u. AllSound) (if_fails_triple _)
                (λ u.
                  bind_triple (λ v. AllSound) (modify_triple _ (λ w p. p))
                    (λ v. pure_triple rs (λ w p. p)))))

  body-AllSound : (from to : ℕ) → Keeps (body env from to)
  unfolding body
  body-AllSound from to =
      bind_triple (λ rs. AllSound) (plan-AllSound from to)
        (λ rs.
          bind_triple (λ u. AllSound) (if_fails_triple _)
            (λ u.
              bind_triple (λ v. AllSound) (ensure_zones-AllSound from to env.zones)
                (λ v.
                  bind_triple (λ x. AllSound) (if_fails_triple _) (λ x. replay-AllSound rs 0 0 0))))

  caught-AllSound :
      (o : Option Text) (e : ReplayError) (w : World) → AllSound w → AllSound (caught env o e w).1
  caught-AllSound none e w h = h
  caught-AllSound (some message) e w h = h

  finished-AllSound : (o : Option Text) (w : World) → AllSound w → AllSound (finished env o w).1
  finished-AllSound none w h = h
  finished-AllSound (some message) w h = caught-AllSound (env.fails failed_stage) _ w h

  conclude-AllSound :
      (t : Tried ReplayError Unit) (w : World)
      → After (λ u. AllSound) AllSound (t, w)
      → AllSound (conclude env (t, w)).1
  conclude-AllSound (ok u) w h = finished-AllSound (env.fails done_stage) w h
  conclude-AllSound (thrown e) w h = caught-AllSound (env.fails failed_stage) e w h

  attempted-AllSound : (o : Option Text) (w : World) → AllSound w → AllSound (attempted env o w).1
  attempted-AllSound (some message) w h = h
  attempted-AllSound none w h =
      let ended = body env w.run.from w.run.to (begun env w) in
      conclude-AllSound ended.0 ended.1 ((body-AllSound w.run.from w.run.to).after (begun env w) h)

  -- However a replay ends, the queue then holds valid reports only, and under the priority of a replay
  -- only reports from the archive, if it was so before.
  pub backfill_satellite-AllSound : (w : World) → AllSound w → AllSound (backfill_satellite env w).1
  unfolding backfill_satellite
  backfill_satellite-AllSound w h = attempted-AllSound (env.fails running_stage) w h

-- No report that a replay queues ever raises an alarm: the evaluation of a job that the queue holds
-- then, under the priority of a replay, broadcasts nothing, whatever the zones, the sensors and the
-- tables say, if the jobs that the queue held before were valid reports, and under that priority
-- reports from the archive.
pub backfill_satellite-silent :
    (env : Environment) (w : World)
    → AllSound w
    → (j : Job) → Any (λ k. k ≡ j) (backfill_satellite env w).1.jobs
    → j.priority ≡ 10
    → (there : Service.Environment) (fails : Service.Stage → Bool) (s : Store)
    → (evaluate there j.data_ fails s).1.published ≡ s.published
backfill_satellite-silent env w h j held p there fails s =
    let sound =
      among (backfill_satellite env w).1.jobs (backfill_satellite-AllSound env w h) held in
    elim sound.1 [
      | inl other ↦ absurd (other p)
      | inr e ↦ evaluate-backfill there j.data_ fails s (rw e refl)
    ]
  where
    among : (js : List Job) → All IsSound js → Any (λ k. k ≡ j) js → IsSound j
    among [] a q = elim q [ ]
    among (k ∷ js) a (inl e) = subst IsSound e a.0
    among (k ∷ js) a (inr q) = among js a.1 q
