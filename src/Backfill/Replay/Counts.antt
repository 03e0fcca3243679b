-- ===== src/Backfill/Replay/Counts.antt =====
-- What the row of a run says once the replay is over.
use open_fire_watch.Base.{
  ℕ, ◌+◌, ◌-◌, ◌≤◌, ◌≡◌, refl, Bool, true, false, ◌⊎◌, inl, inr, Option, none, some, List, [], ◌∷◌,
  length, length-append, leb, arith, Bool-cases,
}
use open_fire_watch.Base.Text.{Text}
use open_fire_watch.Base.Tried.{Tried, ok, thrown}
use open_fire_watch.Store.{Detection}
use open_fire_watch.Evaluation.Report.{Weather, backfill, DetectionReport, report_is_valid}
use open_fire_watch.Ingestion.Cycle.{valid_reports}
use open_fire_watch.Backfill.Plan.{BackfillRequest}
use open_fire_watch.Backfill.Runs.{BackfillRun, running}
use open_fire_watch.Backfill.Replay.{
  Environment, ZonePoint, ensure_zone, ensure_zones, store_archive, store_stage, count_weather_days,
  paired, pair_all, enqueue, publish_backfilled, replay, plan, body, weather_at,
}
use open_fire_watch.Backfill.Actions.{World}
use open_fire_watch.Backfill.Weather.{WeatherHour}
use open_fire_watch.Backfill.Replay.Triples.{
  Triple, bind_triple, if_fails_triple, or_raise_triple, pure_triple, gets_triple, modify_triple,
  weaken, narrow, strengthen,
}

-- The counters of a run at a point of the loop, and that it is running.
abbrev pub CountersAre : Option ℕ → ℕ → ℕ → ℕ → BackfillRun → Type 0
CountersAre total finished found queued r =
    (r.requests_total ≡ total)
    × (r.requests_done ≡ finished)
    × (r.detections_found ≡ found)
    × (r.reports_queued ≡ queued)

abbrev IsAt : Option ℕ → ℕ → ℕ → ℕ → BackfillRun → Type 0
IsAt total finished found queued r =
    CountersAre total finished found queued r × (r.status ≡ running)

-- No more requests than planned, and no more reports than detections.
abbrev pub IsWithin : ℕ → BackfillRun → Type 0
IsWithin total r =
    (r.requests_total ≡ some total)
    × (r.requests_done ≤ total)
    × (r.reports_queued ≤ r.detections_found)

abbrev IsInLoop : ℕ → BackfillRun → Type 0
IsInLoop total r = IsWithin total r × (r.status ≡ running)

abbrev pub IsComplete : BackfillRun → Type 0
IsComplete r = (total : ℕ) × IsWithin total r × (r.requests_done ≡ total)

-- Before the plan the counters are still those of a new run.
abbrev pub IsOver : BackfillRun → Type 0
IsOver r = ((total : ℕ) × IsWithin total r) ⊎ CountersAre none 0 0 0 r

module _ (env : Environment) where
  length-paired : (raw : Detection) (o : Option Weather) → length (paired env raw o) ≤ 1
  unfolding valid_reports
  length-paired raw none = omega arith
  length-paired raw (some w) =
      one (report_is_valid (record { detection = raw; weather = w; ingestion = some backfill }))
        refl
    where
      one :
          (b : Bool)
          → report_is_valid (record { detection = raw; weather = w; ingestion = some backfill }) ≡ b
          → length (paired env raw (some w)) ≤ 1
      one true e = rw e (omega arith)
      one false e = rw e (omega arith)

  ensure_zone_run :
      (from to : ℕ) (z : ZonePoint) (w : World) → (ensure_zone env from to z w).run ≡ w.run
  ensure_zone_run from to z w =
      elim (Bool-cases (leb (to - from + 1) (count_weather_days env z.id from to w.history))) [
        | inl e ↦ rw e refl
        | inr e ↦ rw e (stored (env.fails (store_stage z.id)) (env.archive z))
      ]
    where
      stored :
          (o : Option Text) (t : Tried Text (List WeatherHour))
          → (store_archive env z o t w).run ≡ w.run
      stored none (ok hours) = refl
      stored none (thrown e) = refl
      stored (some m) t = refl

  module _ (R : BackfillRun → Type 0) where
    pair_all-length :
        (ds : List Detection)
        → Triple
            (λ w. R w.run)
            (pair_all env ds)
            (λ rs w. R w.run × (length rs ≤ length ds))
            (λ w. R w.run)
    unfolding pair_all
    pair_all-length [] = pure_triple [] (λ w p. (p, omega arith))
    pair_all-length (raw ∷ rest) =
        bind_triple (λ u w. R w.run) (if_fails_triple _)
          (λ u.
            bind_triple (λ history w. R w.run) (gets_triple _)
              (λ history.
                bind_triple (λ rs w. R w.run × (length rs ≤ length rest)) (pair_all-length rest)
                  (λ rs. pure_triple _ (λ w q.
                    let o = weather_at env raw.geom raw.acquired_at history in
                    (
                      q.0,
                      omega (arith, length-paired raw o, length-append (paired env raw o) rs, q.1),
                    )))))

    enqueue-length :
        (n : ℕ) (rs : List DetectionReport)
        → Triple
            (λ w. R w.run × (length rs ≤ n))
            (enqueue env rs)
            (λ k w. R w.run × (k ≤ n))
            (λ w. R w.run)
    enqueue-length n [] = pure_triple 0 (λ w p. p)
    enqueue-length n (r ∷ rs) =
        weaken (λ w p. p.0)
          (bind_triple (λ u w. R w.run × (length (r ∷ rs) ≤ n)) (if_fails_triple _)
            (λ u.
              bind_triple (λ v w. R w.run × (length (r ∷ rs) ≤ n)) (modify_triple _ (λ w p. p))
                (λ v. pure_triple _ (λ w p. p))))

    publish-length :
        (ds : List Detection)
        → Triple
            (λ w. R w.run)
            (publish_backfilled env ds)
            (λ k w. R w.run × (k ≤ length ds))
            (λ w. R w.run)
    unfolding publish_backfilled
    publish-length ds =
        bind_triple (λ rs w. R w.run × (length rs ≤ length ds)) (pair_all-length ds)
          (λ rs. enqueue-length (length ds) rs)

    ensure_zones-run :
        (from to : ℕ) (zs : List ZonePoint)
        → Triple (λ w. R w.run) (ensure_zones env from to zs) (λ u w. R w.run) (λ w. R w.run)
    unfolding ensure_zones
    ensure_zones-run from to [] = pure_triple tt (λ w p. p)
    ensure_zones-run from to (z ∷ zs) =
        bind_triple (λ u w. R w.run) (if_fails_triple _)
          (λ u.
            bind_triple (λ v w. R w.run)
              (modify_triple _ (λ w p. rw (ensure_zone_run from to z w) p))
              (λ v. ensure_zones-run from to zs))

  within :
      (total finished found queued : ℕ) (r : BackfillRun)
      → finished ≤ total
      → queued ≤ found
      → IsAt (some total) finished found queued r
      → IsInLoop total r
  within total finished found queued r f q ((t, d, n, k), s) = ((t, rw d f, rw (n, k) q), s)

  -- The loop counts what it does, and stops short only by an error.
  replay-IsWithin :
      (rs : List BackfillRequest) (total finished found queued : ℕ)
      → finished + length rs ≡ total
      → queued ≤ found
      → Triple
          (λ w. IsAt (some total) finished found queued w.run)
          (replay env finished found queued rs)
          (λ u w. IsInLoop total w.run × (w.run.requests_done ≡ total))
          (λ w. IsInLoop total w.run)
  unfolding replay
  replay-IsWithin [] total finished found queued e q =
      pure_triple tt
        (λ w p. (within total finished found queued w.run (omega arith) q p, omega (arith, p.0.1)))
  replay-IsWithin (r ∷ rs) total finished found queued e q =
      let bounded = λ (w : World) (p : IsAt (some total) finished found queued w.run).
        within total finished found queued w.run (omega arith) q p in
      bind_triple (λ ds w. IsAt (some total) finished found queued w.run)
        (weaken bounded (or_raise_triple _))
        (λ ds.
          bind_triple (λ n w. IsAt (some total) finished found queued w.run × (n ≤ length ds))
            (weaken bounded (publish-length (IsAt (some total) finished found queued) ds))
            (λ n.
              bind_triple (λ u w. IsAt (some total) finished found queued w.run × (n ≤ length ds))
                (weaken (λ w p. bounded w p.0) (if_fails_triple _))
                (λ u.
                  bind_triple
                    (λ v w.
                      IsAt (some total) (finished + 1) (found + length ds) (queued + n) w.run
                      × (n ≤ length ds))
                    (modify_triple _ (λ w p. (((p.0.0.0, refl, refl, refl), p.0.1), p.1)))
                    (λ v. narrow (λ le.
                      replay-IsWithin rs total (finished + 1) (found + length ds) (queued + n)
                        (omega arith) (omega (arith, le)))))))

  plan-IsAt :
      (from to : ℕ)
      → Triple
          (λ w. IsAt none 0 0 0 w.run)
          (plan env from to)
          (λ rs w. IsAt (some (length rs)) 0 0 0 w.run)
          (λ w. IsOver w.run × (w.run.status ≡ running))
  unfolding plan
  plan-IsAt from to =
      weaken (λ w p. (inr p.0, p.1))
        (bind_triple (λ a w. IsAt none 0 0 0 w.run) (or_raise_triple _)
          (λ a.
            bind_triple (λ rs w. IsAt none 0 0 0 w.run) (or_raise_triple _)
              (λ rs.
                bind_triple (λ u w. IsAt none 0 0 0 w.run) (if_fails_triple _)
                  (λ u.
                    bind_triple (λ v w. IsAt (some (length rs)) 0 0 0 w.run)
                      (modify_triple _ (λ w p. ((refl, p.0.1, p.0.2, p.0.3), p.1)))
                      (λ v. pure_triple rs (λ w p. p))))))

  just_planned :
      (total : ℕ) (r : BackfillRun) → IsAt (some total) 0 0 0 r → IsOver r × (r.status ≡ running)
  just_planned total r p =
      let loop = within total 0 0 0 r (omega arith) (omega arith) p in (inl (total, loop.0), loop.1)

  pub body-IsOver :
      (from to : ℕ)
      → Triple
          (λ w. IsAt none 0 0 0 w.run)
          (body env from to)
          (λ u w. IsComplete w.run × (w.run.status ≡ running))
          (λ w. IsOver w.run × (w.run.status ≡ running))
  unfolding body
  body-IsOver from to =
      bind_triple (λ rs w. IsAt (some (length rs)) 0 0 0 w.run) (plan-IsAt from to)
        (λ rs.
          let at_start = λ (r : BackfillRun). IsAt (some (length rs)) 0 0 0 r in
          let over = λ (w : World) (p : at_start w.run). just_planned (length rs) w.run p in
          bind_triple (λ u w. at_start w.run) (weaken over (if_fails_triple _))
            (λ u.
              bind_triple (λ v w. at_start w.run)
                (weaken over (ensure_zones-run at_start from to env.zones))
                (λ v.
                  bind_triple (λ x w. at_start w.run) (weaken over (if_fails_triple _))
                    (λ x.
                      weaken (λ w p. (inl (length rs, p.0), p.1))
                        (strengthen (λ u w p. ((length rs, p.0.0, p.1), p.0.1))
                          (replay-IsWithin rs (length rs) 0 0 0 (omega arith) (omega arith)))))))
