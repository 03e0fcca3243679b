-- ===== src/Backfill/Replay/Ends.antt =====
-- How a replay leaves the row of its run, whatever fails.
use open_fire_watch.Base.{◌≡◌, refl, ◌⊎◌, inl, inr, Option, none, some}
use open_fire_watch.Base.Text.{Text}
use open_fire_watch.Base.Tried.{Tried, ok, thrown}
use open_fire_watch.Backfill.Runs.{running, done, failed, ReplayError, upstream}
use open_fire_watch.Backfill.Actions.{World}
use open_fire_watch.Backfill.Replay.{
  Environment, body, begun, caught, finished, conclude, attempted, backfill_satellite,
  running_stage, done_stage, failed_stage,
}
use open_fire_watch.Backfill.Replay.Triples.{After}
use open_fire_watch.Backfill.Replay.Counts.{CountersAre, IsComplete, IsOver, body-IsOver}

module _ (env : Environment) where
  -- The run is done: every request of its plan is made.
  abbrev pub IsDone : Tried ReplayError Unit × World → Type 0
  IsDone (t, v) =
      (t ≡ ok tt) × (v.run.status ≡ done) × (v.run.finished_at ≡ some env.now) × IsComplete v.run

  -- The run has failed, with the error that is thrown.
  abbrev pub IsFailed : Tried ReplayError Unit × World → Type 0
  IsFailed (t, v) =
      (e : ReplayError) × (t ≡ thrown e)
      × (v.run.error ≡ some e)
      × (v.run.status ≡ failed)
      × (v.run.finished_at ≡ some env.now)
      × IsOver v.run

  -- The run still says that it is running, though the job has ended with an error.
  abbrev pub IsLeftRunning : Text → Tried ReplayError Unit × World → Type 0
  IsLeftRunning message (t, v) =
      (t ≡ thrown (upstream message)) × (v.run.status ≡ running) × IsOver v.run

  -- How the job ends, by the failures of the writes of `running` and of `failed`.
  abbrev pub IsEnded : Option Text → Option Text → World → Tried ReplayError Unit × World → Type 0
  IsEnded (some message) _ w (t, v) = (t ≡ thrown (upstream message)) × (v ≡ w)
  IsEnded none none w result = IsDone result ⊎ IsFailed result
  IsEnded none (some message) w result = IsDone result ⊎ IsLeftRunning message result

  caught-IsEnded :
      (o : Option Text) (e : ReplayError) (w v : World)
      → v.run.status ≡ running
      → IsOver v.run
      → IsEnded none o w (caught env o e v)
  caught-IsEnded none e w v s h = inr (e, refl, refl, refl, refl, h)
  caught-IsEnded (some message) e w v s h = inr (refl, s, h)

  finished-IsEnded :
      (d o : Option Text) (w v : World)
      → env.fails failed_stage ≡ o
      → v.run.status ≡ running
      → IsComplete v.run
      → IsEnded none o w (finished env d v)
  finished-IsEnded none none w v q s h = inl (refl, refl, refl, h)
  finished-IsEnded none (some message) w v q s h = inl (refl, refl, refl, h)
  finished-IsEnded (some message) o w v q s (total, within, all) =
      rw q (caught-IsEnded o (upstream message) w v s (inl (total, within)))

  conclude-IsEnded :
      (o : Option Text) (t : Tried ReplayError Unit) (w v : World)
      → env.fails failed_stage ≡ o
      → After
          (λ u x. IsComplete x.run × (x.run.status ≡ running))
          (λ x. IsOver x.run × (x.run.status ≡ running))
          (t, v)
      → IsEnded none o w (conclude env (t, v))
  conclude-IsEnded o (ok u) w v q h = finished-IsEnded (env.fails done_stage) o w v q h.1 h.0
  conclude-IsEnded o (thrown e) w v q h = rw q (caught-IsEnded o e w v h.1 h.0)

  attempted-IsEnded :
      (b o : Option Text) (w : World)
      → env.fails failed_stage ≡ o
      → CountersAre none 0 0 0 w.run
      → IsEnded b o w (attempted env b w)
  attempted-IsEnded (some message) o w q h = (refl, refl)
  attempted-IsEnded none o w q h =
      let ended = body env w.run.from w.run.to (begun env w) in
      conclude-IsEnded o ended.0 w ended.1 q
        ((body-IsOver env w.run.from w.run.to).after (begun env w) (h, refl))

  -- The replay of a new run always ends, whatever fails, and by how the writes of its status fail. If
  -- the write of `running` fails, its error is thrown and nothing has changed. If not, the run ends as
  -- done, with every request of its plan made, or else an error is thrown: if the write of `failed`
  -- works, the run has failed, with that error, and if it does not, the run is left running. The row
  -- never counts more requests than planned, nor more reports than detections.
  pub backfill_satellite-IsEnded :
      (w : World)
      → CountersAre none 0 0 0 w.run
      → IsEnded (env.fails running_stage) (env.fails failed_stage) w (backfill_satellite env w)
  unfolding backfill_satellite
  backfill_satellite-IsEnded w h =
      attempted-IsEnded (env.fails running_stage) (env.fails failed_stage) w refl h
