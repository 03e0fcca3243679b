-- ===== src/Backfill/Runs.antt =====
-- backend/src/backfill/backfill.service.ts: the register of the replays. A day is its number on one
-- calendar, and `today` and the queue are parameters.
pub mod Starts
use open_fire_watch.Base.{
  ℕ, zero, suc, ◌+◌, ◌-◌, ◌*◌, Bool, true, false, ◌&&◌, ◌||◌, String, Option, none, some, List, [],
  ◌∷◌, ltb, first, keep, if◌then◌else◌,
}
use open_fire_watch.Base.Text.{Text}
use open_fire_watch.Backfill.Plan.{Gap}
use open_fire_watch.Ingestion.Firms.{FirmsError}

pub data BackfillStatus : Type 0 where
  queued running done failed : BackfillStatus

-- What ends a replay: an error from outside, one of FIRMS, or an inverted range.
pub data ReplayError : Type 0 where
  upstream : Text → ReplayError
  firms : FirmsError → ReplayError
  inverted_range : ReplayError

pub record BackfillRun : Type 0 where
  pub id : ℕ
  pub status : BackfillStatus
  pub from : ℕ
  pub to : ℕ
  pub sources : Option (List String)
  pub requests_total : Option ℕ
  pub requests_done : ℕ
  pub detections_found : ℕ
  pub reports_queued : ℕ
  pub coverage_gaps : List Gap
  pub error : Option ReplayError
  pub created_at : ℕ
  pub started_at : Option ℕ
  pub finished_at : Option ℕ

-- `jobs` are the runs that the workers were handed; the newest row stands first.
pub record Register : Type 0 where
  pub runs : List BackfillRun
  pub next_id : ℕ
  pub jobs : List ℕ

pub data Refusal : Type 0 where
  inverted in_the_future before_the_archive too_long queue_failed : Refusal
  in_progress : ℕ → Refusal

pub data Answer : Type 0 where
  started : BackfillRun → Answer
  refused : Refusal → Answer

abbrev pub max_range_days : ℕ
max_range_days = 5 * 366

abbrev pub is_active_status : BackfillStatus → Bool
is_active_status queued = true
is_active_status running = true
is_active_status _ = false

-- The guards on the range, in their order.
unfoldable pub range_refusal : ℕ → ℕ → ℕ → ℕ → Option Refusal
range_refusal archive_begins today from to =
    if ltb to from
    then some inverted
    else if ltb today to
    then some in_the_future
    else if ltb from archive_begins
    then some before_the_archive
    else if ltb max_range_days (to - from)
    then some too_long
    else none

abbrev pub active_run : Register → Option BackfillRun
active_run g = first (keep (λ r. is_active_status r.status) g.runs)

abbrev pub new_run : ℕ → ℕ → ℕ → ℕ → BackfillRun
new_run id from to now = record {
  id = id;
  status = queued;
  from = from;
  to = to;
  sources = none;
  requests_total = none;
  requests_done = 0;
  detections_found = 0;
  reports_queued = 0;
  coverage_gaps = [];
  error = none;
  created_at = now;
  started_at = none;
  finished_at = none;
}

-- A call of `start`, with the clock at its check and at its insertion, and whether the queue will fail.
pub record Request : Type 0 where
  pub from : ℕ
  pub to : ℕ
  pub today : ℕ
  pub now : ℕ
  pub queue_fails : Bool

-- How far a call has come: `start` waits for the database twice, for the search of an active run and
-- for the insertion, and then for the queue, and other calls may go on while it waits.
pub data Progress : Type 0 where
  asked cleared : Progress
  recorded : BackfillRun → Progress
  answered : Answer → Progress

abbrev pub checked : Option Refusal → Option BackfillRun → Progress
checked (some refusal) _ = answered (refused refusal)
checked none (some run) = answered (refused (in_progress run.id))
checked none none = cleared

abbrev pub run_of : Request → Register → BackfillRun
run_of c g = new_run g.next_id c.from c.to c.now

module _ (archive_begins : ℕ) where
  -- One statement of the database, or the call of the queue.
  abbrev pub advance : Request → Progress → Register → Progress × Register
  advance c asked g = (checked (range_refusal archive_begins c.today c.from c.to) (active_run g), g)
  advance c cleared g =
      (recorded (run_of c g), record g { runs = run_of c g ∷ g.runs; next_id = g.next_id + 1 })
  advance c (recorded run) g =
      if c.queue_fails
      then (answered (refused queue_failed), g)
      else (answered (started run), record g { jobs = run.id ∷ g.jobs })
  advance c (answered answer) g = (answered answer, g)

  -- The next step of the call at a place.
  unfoldable pub step :
      ℕ → List (Request × Progress) → Register → List (Request × Progress) × Register
  step i [] g = ([], g)
  step zero ((c, p) ∷ calls) g = let (p', g') = advance c p g in ((c, p') ∷ calls, g')
  step (suc i) (call ∷ calls) g = let (calls', g') = step i calls g in (call ∷ calls', g')

  -- The steps of the calls in the order of a list.
  unfoldable pub play :
      List ℕ → List (Request × Progress) → Register → List (Request × Progress) × Register
  unfolding step
  play [] calls g = (calls, g)
  play (i ∷ order) calls g = let (calls', g') = step i calls g in play order calls' g'
