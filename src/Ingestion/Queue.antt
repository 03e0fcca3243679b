-- ===== src/Ingestion/Queue.antt =====
-- The queue `detection-reports` (workers/src/ingestion/ingest.task.ts): its jobs, under ids that are
-- made of the source, the pixel and the time of a detection.
use open_fire_watch.Base.{
  ℕ, ◌≡◌, refl, String, Bool, true, ◌&&◌, List, [], ◌∷◌, ◌==◌, any, All, str_eq, eq_iff, arith,
  if◌then◌else◌, Bool-cases, inl, inr,
}
use open_fire_watch.Base.Int.{eqb_ℤ_refl}
use open_fire_watch.Sensors.Current.{Point}
use open_fire_watch.Store.{Detection, point_eq}
use open_fire_watch.Evaluation.Report.{DetectionReport}

-- The four parts of the text `report|source|latitude|longitude|acquiredAt`.
pub record JobId : Type 0 where
  pub source : String
  pub place : Point
  pub acquired_at : ℕ

unfoldable pub id_eq : JobId → JobId → Bool
id_eq i j = str_eq i.source j.source && point_eq i.place j.place && i.acquired_at == j.acquired_at

-- `priority`: 0 is the most urgent, 10 is that of a replay.
pub record Job : Type 0 where
  pub id : JobId
  pub data_ : DetectionReport
  pub priority : ℕ

abbrev pub job_id : Detection → JobId
job_id d = record { source = d.source; place = d.geom; acquired_at = d.acquired_at }

abbrev pub job_for : ℕ → DetectionReport → Job
job_for priority r = record { id = job_id r.detection; data_ = r; priority = priority }

-- `addBulk`: a job whose id the queue holds already is not added again.
abbrev pub holds : JobId → List Job → Bool
holds id jobs = any (λ j. id_eq id j.id) jobs

abbrev pub add : Job → List Job → List Job
add j jobs = if holds j.id jobs then jobs else j ∷ jobs

unfoldable pub add_bulk : List Job → List Job → List Job
add_bulk [] jobs = jobs
add_bulk (j ∷ js) jobs = add_bulk js (add j jobs)

id_eq_refl : (i : JobId) → id_eq i i ≡ true
unfolding id_eq
id_eq_refl i =
    ground
      (arith, eq_iff i.source i.source, eqb_ℤ_refl i.place.longitude, eqb_ℤ_refl i.place.latitude)

holds-add :
    (id : JobId) (j : Job) (jobs : List Job) → holds id jobs ≡ true → holds id (add j jobs) ≡ true
holds-add id j jobs h = elim (Bool-cases (holds j.id jobs)) [
  | inl e ↦ rw e h
  | inr e ↦ rw e (ground (arith, h))
]

holds-add_self : (j : Job) (jobs : List Job) → holds j.id (add j jobs) ≡ true
holds-add_self j jobs = elim (Bool-cases (holds j.id jobs)) [
  | inl e ↦ rw e e
  | inr e ↦ rw e (rw (id_eq_refl j.id) refl)
]

pub holds-add_bulk :
    (id : JobId) (js jobs : List Job) → holds id jobs ≡ true → holds id (add_bulk js jobs) ≡ true
unfolding add_bulk
holds-add_bulk id [] jobs h = h
holds-add_bulk id (j ∷ js) jobs h = holds-add_bulk id js (add j jobs) (holds-add id j jobs h)

-- Every job that was offered is held.
pub add_bulk-holds : (js jobs : List Job) → All (λ j. holds j.id (add_bulk js jobs) ≡ true) js
unfolding add_bulk
add_bulk-holds [] jobs = tt
add_bulk-holds (j ∷ js) jobs =
    (holds-add_bulk j.id js (add j jobs) (holds-add_self j jobs), add_bulk-holds js (add j jobs))

-- Jobs whose ids are held leave the queue as it is.
pub add_bulk-held :
    (js jobs : List Job) → All (λ j. holds j.id jobs ≡ true) js → add_bulk js jobs ≡ jobs
unfolding add_bulk
add_bulk-held [] jobs h = refl
add_bulk-held (j ∷ js) jobs h = rw (h.0) (add_bulk-held js jobs h.1)

pub add_bulk-All :
    (P : Job → Type 0) (js jobs : List Job) → All P js → All P jobs → All P (add_bulk js jobs)
unfolding add_bulk
add_bulk-All P [] jobs h k = k
add_bulk-All P (j ∷ js) jobs h k = elim (Bool-cases (holds j.id jobs)) [
  | inl e ↦ rw e (add_bulk-All P js jobs h.1 k)
  | inr e ↦ rw e (add_bulk-All P js (j ∷ jobs) h.1 (h.0, k))
]
