-- ===== src/Evaluation/Service/Passes.antt =====
-- What the evidence of smouldering rests on: two passes of a satellite.
use open_fire_watch.Base.{
  ℕ, ◌+◌, ◌≤◌, ◌≡◌, ◌≢◌, Bool, true, false, Option, none, some, List, [], ◌∷◌, Any, keep, any, map,
  length, or_else, ltb, ◌==◌, if◌then◌else◌, is_some, Bool-cases, inl, inr, arith,
}
use open_fire_watch.Base.Int.{ℤ, leb_ℤ}
use open_fire_watch.Store.{Anomaly}
use open_fire_watch.Sensors.Current.{Point}
use open_fire_watch.Evaluation.Level.{units}
use open_fire_watch.Evaluation.Service.{Environment, counts, distinct, detect_smouldering}

-- At most 5 MW.
abbrev pub IsFaint : Option ℤ → Type 0
IsFaint frp = leb_ℤ (or_else frp (units 0)) (units 5) ≡ true

-- A detection within the radius of the place, at most 72 hours old and faint.
abbrev pub IsPass : Environment → Point → Anomaly → Type 0
IsPass env p a =
    (env.within_radius p a.detection.geom ≡ true)
    × (env.now ≤ a.detection.acquired_at + 259200000)
    × IsFaint a.detection.frp_mw

abbrev acquired : Anomaly → ℕ
acquired a = a.detection.acquired_at

-- Two such detections of different times.
abbrev pub HasTwoPasses : Environment → Point → List Anomaly → Type 0
HasTwoPasses env p rows =
    Any (λ a. IsPass env p a × Any (λ b. IsPass env p b × (acquired a ≢ acquired b)) rows) rows

Any-map :
    {P Q : Anomaly → Type 0}
    → ((a : Anomaly) → P a → Q a)
    → (rows : List Anomaly) → Any P rows
    → Any Q rows
Any-map f [] h = elim h [ ]
Any-map f (a ∷ rows) (inl h) = inl (f a h)
Any-map f (a ∷ rows) (inr h) = inr (Any-map f rows h)

Any-keep :
    (P : Anomaly → Type 0) (f : Anomaly → Bool) (rows : List Anomaly)
    → Any P (keep f rows)
    → Any (λ a. (f a ≡ true) × P a) rows
Any-keep P f [] h = elim h [ ]
Any-keep P f (a ∷ rows) h = elim (Bool-cases (f a)) [
  | inl e ↦ first_or_later (Any-keep P f rows) e (rw (e, keep) at h)
  | inr e ↦ inr (Any-keep P f rows (rw (e, keep) at h))
]
  where
    first_or_later :
        (Any P (keep f rows) → Any (λ b. (f b ≡ true) × P b) rows)
        → f a ≡ true
        → Any P (a ∷ keep f rows)
        → Any (λ b. (f b ≡ true) × P b) (a ∷ rows)
    first_or_later later e (inl p) = inl (e, p)
    first_or_later later e (inr q) = inr (later q)

-- Times that are counted twice as distinct are two.
other_time :
    (t : ℕ) (rows : List Anomaly)
    → any (λ u. u == t) (map acquired rows) ≡ false
    → 1 ≤ length (distinct (map acquired rows))
    → Any (λ b. t ≢ acquired b) rows
other_time t [] new le = absurd (omega arith)
other_time t (b ∷ rows) new le = inl (ground arith)

distinct-two :
    (rows : List Anomaly)
    → 2 ≤ length (distinct (map acquired rows))
    → Any (λ a. Any (λ b. acquired a ≢ acquired b) rows) rows
distinct-two [] le = absurd (omega arith)
distinct-two (a ∷ rows) le = elim (Bool-cases (any (λ u. u == acquired a) (map acquired rows))) [
  | inl e ↦ inr (Any-map (λ b h. inr h) rows (distinct-two rows (rw e at le)))
  | inr e ↦ inl (inr (other_time (acquired a) rows e (ground arith)))
]

counts-IsPass :
    (env : Environment) (p : Point) (a : Anomaly) → counts env p a ≡ true → IsPass env p a
counts-IsPass env p a h = ground arith

enough :
    (n : ℕ) (k : ℕ) {A : Type 0}
    → (a : A) → is_some (if ltb n k then none else some a) ≡ true
    → k ≤ n
enough n k a h = ground arith

pub detect_smouldering-two :
    (env : Environment) (p : Point) (rows : List Anomaly)
    → is_some (detect_smouldering env p rows) ≡ true
    → HasTwoPasses env p rows
unfolding detect_smouldering
detect_smouldering-two env p rows h =
    let kept = keep (counts env p) rows in
    let both = distinct-two kept (enough _ 2 _ h) in
    Any-map
      (λ a q. (
        counts-IsPass env p a q.0,
        Any-map (λ b r. (counts-IsPass env p b r.0, r.1)) rows
            (Any-keep (λ b. acquired a ≢ acquired b) (counts env p) rows q.1),
      ))
      rows (Any-keep (λ a. Any (λ b. acquired a ≢ acquired b) kept) (counts env p) rows both)
