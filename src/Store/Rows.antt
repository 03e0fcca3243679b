-- ===== src/Store/Rows.antt =====
-- What an insertion into the shared tables does, and when it does nothing.
use open_fire_watch.Base.{
  ℕ, ◌≡◌, refl, true, Option, none, some, ◌∷◌, any, arith, eq_iff, Bool-cases, map, subst, inl, inr,
}
use open_fire_watch.Base.Int.{eqb_ℤ_refl}
use open_fire_watch.Evaluation.Decision.{Conditions}
use open_fire_watch.Store.{Detection, Anomaly, Store, conflicts, insert_anomaly}

-- A row conflicts with the detection that it holds.
pub conflicts_self : (d : Detection) (a : Anomaly) → a.detection ≡ d → conflicts d a ≡ true
unfolding conflicts
conflicts_self d a e = rw e (
    ground
      (arith, eq_iff d.source d.source, eqb_ℤ_refl d.geom.longitude, eqb_ℤ_refl d.geom.latitude))

-- An insertion that takes place leaves a row that conflicts with the detection.
pub any-conflicts :
    (d : Detection) (w : Conditions) (s s' : Store) (id : ℕ)
    → insert_anomaly d w s ≡ some (id, s')
    → any (conflicts d) s'.anomalies ≡ true
unfolding insert_anomaly
any-conflicts d w s s' id e = elim (Bool-cases (any (conflicts d) s.anomalies)) [
  | inl old ↦ cc (rw old at e)
  | inr new ↦
      subst (λ t. any (conflicts d) t.anomalies ≡ true) (stored (rw new at e))
        (rw (conflicts_self d (record { id = s.next_id; detection = d; weather = w }) refl) refl)
]
  where
    stored :
        {t : Store} → ◌≡◌ {A = Option (ℕ × Store)} (some (s.next_id, t)) (some (id, s')) → t ≡ s'
    stored q = cc

pub insert_anomaly_conflict :
    (d : Detection) (w : Conditions) (s : Store)
    → any (conflicts d) s.anomalies ≡ true
    → insert_anomaly d w s ≡ none
unfolding insert_anomaly
insert_anomaly_conflict d w s e = rw e

pub conflict_of_none :
    (d : Detection) (w : Conditions) (s : Store)
    → insert_anomaly d w s ≡ none
    → any (conflicts d) s.anomalies ≡ true
unfolding insert_anomaly
conflict_of_none d w s e = elim (Bool-cases (any (conflicts d) s.anomalies)) [
  | inl old ↦ old
  | inr new ↦ cc (rw new at e)
]

-- An insertion that takes place adds its row and uses its id.
pub insert_anomaly_new :
    (d : Detection) (w : Conditions) (s s' : Store) (id : ℕ)
    → insert_anomaly d w s ≡ some (id, s')
    → (id ≡ s.next_id)
      × (s'.events ≡ s.events)
      × (s'.published ≡ s.published)
      × (map (λ a. a.id) s'.anomalies ≡ id ∷ map (λ a. a.id) s.anomalies)
unfolding insert_anomaly
insert_anomaly_new d w s s' id e = elim (Bool-cases (any (conflicts d) s.anomalies)) [
  | inl old ↦ cc (rw old at e)
  | inr new ↦ ground arith
]

-- Every anomaly has exactly one verdict, in the same order.
abbrev pub IsMatched : Store → Type 0
IsMatched s = map (λ e. e.anomaly_id) s.events ≡ map (λ a. a.id) s.anomalies

pub inserted_row :
    (d : Detection) (w : Conditions) (s s' : Store) (id : ℕ)
    → insert_anomaly d w s ≡ some (id, s')
    → s'.anomalies ≡ record { id = id; detection = d; weather = w } ∷ s.anomalies
unfolding insert_anomaly
inserted_row d w s s' id e = elim (Bool-cases (any (conflicts d) s.anomalies)) [
  | inl old ↦ cc (rw old at e)
  | inr new ↦ ground (arith, rw new at e)
]
