-- ===== src/RiskZones/Table/Retired.antt =====
-- What every sequence of writes keeps: the names stay unique, and a retired zone stays retired.
use open_fire_watch.Base.{
  ℕ, ◌<◌, ◌≡◌, ◌≢◌, refl, sym, ◌∙◌, subst, true, false, ◌&&◌, some, List, [], ◌∷◌, map, keep, any,
  All, All-imp, arith, if◌then◌else◌, Bool-cases, inl, inr, first,
}
use open_fire_watch.Base.Text.{Text, text_eq}
use open_fire_watch.Sensors.Current.{Point}
use open_fire_watch.Store.{RiskZone}
use open_fire_watch.RiskZones.Table.{
  ZoneRow, ZoneTable, Database, done, is_active_row, retired, deactivate, zone_of_row,
  find_zones_containing,
}
use open_fire_watch.Evaluation.Decision.{Decision}
use open_fire_watch.Evaluation.Report.{DetectionReport}
use open_fire_watch.Evaluation.Service.{Environment, event_for, zone_id}
use open_fire_watch.RiskZones.Table.Created.{any-map_name}
use open_fire_watch.RiskZones.Table.Writes.{
  Write, write, writes, Effect, same, changed, added, write-Effect,
}

-- No name twice, and every id below the next.
abbrev pub IsDistinct : List Text → Type 0
IsDistinct [] = Unit
IsDistinct (n ∷ ns) = (any (text_eq n) ns ≡ false) × IsDistinct ns

abbrev pub IsWellFormed : ZoneTable → Type 0
IsWellFormed t = IsDistinct (map (λ r. r.name) t.rows) × All (λ r. r.id < t.next_id) t.rows

-- No row of this id is active, and no later row will get it.
abbrev IsRetired : ℕ → ZoneTable → Type 0
IsRetired id t = All (λ r. r.id ≡ id → r.is_active ≡ false) t.rows × (id < t.next_id)

All-map {ℓ} :
    {A : Type ℓ} (P : A → Type 0) (f : A → A) (xs : List A)
    → ((x : A) → P x → P (f x))
    → All P xs
    → All P (map f xs)
All-map P f [] h a = tt
All-map P f (x ∷ xs) h a = (h x a.0, All-map P f xs h a.1)

map-name :
    (f : ZoneRow → ZoneRow) (rows : List ZoneRow)
    → ((r : ZoneRow) → (f r).name ≡ r.name)
    → map (λ r. r.name) (map f rows) ≡ map (λ r. r.name) rows
map-name f [] h = refl
map-name f (r ∷ rows) h = rw (h r, map-name f rows h) refl

Effect-IsWellFormed : (t t' : ZoneTable) → Effect t t' → IsWellFormed t → IsWellFormed t'
Effect-IsWellFormed t _ same h = h
Effect-IsWellFormed t _ (changed f keeps) h = (
  rw (map-name f t.rows (λ r. (keeps r).1)) h.0,
  All-map (λ r. r.id < t.next_id) f t.rows (λ r lt. omega (arith, (keeps r).0)) h.1,
)
Effect-IsWellFormed t _ (added r numbered new) h = (
  (sym (any-map_name r.name t.rows) ∙ new, h.0),
  (omega arith, All-imp t.rows (λ old lt. omega arith) h.1),
)

-- Whatever writes are made to a table, in whatever order, and whichever keys the insertions have
-- reserved before: if its names are distinct and its ids lie below the next one, they are so after.
pub writes-IsWellFormed :
    (db : Database) (ws : List Write) (t : ZoneTable)
    → IsWellFormed t
    → IsWellFormed (writes db ws t)
writes-IsWellFormed db [] t h = h
writes-IsWellFormed db (w ∷ ws) t h =
    writes-IsWellFormed db ws (write db w t)
      (Effect-IsWellFormed t (write db w t) (write-Effect db w t) h)

Effect-IsRetired : (id : ℕ) (t t' : ZoneTable) → Effect t t' → IsRetired id t → IsRetired id t'
Effect-IsRetired id t _ same h = h
Effect-IsRetired id t _ (changed f keeps) h = (
  All-map (λ r. r.id ≡ id → r.is_active ≡ false) f t.rows
      (λ r k e. (keeps r).2 (k (sym ((keeps r).0) ∙ e))) h.0,
  h.1,
)
Effect-IsRetired id t _ (added r numbered new) h = ((λ e. absurd (omega arith), h.0), omega arith)

writes-IsRetired :
    (db : Database) (ws : List Write) (id : ℕ) (t : ZoneTable)
    → IsRetired id t
    → IsRetired id (writes db ws t)
writes-IsRetired db [] id t h = h
writes-IsRetired db (w ∷ ws) id t h =
    writes-IsRetired db ws id (write db w t)
      (Effect-IsRetired id t (write db w t) (write-Effect db w t) h)

module _ (db : Database) where
  inactive :
      (id : ℕ) (rows : List ZoneRow)
      → All
          (λ r. r.id ≡ id → r.is_active ≡ false)
          (map (λ r. if is_active_row db id r then retired db r else r) rows)
  inactive id [] = tt
  inactive id (r ∷ rows) = (one r, inactive id rows)
    where
      one :
          (r : ZoneRow)
          → (if is_active_row db id r then retired db r else r).id ≡ id
          → (if is_active_row db id r then retired db r else r).is_active ≡ false
      one r e = elim (Bool-cases (is_active_row db id r)) [
        | inl q ↦ rw q refl
        | inr q ↦ rw q (ground (arith, rw q at e))
      ]

  active_id :
      (id next : ℕ) (rows : List ZoneRow)
      → any (is_active_row db id) rows ≡ true
      → All (λ r. r.id < next) rows
      → id < next
  active_id id next [] e a = cc
  active_id id next (r ∷ rows) e a = elim (Bool-cases (is_active_row db id r)) [
    | inl q ↦ ground (arith, a.0)
    | inr q ↦ active_id id next rows (rw q at e) a.1
  ]

  deactivate-IsRetired :
      (id : ℕ) (t : ZoneTable)
      → IsWellFormed t
      → (deactivate db id t).0 ≡ done
      → IsRetired id (deactivate db id t).1
  unfolding deactivate
  deactivate-IsRetired id t h e = elim (Bool-cases (any (is_active_row db id) t.rows)) [
    | inl q ↦ rw q (inactive id t.rows, active_id id t.next_id t.rows q h.1)
    | inr q ↦ cc (rw q at e)
  ]

  found_not :
      (id : ℕ) (p : Point) (rows : List ZoneRow)
      → All (λ r. r.id ≡ id → r.is_active ≡ false) rows
      → All
          (λ (z : RiskZone). z.id ≢ id)
          (map (zone_of_row db) (keep (λ r. r.is_active && db.covers r.geom p) rows))
  found_not id p [] h = tt
  found_not id p (r ∷ rows) h = elim (Bool-cases (r.is_active && db.covers r.geom p)) [
    | inl q ↦ rw (q, keep) (λ e. ground (arith, h.0 e), found_not id p rows h.1)
    | inr q ↦ rw (q, keep) (found_not id p rows h.1)
  ]

  -- After the retirement of a zone has succeeded on a table whose ids lie below the next one, no zone
  -- that is found at any place has its id, whatever writes follow.
  pub find_zones_containing-deactivate :
      (id : ℕ) (t : ZoneTable) (ws : List Write) (p : Point)
      → IsWellFormed t
      → (deactivate db id t).0 ≡ done
      → All
          (λ (z : RiskZone). z.id ≢ id)
          (find_zones_containing db (writes db ws (deactivate db id t).1) p)
  unfolding find_zones_containing
  find_zones_containing-deactivate id t ws p h e =
      let t' = (deactivate db id t).1 in
      found_not id p (writes db ws t').rows
        (writes-IsRetired db ws id t' (deactivate-IsRetired id t h e)).0

  -- After the retirement of a zone has succeeded on a table whose names are distinct and whose ids
  -- lie below the next one, no verdict on a report is filed under it, whatever writes come
  -- between, when the service looks its zones up in that table.
  pub event_for-deactivate :
      (id : ℕ) (t : ZoneTable) (ws : List Write) (env : Environment) (report : DetectionReport)
      (anomaly : ℕ) (d : Decision)
      → IsWellFormed t
      → (deactivate db id t).0 ≡ done
      → env.zones_containing ≡ find_zones_containing db (writes db ws (deactivate db id t).1)
      → (event_for env report anomaly d).zone_id ≢ some id
  event_for-deactivate id t ws env report anomaly d h e q =
      let p = report.detection.geom in
      first_not id (env.zones_containing p) (
        subst (λ f. All (λ (z : RiskZone). z.id ≢ id) (f p)) (sym q)
          (find_zones_containing-deactivate id t ws p h e))
    where
      first_not :
          (id : ℕ) (zs : List RiskZone)
          → All (λ (z : RiskZone). z.id ≢ id) zs
          → zone_id (first zs) ≢ some id
      first_not id [] a e = cc
      first_not id (z ∷ zs) a e = a.0 (cc)
