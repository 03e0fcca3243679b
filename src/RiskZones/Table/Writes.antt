-- ===== src/RiskZones/Table/Writes.antt =====
-- Sequences of writes to the table, in any order and interleaving, and what they keep.
use open_fire_watch.Base.{
  ℕ, ◌+◌, ◌≡◌, refl, Bool, false, List, [], ◌∷◌, map, any, if◌then◌else◌, Bool-cases, Option-cases,
  inl, inr,
}
use open_fire_watch.Base.Text.{Text, text_eq}
use open_fire_watch.RiskZones.Table.{
  ZoneRow, ZoneTable, Database, ZoneInput, is_row, edited, is_active_row, retired, relabelled,
  change, new_row, insert_accepted, insert_zone, update_accepted, update, deactivate, seed_accepted,
  seed_zone,
}

-- A write; the key of an insertion is one that some earlier read has chosen.
pub data Write : Type 0 where
  insertion : Text → ZoneInput → Write
  edit : ℕ → ZoneInput → Write
  retirement : ℕ → Write
  seeding : Text → ZoneInput → Write

module _ (db : Database) where
  abbrev pub write : Write → ZoneTable → ZoneTable
  write (insertion key input) t = (insert_zone db key input t).1
  write (edit id input) t = (update db id input t).1
  write (retirement id) t = (deactivate db id t).1
  write (seeding key input) t = seed_zone db key input t

  abbrev pub writes : List Write → ZoneTable → ZoneTable
  writes [] t = t
  writes (w ∷ ws) t = writes ws (write w t)

-- Each write leaves the table, or changes its rows one by one, or adds a row with a new name.
pub data Effect (t : ZoneTable) : ZoneTable → Type 0 where
  same : Effect t t
  changed :
      (f : ZoneRow → ZoneRow)
      → ((r : ZoneRow)
          → ((f r).id ≡ r.id)
            × ((f r).name ≡ r.name)
            × (r.is_active ≡ false → (f r).is_active ≡ false))
      → Effect t (record t { rows = map f t.rows })
  added :
      (r : ZoneRow)
      → r.id ≡ t.next_id
      → any (λ old. text_eq r.name old.name) t.rows ≡ false
      → Effect t (record { rows = r ∷ t.rows; next_id = t.next_id + 1 })

module _ (db : Database) where
  change-Effect :
      (test : ZoneRow → Bool) (f : ZoneRow → ZoneRow) (t : ZoneTable)
      → ((r : ZoneRow)
          → ((f r).id ≡ r.id)
            × ((f r).name ≡ r.name)
            × (r.is_active ≡ false → (f r).is_active ≡ false))
      → Effect t (change db test f t)
  change-Effect test f t h = changed (λ r. if test r then f r else r) either
    where
      either :
          (r : ZoneRow)
          → ((if test r then f r else r).id ≡ r.id)
            × ((if test r then f r else r).name ≡ r.name)
            × (r.is_active ≡ false → (if test r then f r else r).is_active ≡ false)
      either r = elim (Bool-cases (test r)) [
        | inl e ↦ rw e (h r)
        | inr e ↦ rw e (refl, refl, λ q. q)
      ]

  insertion-Effect :
      (key : Text) (input : ZoneInput) (t : ZoneTable) → Effect t (insert_zone db key input t).1
  unfolding insert_zone
  insertion-Effect key input t = elim (Option-cases (db.geometry_error input.geometry)) [
    | inl e ↦ elim (Bool-cases (any (λ r. text_eq key r.name) t.rows)) [
      | inl old ↦ rw (e, old, insert_accepted) same
      | inr new ↦ rw (e, new, insert_accepted) (added (new_row db t.next_id key input) refl new)
    ]
    | inr (error, e) ↦ rw (e, insert_accepted) same
  ]

  edit-Effect : (id : ℕ) (input : ZoneInput) (t : ZoneTable) → Effect t (update db id input t).1
  unfolding update
  edit-Effect id input t = elim (Option-cases (db.geometry_error input.geometry)) [
    | inl e ↦ elim (Bool-cases (any (is_row db id) t.rows)) [
      | inl old ↦
          rw (e, old, update_accepted)
            (change-Effect (is_row db id) (edited db input) t (λ r. (refl, refl, λ q. q)))
      | inr new ↦ rw (e, new, update_accepted) same
    ]
    | inr (error, e) ↦ rw (e, update_accepted) same
  ]

  retirement-Effect : (id : ℕ) (t : ZoneTable) → Effect t (deactivate db id t).1
  unfolding deactivate
  retirement-Effect id t = elim (Bool-cases (any (is_active_row db id) t.rows)) [
    | inl old ↦
        rw old (change-Effect (is_active_row db id) (retired db) t (λ r. (refl, refl, λ q. refl)))
    | inr new ↦ rw new same
  ]

  seeding-Effect :
      (key : Text) (input : ZoneInput) (t : ZoneTable) → Effect t (seed_zone db key input t)
  unfolding seed_zone
  seeding-Effect key input t = elim (Option-cases (db.geometry_error input.geometry)) [
    | inl e ↦ elim (Bool-cases (any (λ r. text_eq key r.name) t.rows)) [
      | inl old ↦
          rw (e, old, seed_accepted)
            (change-Effect (λ r. text_eq key r.name) (relabelled db input) t
              (λ r. (refl, refl, λ q. q)))
      | inr new ↦ rw (e, new, seed_accepted) (added (new_row db t.next_id key input) refl new)
    ]
    | inr (error, e) ↦ rw (e, seed_accepted) same
  ]

  pub write-Effect : (w : Write) (t : ZoneTable) → Effect t (write db w t)
  write-Effect (insertion key input) t = insertion-Effect key input t
  write-Effect (edit id input) t = edit-Effect id input t
  write-Effect (retirement id) t = retirement-Effect id t
  write-Effect (seeding key input) t = seeding-Effect key input t
