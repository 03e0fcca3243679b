-- ===== src/RiskZones/Table/Created.antt =====
-- What `create` answers, and why its key is never refused when nobody else writes meanwhile.
use open_fire_watch.Base.{ℕ, ◌+◌, ◌≡◌, refl, ◌∙◌, false, none, List, [], ◌∷◌, any, map}
use open_fire_watch.Base.Text.{Text, text_eq}
use open_fire_watch.RiskZones.Slug.{slugify}
use open_fire_watch.RiskZones.Keys.Free.{reserve_key-free}
use open_fire_watch.RiskZones.Table.{
  ZoneRow, ZoneTable, Database, ZoneInput, created, insert_accepted, insert_zone, new_row, create,
}

pub any-map_name :
    (key : Text) (rows : List ZoneRow)
    → any (λ r. text_eq key r.name) rows ≡ any (text_eq key) (map (λ r. r.name) rows)
any-map_name key [] = refl
any-map_name key (r ∷ rows) = rw (any-map_name key rows) refl

insert_zone_free :
    (db : Database) (key : Text) (input : ZoneInput) (t : ZoneTable)
    → db.geometry_error input.geometry ≡ none
    → any (λ r. text_eq key r.name) t.rows ≡ false
    → insert_zone db key input t ≡ (
      created t.next_id,
      record { rows = new_row db t.next_id key input ∷ t.rows; next_id = t.next_id + 1 },
    )
unfolding insert_zone
insert_zone_free db key input t g f = rw (g, f, insert_accepted) refl

-- With a geometry that the database accepts, and with no other write between its two statements, a call
-- of `create` ends, is not refused for its name, and adds one row, under the next id and a name that
-- no row had.
pub create-adds :
    (show : ℕ → Text) (lower nfd : Text → Text)
    → ((m n : ℕ) → show m ≡ show n → m ≡ n)
    → (db : Database) (input : ZoneInput) (t : ZoneTable) → db.geometry_error input.geometry ≡ none
    → (key : Text) × (any (text_eq key) (map (λ r. r.name) t.rows) ≡ false)
      × (create db show lower nfd (map (λ r. r.name) t.rows) input t ≡ (
        created t.next_id,
        record { rows = new_row db t.next_id key input ∷ t.rows; next_id = t.next_id + 1 },
      ))
unfolding create
create-adds show lower nfd inj db input t g =
    let names = map (λ r. r.name) t.rows in
    let (key, e, free) = reserve_key-free show inj (slugify lower nfd input.name_en) names in
    (key, free, rw e (insert_zone_free db key input t g (any-map_name key t.rows ∙ free)))
