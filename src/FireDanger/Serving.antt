-- ===== src/FireDanger/Serving.antt =====
-- backend/src/fire-danger/fire-danger.service.ts: the snapshot that the API serves, and the figure
-- of today by zone. What Redis and `JSON.parse` answer is a parameter.
use open_fire_watch.Base.{
  ℕ, ◌≡◌, refl, ◌∙◌, String, Bool, true, false, Option, none, some, List, [], ◌∷◌, ◌++◌, keep,
  first, All, ◌==◌, arith, if◌then◌else◌, str_eq,
}
use open_fire_watch.Base.Map.{find, put, find-put}
use open_fire_watch.Base.Text.{text_eq}
use open_fire_watch.Base.Tried.{Tried, ok, thrown}
use open_fire_watch.FireDanger.Indices.{DangerClass, FireWeatherIndices}
use open_fire_watch.FireDanger.Refresh.{ZoneFigures}

pub record Snapshot (N : Type 0) : Type 0 where
  pub available : Bool
  pub generated_at : Option String
  pub zones : List (ZoneFigures N)

pub record FireDangerToday (N : Type 0) : Type 0 where
  pub fwi : N
  pub danger_class : DangerClass

module _ {N : Type 0} where
  abbrev unavailable : Snapshot N
  unavailable = record { available = false; generated_at = none; zones = [] }

  -- A read that throws is taken for an absent key; a text that cannot be parsed throws.
  unfoldable pub current :
      (String → Tried String (Snapshot N))
      → Tried String (Option String)
      → Tried String (Snapshot N)
  current parse (thrown e) = ok unavailable
  current parse (ok none) = ok unavailable
  current parse (ok (some raw)) = if str_eq raw "" then ok unavailable else parse raw

  -- `zone.days.find((d) => d.date === zone.today)`
  abbrev pub day_of_today : ZoneFigures N → Option (FireWeatherIndices N)
  day_of_today zone = first (keep (λ d. text_eq d.date zone.today) zone.days)

  abbrev pub figure : FireWeatherIndices N → FireDangerToday N
  figure d = record { fwi = d.fwi; danger_class = d.danger_class }

  abbrev pub figure_of : Option (FireWeatherIndices N) → Option (FireDangerToday N)
  figure_of none = none
  figure_of (some d) = some (figure d)

  abbrev set_figure :
      ℕ
      → Option (FireWeatherIndices N)
      → List (ℕ × FireDangerToday N)
      → List (ℕ × FireDangerToday N)
  set_figure zone none out = out
  set_figure zone (some d) out = put zone (figure d) out

  -- The loop over the zones, with the map that it fills.
  unfoldable pub today_from :
      List (ZoneFigures N) → List (ℕ × FireDangerToday N) → List (ℕ × FireDangerToday N)
  today_from [] out = out
  today_from (z ∷ zs) out = today_from zs (set_figure z.zone_id (day_of_today z) out)

  unfoldable pub today_by_zone : Snapshot N → List (ℕ × FireDangerToday N)
  unfolding today_from
  today_by_zone snapshot = today_from snapshot.zones []

  abbrev IsOther : ℕ → ZoneFigures N → Type 0
  IsOther id z = (z.zone_id == id) ≡ false

  set_figure-other :
      (id k : ℕ) (d : Option (FireWeatherIndices N)) (out : List (ℕ × FireDangerToday N))
      → (k == id) ≡ false
      → find id (set_figure k d out) ≡ find id out
  set_figure-other id k none out h = refl
  set_figure-other id k (some d) out h = rw (find-put id k (figure d) out, h)

  today_from-other :
      (id : ℕ) (zs : List (ZoneFigures N)) (out : List (ℕ × FireDangerToday N))
      → All (IsOther id) zs
      → find id (today_from zs out) ≡ find id out
  unfolding today_from
  today_from-other id [] out h = refl
  today_from-other id (z ∷ zs) out h =
      today_from-other id zs _ h.1 ∙ set_figure-other id z.zone_id (day_of_today z) out h.0

  set_figure-own :
      (id : ℕ) (d : Option (FireWeatherIndices N)) (out : List (ℕ × FireDangerToday N))
      → find id out ≡ none
      → find id (set_figure id d out) ≡ figure_of d
  set_figure-own id none out h = h
  set_figure-own id (some d) out h = find-put id id (figure d) out ∙ own id (figure d) (find id out)
    where
      own :
          (id : ℕ) (v : FireDangerToday N) (o : Option (FireDangerToday N))
          → (if id == id then some v else o) ≡ some v
      own id v o = ground arith

  today_from-own :
      (before after : List (ZoneFigures N)) (z : ZoneFigures N) (out : List (ℕ × FireDangerToday N))
      → All (IsOther z.zone_id) before
      → All (IsOther z.zone_id) after
      → find z.zone_id out ≡ none
      → find z.zone_id (today_from (before ++ (z ∷ after)) out) ≡ figure_of (day_of_today z)
  unfolding today_from
  today_from-own [] after z out hb ha h =
      today_from-other z.zone_id after _ ha ∙ set_figure-own z.zone_id (day_of_today z) out h
  today_from-own (b ∷ bs) after z out hb ha h =
      today_from-own bs after z (set_figure b.zone_id (day_of_today b) out) hb.1 ha
        (set_figure-other z.zone_id b.zone_id (day_of_today b) out hb.0 ∙ h)

  -- The list of zones shows beside each zone the figure of its own day today in the snapshot, if the
  -- snapshot has one, and nothing else, when the zones of the snapshot have different ids.
  pub today_by_zone-figure :
      (generated_at : Option String) (before after : List (ZoneFigures N)) (z : ZoneFigures N)
      → All (IsOther z.zone_id) before
      → All (IsOther z.zone_id) after
      → find z.zone_id (
          today_by_zone (record {
            available = true;
            generated_at = generated_at;
            zones = before ++ (z ∷ after);
          }))
        ≡ figure_of (day_of_today z)
  unfolding today_by_zone find
  today_by_zone-figure generated_at before after z hb ha =
      today_from-own before after z [] hb ha refl
