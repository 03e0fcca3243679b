-- ===== src/FireDanger/Refresh.antt =====
-- workers/src/ingestion/fire-danger.task.ts: one refresh of the fire danger of every zone. The
-- weather service, the database and Redis are parameters that may throw; `today` is the local date.
pub mod Isolation
use open_fire_watch.Base.{
  ℕ, zero, suc, ◌+◌, ◌-◌, ◌≡◌, String, Bool, true, false, ◌&&◌, ◌||◌, Option, none, some, List, [],
  ◌∷◌, ◌++◌, map, keep, length, leb, ltb, ◌==◌, any, if◌then◌else◌,
}
use open_fire_watch.Base.Text.{Text, text_eq}
use open_fire_watch.Base.Tried.{Tried, ok, thrown}
use open_fire_watch.FireDanger.Numbers.{Arithmetic, ◌⊗◌, ◌⊘◌, num}
use open_fire_watch.FireDanger.Codes.{MoistureCodes, initial_codes}
use open_fire_watch.FireDanger.Indices.{FireWeatherIndices, compute_fire_weather_series}
use open_fire_watch.FireDanger.Daily.{FireWeatherHour, daily_inputs_from_hourly}

pub record ZonePoint (N : Type 0) : Type 0 where
  pub id : ℕ
  pub name_de : String
  pub name_en : String
  pub hazard_type : String
  pub latitude : N
  pub longitude : N

pub record ZoneFigures (N : Type 0) : Type 0 where
  pub zone_id : ℕ
  pub name_de : String
  pub name_en : String
  pub hazard_type : String
  pub today : Text
  pub days : List (FireWeatherIndices N)

-- A row of `fire_danger_history`, with its primary key (zone_id, day).
pub record HistoryRow (N : Type 0) : Type 0 where
  pub zone_id : ℕ
  pub figures : FireWeatherIndices N

pub data LogLine : Type 0 where
  no_zones : LogLine
  not_stored not_computed : ℕ → Text → LogLine

pub data RefreshError : Type 0 where
  no_figures : RefreshError
  redis_error : Text → RefreshError

-- What a refresh changes: the table, the snapshot in Redis and the lines of the job's log.
pub record Published (N : Type 0) : Type 0 where
  pub history : List (HistoryRow N)
  pub snapshot : Option (List (ZoneFigures N))
  pub log : List LogLine

-- `hours` is `fetchFireWeather`; `store_fails` is the database's answer to the rows of a zone.
pub record Environment (N : Type 0) : Type 0 where
  pub today : Text
  pub fetch : N → N → Tried Text (List (FireWeatherHour N))
  pub store_fails : ℕ → Option Text
  pub redis_fails : Option Text

-- `a <= b` of two texts.
abbrev pub text_leb : Text → Text → Bool
text_leb [] t = true
text_leb (c ∷ s) [] = false
text_leb (c ∷ s) (d ∷ t) = ltb c d || (c == d && text_leb s t)

-- `Math.max(0, index - 1)`, where `none` is the index -1.
abbrev pub from_index : Option ℕ → ℕ
from_index none = 0
from_index (some zero) = 0
from_index (some (suc i)) = i

module _ {N : Type 0} where
  -- `findIndex((d) => d.date >= today)`: `none` is -1.
  abbrev pub find_index : Text → List (FireWeatherIndices N) → Option ℕ
  find_index today [] = none
  find_index today (d ∷ ds) =
      let rest = find_index today ds in
      if text_leb today d.date then some 0 else elim rest [ none ↦ none | some i ↦ some (suc i) ]

  abbrev pub drop : ℕ → List (FireWeatherIndices N) → List (FireWeatherIndices N)
  drop zero ds = ds
  drop (suc n) [] = []
  drop (suc n) (d ∷ ds) = drop n ds

  -- The days that travel in the snapshot.
  unfoldable pub days_from : Text → List (FireWeatherIndices N) → List (FireWeatherIndices N)
  days_from today series = drop (from_index (find_index today series)) series

  -- ON CONFLICT (zone_id, day) DO UPDATE
  abbrev pub is_row : ℕ → FireWeatherIndices N → HistoryRow N → Bool
  is_row zone d r = r.zone_id == zone && text_eq r.figures.date d.date

  unfoldable pub upsert : ℕ → FireWeatherIndices N → List (HistoryRow N) → List (HistoryRow N)
  upsert zone d [] = record { zone_id = zone; figures = d } ∷ []
  upsert zone d (r ∷ rs) =
      let rest = upsert zone d rs in
      if is_row zone d r then record { zone_id = zone; figures = d } ∷ rs else r ∷ rest

  unfoldable pub upsert_all :
      ℕ → List (FireWeatherIndices N) → List (HistoryRow N) → List (HistoryRow N)
  unfolding upsert
  upsert_all zone [] rows = rows
  upsert_all zone (d ∷ ds) rows = upsert_all zone ds (upsert zone d rows)

  -- `store`, which does nothing on no rows, and what is logged if it throws.
  abbrev pub stored : ℕ → Option Text → List (FireWeatherIndices N) → Published N → Published N
  stored zone fails [] p = p
  stored zone none (d ∷ ds) p = record p { history = upsert_all zone (d ∷ ds) p.history }
  stored zone (some e) (d ∷ ds) p = record p { log = not_stored zone e ∷ p.log }

module _ {N : Type 0} ⦃R : Arithmetic N⦄ where
  -- `Math.round(n * 10) / 10`
  abbrev r1 : N → N
  r1 n = R.round (n ⊗ num 10 0) ⊘ num 10 0

  unfoldable pub round : FireWeatherIndices N → FireWeatherIndices N
  round d = record d {
    codes = record { ffmc = r1 d.codes.ffmc; dmc = r1 d.codes.dmc; dc = r1 d.codes.dc };
    isi = r1 d.isi;
    bui = r1 d.bui;
    fwi = r1 d.fwi;
  }

  abbrev pub series_of : List (FireWeatherHour N) → List (FireWeatherIndices N)
  series_of hours = compute_fire_weather_series (daily_inputs_from_hourly hours) initial_codes

  abbrev pub figures_of : Text → ZonePoint N → List (FireWeatherIndices N) → ZoneFigures N
  figures_of today zone series = record {
    zone_id = zone.id;
    name_de = zone.name_de;
    name_en = zone.name_en;
    hazard_type = zone.hazard_type;
    today = today;
    days = map round (days_from today series);
  }

  module _ (env : Environment N) where
    -- One zone: what it adds to the results, and what it does to the table and the log.
    abbrev pub zone_results :
        ZonePoint N → Tried Text (List (FireWeatherHour N)) → List (ZoneFigures N)
    zone_results zone (thrown e) = []
    zone_results zone (ok hours) = figures_of env.today zone (series_of hours) ∷ []

    abbrev pub zone_effect :
        ZonePoint N → Tried Text (List (FireWeatherHour N)) → Published N → Published N
    zone_effect zone (thrown e) p = record p { log = not_computed zone.id e ∷ p.log }
    zone_effect zone (ok hours) p =
        stored zone.id (env.store_fails zone.id)
          (keep (λ d. text_leb d.date env.today) (series_of hours)) p

    -- The loop over the zones; the results stand in the order of the zones.
    unfoldable pub each_zone : List (ZonePoint N) → Published N → List (ZoneFigures N) × Published N
    each_zone [] p = ([], p)
    each_zone (zone ∷ zones) p =
        let answer = env.fetch zone.latitude zone.longitude in
        let rest = each_zone zones (zone_effect zone answer p) in
        (zone_results zone answer ++ rest.0, rest.1)

    -- After the loop: nothing to publish is an error; else the snapshot replaces the old one.
    abbrev pub published :
        List (ZoneFigures N) → Published N → Option Text → Tried RefreshError Unit × Published N
    published [] p fails = (thrown no_figures, p)
    published (r ∷ rs) p none = (ok tt, record p { snapshot = some (r ∷ rs) })
    published (r ∷ rs) p (some e) = (thrown (redis_error e), p)

    unfoldable pub refresh_fire_danger :
        List (ZonePoint N) → Published N → Tried RefreshError Unit × Published N
    unfolding each_zone
    refresh_fire_danger [] p = (ok tt, record p { log = no_zones ∷ p.log })
    refresh_fire_danger (zone ∷ zones) p =
        let after = each_zone (zone ∷ zones) p in published after.0 after.1 env.redis_fails
