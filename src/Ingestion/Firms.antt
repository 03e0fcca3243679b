-- ===== src/Ingestion/Firms.antt =====
-- workers/src/clients/firms.client.ts: one request to FIRMS, and what its rows become. The answer of
-- the service and the language's `Number` and `Date` are parameters.
use open_fire_watch.Base.{
  ℕ, String, Bool, ◌||◌, not, Option, none, some, List, [], ◌∷◌, ◌++◌, ltb, any, if◌then◌else◌,
  str_eq,
}
use open_fire_watch.Base.Text.{Text}
use open_fire_watch.Base.Tried.{Tried, ok, thrown}
use open_fire_watch.Base.Int.{ℤ}
use open_fire_watch.Store.{Detection}
use open_fire_watch.Backfill.Plan.{firms_max_day_range}

-- What the request throws; the texts are those that come from outside.
pub data FirmsError : Type 0 where
  bad_day_range : ℕ → FirmsError
  http_status : ℕ → Text → FirmsError
  empty_body : FirmsError
  not_csv : Text → FirmsError
  no_connection : Text → FirmsError

-- A row of the CSV, by the name of the column.
abbrev pub Row : Type 0
Row = String → Option Text

pub data Response : Type 0 where
  unreachable : Text → Response
  refused : ℕ → Text → Response
  no_body blank : Response
  csv : List String → Text → List Row → Response

pub record Parsers : Type 0 where
  -- `Number`, where it is finite
  pub to_number : Text → Option ℤ
  pub degrees : Text → Option ℤ
  -- the instant of `${date}T${hh}:${mm}:00Z`
  pub timestamp : Option Text → Option Text → ℕ
  pub name_of : Text → String

-- `value || null`
abbrev filled : Option Text → Option Text
filled none = none
filled (some []) = none
filled (some (c ∷ s)) = some (c ∷ s)

module _ (parsers : Parsers) where
  -- `Number(value)` of a column that is missing is not a number.
  abbrev pub to_number_or_null : Option Text → Option ℤ
  to_number_or_null none = none
  to_number_or_null (some t) = parsers.to_number t

  abbrev coordinate : Option Text → Option ℤ
  coordinate none = none
  coordinate (some t) = parsers.degrees t

  -- `a ?? b`
  abbrev or_column : Option Text → Option Text → Option Text
  or_column none b = b
  or_column (some a) b = some a

  abbrev named : Option Text → Option String
  named none = none
  named (some t) = some (parsers.name_of t)

  abbrev row_at : String → Row → Option ℤ → Option ℤ → List Detection
  row_at source row (some latitude) (some longitude) =
      record {
        source = source;
        satellite = named (filled (row "satellite"));
        geom = record { longitude = longitude; latitude = latitude };
        acquired_at = parsers.timestamp (row "acq_date") (row "acq_time");
        brightness_k = to_number_or_null (or_column (row "bright_ti4") (row "brightness"));
        frp_mw = to_number_or_null (row "frp");
        confidence = filled (row "confidence");
      }
      ∷ []
  row_at source row _ _ = []

  -- A row without a place is skipped.
  unfoldable pub detections_of : String → List Row → List Detection
  detections_of source [] = []
  detections_of source (row ∷ rows) =
      row_at source row (coordinate (row "latitude")) (coordinate (row "longitude"))
      ++ detections_of source rows

  abbrev has_column : String → List String → Bool
  has_column name header = any (str_eq name) header

  abbrev read : String → Response → Tried FirmsError (List Detection)
  read source (unreachable message) = thrown (no_connection message)
  read source (refused status detail) = thrown (http_status status detail)
  read source no_body = thrown empty_body
  -- An empty text has no header that could be refused.
  read source blank = ok []
  read source (csv header start rows) =
      if not (has_column "latitude" header) || not (has_column "longitude" header)
      then thrown (not_csv start)
      else ok (detections_of source rows)

  unfoldable pub fetch_firms_area : String → ℕ → Response → Tried FirmsError (List Detection)
  unfolding detections_of
  fetch_firms_area source day_range response =
      if ltb day_range 1 || ltb firms_max_day_range day_range
      then thrown (bad_day_range day_range)
      else read source response
