-- ===== src/OpenMeteo.antt =====
-- workers/src/clients: the answers of Open-Meteo, as hours of weather (forecast.client.ts,
-- archive.client.ts and fire-weather.client.ts). The service is a parameter. A fraction is in
-- billionths, and a measured number in thousandths.
pub mod Hours
use open_fire_watch.Base.{
  ℕ, ◌+◌, ◌*◌, ◌/◌, ◌%◌, String, Bool, true, false, ◌&&◌, not, Option, none, some, List, [], ◌∷◌,
  ◌++◌, ltb, ◌==◌, if◌then◌else◌, or_else,
}
use open_fire_watch.Base.Int.{ℤ, pos, negsuc, sub_ℕ}
use open_fire_watch.Base.Text.{Text}
use open_fire_watch.Base.Tried.{Tried, ok, thrown}
use open_fire_watch.FireDanger.Daily.{FireWeatherHour}

pub data ClientError : Type 0 where
  unreachable : Text → ClientError
  http_status : ℕ → ClientError
  reported : Option Text → ClientError
  missing_variables : ClientError

-- The part of the answer that a client reads; a column may be shorter than the times.
pub record Answer (C : Type 0) : Type 0 where
  pub status : ℕ
  pub error : Bool
  pub reason : Option Text
  pub utc_offset_seconds : Option ℤ
  pub time : Option (List Text)
  pub columns : Option C

-- One hour of the forecast or the archive.
pub record WeatherHour : Type 0 where
  pub at : Text
  pub temperature_c : ℤ
  pub soil_moisture_pct : ℤ

-- `Math.round(seconds / 60)` without its sign.
abbrev pub whole_minutes : ℤ → ℕ
whole_minutes (pos n) = (n + 30) / 60
whole_minutes (negsuc n) = (n + 30) / 60

abbrev pub is_west : ℤ → Bool
is_west (pos n) = false
is_west (negsuc n) = true

-- `String(n).padStart(2, '0')`, where `print` is the decimal notation.
abbrev pub pad : (ℕ → Text) → ℕ → Text
pad print n = if ltb n 100 then (b'0' + n / 10) ∷ (b'0' + n % 10) ∷ [] else print n

unfoldable pub format_offset : (ℕ → Text) → ℤ → Text
format_offset print seconds =
    let total = whole_minutes seconds in
    (if is_west seconds then b'-' else b'+')
    ∷ (pad print (total / 60) ++ (b':' ∷ pad print (total % 60)))

-- `Math.round(fraction * 1000) / 10`: a fraction in billionths as a percentage in thousandths.
abbrev pub percent : ℤ → ℤ
percent (pos n) = pos ((n + 500000) / 1000000 * 100)
percent (negsuc n) = sub_ℕ 0 ((n + 500000) / 1000000 * 100)

-- `column[i]`, where what lies past the end is missing, and the column from `i + 1`.
abbrev pub cell : {A : Type 0} → List (Option A) → Option A
cell [] = none
cell (x ∷ xs) = x

abbrev pub beyond : {A : Type 0} → List (Option A) → List (Option A)
beyond [] = []
beyond (x ∷ xs) = xs

abbrev pub weather_hour : Text → Option ℤ → Option ℤ → List WeatherHour
weather_hour at (some temperature) (some fraction) =
    record { at = at; temperature_c = temperature; soil_moisture_pct = percent fraction } ∷ []
weather_hour at _ _ = []

-- The loop of the forecast and the archive over the times.
unfoldable pub weather_hours :
    Text → List Text → List (Option ℤ) → List (Option ℤ) → List WeatherHour
weather_hours offset [] temperatures moisture = []
weather_hours offset (t ∷ ts) temperatures moisture =
    weather_hour (t ++ offset) (cell temperatures) (cell moisture)
    ++ weather_hours offset ts (beyond temperatures) (beyond moisture)

module _ {N : Type 0} where
  abbrev fire_weather_hour :
      Text → Option N → Option N → Option N → Option N → List (FireWeatherHour N)
  fire_weather_hour at (some t) (some rh) (some w) (some p) =
      record {
        at = at;
        temperature_c = t;
        relative_humidity_pct = rh;
        wind_speed_kmh = w;
        precipitation_mm = p;
      }
      ∷ []
  fire_weather_hour at _ _ _ _ = []

  -- The loop of the fire weather over its four columns.
  unfoldable pub fire_weather_hours :
      Text
      → List Text
      → List (Option N)
      → List (Option N)
      → List (Option N)
      → List (Option N)
      → List (FireWeatherHour N)
  fire_weather_hours offset [] ts rhs ws ps = []
  fire_weather_hours offset (at ∷ rest) ts rhs ws ps =
      fire_weather_hour (at ++ offset) (cell ts) (cell rhs) (cell ws) (cell ps)
      ++ fire_weather_hours offset rest (beyond ts) (beyond rhs) (beyond ws) (beyond ps)

-- `response.ok`
abbrev pub is_ok : ℕ → Bool
is_ok status = ltb 199 status && ltb status 300

-- What a client makes of an answer: a failed request and a bad status first, then an error that the
-- service reports, then missing columns.
module _ {C H : Type 0} where
  abbrev columns_of :
      (Text → List Text → C → List H)
      → Text
      → Option (List Text)
      → Option C
      → Tried ClientError (List H)
  columns_of hours offset (some time) (some columns) = ok (hours offset time columns)
  columns_of hours offset _ _ = thrown missing_variables

  abbrev pub read_answer :
      (ℕ → Text)
      → Bool
      → (Text → List Text → C → List H)
      → Tried Text (Answer C)
      → Tried ClientError (List H)
  read_answer print reads_error hours (thrown e) = thrown (unreachable e)
  read_answer print reads_error hours (ok a) =
      if not (is_ok a.status)
      then thrown (http_status a.status)
      else if reads_error && a.error
      then thrown (reported a.reason)
      else columns_of hours (format_offset print (or_else a.utc_offset_seconds (pos 0))) a.time
          a.columns

abbrev two_columns : Text → List Text → List (Option ℤ) × List (Option ℤ) → List WeatherHour
two_columns offset time (temperatures, moisture) = weather_hours offset time temperatures moisture

-- The forecast's client does not look at `error`.
unfoldable pub fetch_forecast :
    (ℕ → Text)
    → Tried Text (Answer (List (Option ℤ) × List (Option ℤ)))
    → Tried ClientError (List WeatherHour)
unfolding weather_hours format_offset
fetch_forecast print answer = read_answer print false two_columns answer

unfoldable pub fetch_archive :
    (ℕ → Text)
    → Tried Text (Answer (List (Option ℤ) × List (Option ℤ)))
    → Tried ClientError (List WeatherHour)
unfolding weather_hours format_offset
fetch_archive print answer = read_answer print true two_columns answer

pub record FireColumns (N : Type 0) : Type 0 where
  pub temperature : List (Option N)
  pub humidity : List (Option N)
  pub wind : List (Option N)
  pub precipitation : List (Option N)

unfoldable pub fetch_fire_weather :
    {N : Type 0}
    → (ℕ → Text)
    → Tried Text (Answer (FireColumns N))
    → Tried ClientError (List (FireWeatherHour N))
unfolding fire_weather_hours format_offset
fetch_fire_weather print answer =
    read_answer print true
      (λ offset time c.
        fire_weather_hours offset time c.temperature c.humidity c.wind c.precipitation)
      answer
