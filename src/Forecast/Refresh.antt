-- ===== src/Forecast/Refresh.antt =====
-- workers/src/ingestion/forecast.task.ts: one refresh of the forecast of every zone. What the client
-- and Redis answer is a parameter.
use open_fire_watch.Base.{ℕ, ◌≡◌, ◌≢◌, refl, String, Option, none, some, List, [], ◌∷◌, ◌++◌}
use open_fire_watch.Base.Text.{Text}
use open_fire_watch.Base.Tried.{Tried, ok, thrown}
use open_fire_watch.Sensors.Current.{Point}
use open_fire_watch.MonitoringArea.{ZonePoint}
use open_fire_watch.OpenMeteo.{WeatherHour, ClientError}

pub record PublishedForecast : Type 0 where
  pub zone_id : ℕ
  pub name_de : Text
  pub name_en : Text
  pub hazard_type : String
  pub place : Point
  pub hours : List WeatherHour

pub data RefreshError : Type 0 where
  no_forecast : RefreshError
  redis_error : Text → RefreshError

-- The key in Redis, and the failures in the job's log.
pub record Published : Type 0 where
  pub snapshot : Option (List PublishedForecast)
  pub log : List (ℕ × ClientError)

abbrev pub forecast_of : ZonePoint → Tried ClientError (List WeatherHour) → List PublishedForecast
forecast_of zone (thrown e) = []
forecast_of zone (ok hours) =
    record {
      zone_id = zone.id;
      name_de = zone.name_de;
      name_en = zone.name_en;
      hazard_type = zone.hazard_type;
      place = zone.place;
      hours = hours;
    }
    ∷ []

abbrev logged :
    ZonePoint
    → Tried ClientError (List WeatherHour)
    → List (ℕ × ClientError)
    → List (ℕ × ClientError)
logged zone (thrown e) log = (zone.id, e) ∷ log
logged zone (ok hours) log = log

module _ (fetch : Point → Tried ClientError (List WeatherHour)) (redis_fails : Option Text) where
  abbrev pub forecasts : List ZonePoint → List PublishedForecast
  forecasts [] = []
  forecasts (z ∷ zs) = forecast_of z (fetch z.place) ++ forecasts zs

  abbrev failures : List ZonePoint → List (ℕ × ClientError) → List (ℕ × ClientError)
  failures [] log = log
  failures (z ∷ zs) log = failures zs (logged z (fetch z.place) log)

  abbrev published : List PublishedForecast → Published → Tried RefreshError Unit × Published
  published [] p = (thrown no_forecast, p)
  published (f ∷ fs) p = elim redis_fails [
    | none ↦ (ok tt, record p { snapshot = some (f ∷ fs) })
    | some e ↦ (thrown (redis_error e), p)
  ]

  unfoldable pub refresh_forecast : List ZonePoint → Published → Tried RefreshError Unit × Published
  refresh_forecast [] p = (ok tt, p)
  refresh_forecast (z ∷ zs) p =
      published (forecasts (z ∷ zs)) (record p { log = failures (z ∷ zs) p.log })

  published-some :
      (fs : List PublishedForecast) (p : Published)
      → redis_fails ≡ none
      → fs ≢ []
      → ((published fs p).0 ≡ ok tt) × ((published fs p).1.snapshot ≡ some fs)
  published-some [] p h k = elim (k refl) [ ]
  published-some (f ∷ fs) p h k = rw h (refl, refl)

  -- If some zone's forecast was fetched and Redis takes the snapshot, the refresh publishes the
  -- forecasts of exactly the zones whose weather was fetched, in their order.
  pub refresh_forecast-forecasts :
      (zones : List ZonePoint) (p : Published)
      → redis_fails ≡ none
      → forecasts zones ≢ []
      → ((refresh_forecast zones p).0 ≡ ok tt)
        × ((refresh_forecast zones p).1.snapshot ≡ some (forecasts zones))
  unfolding refresh_forecast
  refresh_forecast-forecasts [] p h k = elim (k refl) [ ]
  refresh_forecast-forecasts (z ∷ zs) p h k =
      published-some (forecasts (z ∷ zs)) (record p { log = failures (z ∷ zs) p.log }) h k
