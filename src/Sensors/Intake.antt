-- ===== src/Sensors/Intake.antt =====
-- backend/src/sensors: what the intake makes of a request body (sensor-reading.dto.ts and
-- sensors.controller.ts), and the guard in front of it (sensor-ingest.guard.ts). The library that
-- validates texts, the clock and the digest are parameters.
pub mod Loop
use open_fire_watch.Base.{
  ℕ, ◌+◌, String, Bool, true, false, ◌&&◌, ◌||◌, not, Option, none, some, List, [], ◌∷◌, ◌++◌,
  if◌then◌else◌, any, str_eq, or_try,
}
use open_fire_watch.Base.Int.{ℤ, leb_ℤ, ltb_ℤ, pos, sub_ℕ, eqb_ℤ}
use open_fire_watch.Base.Text.{Text, text_eq}
use open_fire_watch.Base.Json.{
  Json, Items, null, boolean, number, string, array, object, nil, cons, done, field, get,
}
use open_fire_watch.Store.{Store}
use open_fire_watch.Evaluation.Level.{units}
use open_fire_watch.SensorAlert
use open_fire_watch.Sensors.Registry.{Registry, SensorReading, record_reading}

pub record Texts : Type 0 where
  pub is_short : String → Bool
  pub instant : String → Option ℕ
  -- a number of JSON in thousandths
  pub measured : ℤ → ℤ

-- Whether a value counts as true.
abbrev truthy : Option Json → Bool
truthy none = false
truthy (some null) = false
truthy (some (boolean b)) = b
truthy (some (number n)) = not (eqb_ℤ n (pos 0))
truthy (some (string t)) = not (str_eq t "")
truthy (some _) = true

-- `value?.key`
abbrev get_from : String → Option Json → Option Json
get_from key none = none
get_from key (some value) = get key value

-- `a ?? b`, where null is missing too
abbrev present : Option Json → Option Json
present (some null) = none
present o = o

abbrev or_null : Option Json → Json
or_null none = null
or_null (some value) = value

abbrev is_array : Option Json → Bool
is_array (some (array xs)) = true
is_array _ = false

abbrev is_string : Option Json → Bool
is_string (some (string t)) = true
is_string _ = false

abbrev items_of : Option Json → Items
items_of (some (array xs)) = xs
items_of _ = nil

-- The reading that an uplink of the network server carries, under the server's own time.
abbrev pub from_uplink : String → Json → Json
from_uplink now body =
    let message = get "uplink_message" body in
    let payload = get_from "decoded_payload" message in
    let received =
      or_try (present (get_from "received_at" message)) (present (get "received_at" body)) in
    object (
      field "deviceId" (or_null (get_from "device_id" (get "end_device_ids" body))) (
        field "observedAt" (or_null (or_try received (some (string now)))) (
          field "temperatureC" (or_null (get_from "temperatureC" payload)) (
            field "soilMoisturePct" (or_null (get_from "soilMoisturePct" payload)) (
              field "relativeHumidityPct" (or_null (get_from "relativeHumidityPct" payload))
                (field "batteryPct" (or_null (get_from "batteryPct" payload)) done))))))

-- `normaliseIntakeBody`: the raw readings, or null.
unfoldable pub normalise_intake_body : String → Json → Option Items
normalise_intake_body now body =
    if is_array (get "readings" body)
    then some (items_of (get "readings" body))
    else if is_string (get "deviceId" body)
    then some (cons body nil)
    else if truthy (get_from "device_id" (get "end_device_ids" body))
        && truthy (get_from "decoded_payload" (get "uplink_message" body))
    then some (cons (from_uplink now body) nil)
    else none

-- `@IsOptional`, `@IsNumber`, `@Min` and `@Max`: `none` is a violation.
abbrev optional_number : Texts → ℤ → ℤ → Option Json → Option (Option ℤ)
optional_number texts lo hi none = some none
optional_number texts lo hi (some null) = some none
optional_number texts lo hi (some (number n)) =
    if leb_ℤ lo (texts.measured n) && leb_ℤ (texts.measured n) hi
    then some (some (texts.measured n))
    else none
optional_number texts lo hi (some _) = none

abbrev device_text : Texts → Option Json → Option String
device_text texts (some (string t)) = if not (str_eq t "") && texts.is_short t then some t else none
device_text texts _ = none

abbrev instant_of : Texts → Option Json → Option ℕ
instant_of texts (some (string t)) = texts.instant t
instant_of texts _ = none

infixl 5 ◌>>=◌
abbrev ◌>>=◌ : {A B : Type 0} → Option A → (A → Option B) → Option B
none >>= f = none
some a >>= f = f a

-- `validate`: the reading, or none if a field breaks its rule.
unfoldable pub reading_of : Texts → Json → Option SensorReading
reading_of texts raw = do
  device ← device_text texts (get "deviceId" raw)
  at ← instant_of texts (get "observedAt" raw)
  temperature ← optional_number texts (sub_ℕ 0 90000) (units 150) (get "temperatureC" raw)
  soil ← optional_number texts (units 0) (units 100) (get "soilMoisturePct" raw)
  humidity ← optional_number texts (units 0) (units 100) (get "relativeHumidityPct" raw)
  battery ← optional_number texts (units 0) (units 100) (get "batteryPct" raw)
  some (record {
    device_id = device;
    observed_at = at;
    temperature_c = temperature;
    soil_moisture_pct = soil;
    relative_humidity_pct = humidity;
    battery_pct = battery;
  })

pub data IntakeAnswer : Type 0 where
  bad_request : IntakeAnswer
  taken : ℕ → List String → IntakeAnswer

abbrev with_unknown : String → List String → List String
with_unknown device unknown =
    if any (str_eq device) unknown then unknown else unknown ++ (device ∷ [])

module _ (texts : Texts) (env : SensorAlert.Environment) (fails : SensorAlert.Stage → Bool) where
  -- The loop of the controller: an invalid reading ends it, what was recorded before stays.
  unfoldable pub intake :
      ℕ → List String → Items → Registry → Store → IntakeAnswer × Registry × Store
  intake accepted unknown nil g s = (taken accepted unknown, g, s)
  intake accepted unknown (cons raw rest) g s = elim (reading_of texts raw) [
    | none ↦ (bad_request, g, s)
    | some dto ↦
        let (is_known, g', s') = record_reading env fails dto g s in
        elim is_known [
          | true ↦ intake (accepted + 1) unknown rest g' s'
          | false ↦ intake accepted (with_unknown dto.device_id unknown) rest g' s'
        ]
  ]

  abbrev pub intake_items : Option Items → Registry → Store → IntakeAnswer × Registry × Store
  intake_items none g s = (bad_request, g, s)
  intake_items (some nil) g s = (bad_request, g, s)
  intake_items (some (cons raw rest)) g s = intake 0 [] (cons raw rest) g s

  unfoldable pub ingest : String → Json → Registry → Store → IntakeAnswer × Registry × Store
  unfolding intake
  ingest now body g s = intake_items (normalise_intake_body now body) g s

-- `canActivate`, and `matches` on the digests.
pub data GuardAnswer : Type 0 where
  allowed unavailable unauthorized : GuardAnswer

abbrev pub is_filled : Text → Bool
is_filled [] = false
is_filled (c ∷ s) = true

abbrev pub presented : (Text → Text) → (Text → Text) → Option Text → Option Text → Option Text
presented trim without_bearer (some token) authorization = some (trim token)
presented trim without_bearer none (some value) = some (trim (without_bearer value))
presented trim without_bearer none none = none

abbrev pub check_token : (Text → Text) → Text → Option Text → GuardAnswer
check_token digest configured none = unauthorized
check_token digest configured (some token) =
    if not (is_filled token) || not (text_eq (digest token) (digest configured))
    then unauthorized
    else allowed

unfoldable pub can_activate :
    (Text → Text) → (Text → Text) → (Text → Text) → Text → Option Text → Option Text → GuardAnswer
can_activate trim without_bearer digest configured token authorization =
    if not (is_filled configured)
    then unavailable
    else check_token digest configured (presented trim without_bearer token authorization)
