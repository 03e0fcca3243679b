-- ===== src/Configuration.antt =====
-- backend/src/config/environment.ts: the environment of the API, read and checked once. A number is
-- in thousandths; `trim`, `toLowerCase`, `Number` (`none` is what is not finite) and `parseInt` are
-- parameters.
pub mod Problems
pub mod Bounds
use open_fire_watch.Base.{
  ℕ, ◌+◌, ◌*◌, ◌≡◌, String, Bool, true, false, ◌||◌, not, Option, none, some, List, [], ◌∷◌, ◌++◌,
  map, keep, any, ◌==◌, if◌then◌else◌, str_eq,
}
use open_fire_watch.Base.Int.{ℤ, pos, ltb_ℤ}
use open_fire_watch.Base.Text.{Text, codes, text_eq}
use open_fire_watch.Base.Tried.{Tried, ok, thrown}
use open_fire_watch.Evaluation.Level.{units}
use open_fire_watch.Ingestion.Sources.{split, is_filled}
use open_fire_watch.Configuration.Problems.{Checked, Problem, ◌>>=◌, pure, report}

pub record Language : Type 0 where
  pub trim : Text → Text
  pub lower : Text → Text
  pub to_number : Text → Option ℤ
  pub parse_int : Text → Option ℤ

pub record ApiConfig : Type 0 where
  pub port : ℤ
  pub cors_origins : List Text
  pub public_url : Text

pub record DatabaseConfig : Type 0 where
  pub host : Text
  pub port : ℤ
  pub name : Text
  pub user : Text
  pub password : Option Text
  pub pool_size : ℤ

pub record RedisConfig : Type 0 where
  pub host : Text
  pub port : ℤ
  pub db : ℤ

pub record AuthConfig : Type 0 where
  pub operator_api_key : Option Text
  pub sensor_ingest_token : Option Text

pub record SensorsConfig : Type 0 where
  pub max_age_minutes : ℤ
  pub alert_temperature_c : ℤ
  pub alert_rise_c : ℤ
  pub alert_cooldown_hours : ℤ

pub data Locale : Type 0 where
  de en : Locale

pub record NotificationsConfig : Type 0 where
  pub language : Locale
  pub min_severity : Text
  pub escalate_minutes : ℤ
  pub telegram_bot_token : Option Text
  pub telegram_chat_id : Option Text
  pub webhook_url : Option Text
  pub webhook_secret : Option Text

pub record AppConfig : Type 0 where
  pub api : ApiConfig
  pub database : DatabaseConfig
  pub redis : RedisConfig
  pub auth : AuthConfig
  pub sensors : SensorsConfig
  pub notifications : NotificationsConfig
  pub warn_horizon_hours : ℤ

abbrev pub is_no_port : ℤ → Bool
is_no_port port = ltb_ℤ port (pos 1) || ltb_ℤ (pos 65535) port

-- A port as a number like the others; it is positive.
abbrev pub in_thousandths : ℤ → ℤ
in_thousandths (pos n) = units n
in_thousandths z = z

module _ (js : Language) (env : String → Option Text) where
  -- `env[key]?.trim()`; an absent variable reads as the empty text, which counts as absent.
  abbrev pub raw : String → Text
  raw key = elim (env key) [ none ↦ [] | some value ↦ js.trim value ]

  abbrev pub outside : String → ℤ → Option ℤ → Option ℤ → List Problem
  outside key value min max =
      elim min [ none ↦ [] | some m ↦ if ltb_ℤ value m then Problem.below key value m ∷ [] else [] ]
      ++ elim max [
        | none ↦ []
        | some m ↦ if ltb_ℤ m value then Problem.above key value m ∷ [] else []
      ]

  abbrev pub checked : String → Text → ℤ → Option ℤ → Option ℤ → Option ℤ → Checked ℤ
  checked key text fallback min max none = report (Problem.not_a_number key text ∷ []) fallback
  checked key text fallback min max (some value) = report (outside key value min max) value

  abbrev pub on_text : Text → ℤ → (Text → Checked ℤ) → Checked ℤ
  on_text [] fallback f = pure fallback
  on_text (c ∷ s) fallback f = f (c ∷ s)

  unfoldable pub num : String → ℤ → Option ℤ → Option ℤ → Checked ℤ
  num key fallback min max =
      on_text (raw key) fallback (λ text. checked key text fallback min max (js.to_number text))

  abbrev or_text : Text → Text → Text
  or_text [] fallback = fallback
  or_text (c ∷ s) fallback = c ∷ s

  abbrev pub str : String → Text → Text
  str key fallback = or_text (raw key) fallback

  abbrev given : Text → Option Text
  given [] = none
  given (c ∷ s) = some (c ∷ s)

  abbrev pub optional : String → Option Text
  optional key = given (raw key)

  -- `split(':').pop()`
  abbrev pub last_segment : Text → Text
  last_segment [] = []
  last_segment (c ∷ s) =
      let rest = last_segment s in
      if any (λ d. d == b':') s then rest else if c == b':' then s else c ∷ s

  abbrev pub usable_port : Text → Option ℤ → Checked ℤ
  usable_port text none = report (Problem.no_port text ∷ []) (units 8000)
  usable_port text (some port) =
      if is_no_port port
      then report (Problem.no_port text ∷ []) (units 8000)
      else pure (in_thousandths port)

  unfoldable pub parse_port : Checked ℤ
  parse_port =
      on_text (raw "API_PORT") (units 8000)
        (λ text. usable_port text (js.parse_int (last_segment text)))

  abbrev cors_origins : List Text
  cors_origins =
      keep is_filled (map js.trim (split (str "CORS_ORIGINS" (codes "http://localhost:4200"))))

  abbrev language : Locale
  language = if text_eq (js.lower (str "NOTIFY_LANGUAGE" (codes "de"))) (codes "en") then en else de

  -- Every variable is read, whatever the others hold.
  unfoldable pub read_config : Checked AppConfig
  unfolding split parse_port num
  read_config = do
    port ← parse_port
    database_port ← num "POSTGRES_PORT" (units 5432) (some (units 1)) (some (units 65535))
    pool_size ← num "POSTGRES_POOL_SIZE" (units 10) (some (units 1)) (some (units 100))
    redis_port ← num "REDIS_PORT" (units 6379) (some (units 1)) (some (units 65535))
    db ← num "REDIS_DB" (units 0) (some (units 0)) (some (units 15))
    max_age ← num "SENSOR_MAX_AGE_MINUTES" (units 90) (some (units 1)) none
    temperature ← num "SENSOR_ALERT_TEMPERATURE_C" (units 50) none none
    rise ← num "SENSOR_ALERT_RISE_C" (units 15) (some (units 0)) none
    cooldown ← num "SENSOR_ALERT_COOLDOWN_HOURS" (units 6) (some (units 0)) none
    escalate ← num "NOTIFY_ESCALATE_MINUTES" (units 15) (some (units 0)) none
    horizon ← num "FORECAST_WARN_HOURS" (units 72) (some (units 1)) none
    pure (record {
      api = record {
        port = port;
        cors_origins = cors_origins;
        public_url = str "PUBLIC_URL" (codes "https://openfirewatch.org");
      };
      database = record {
        host = str "POSTGRES_HOST" (codes "db");
        port = database_port;
        name = str "POSTGRES_DB" (codes "openfirewatch");
        user = str "POSTGRES_USER" (codes "openfirewatch");
        password = optional "POSTGRES_PASSWORD";
        pool_size = pool_size;
      };
      redis = record { host = str "REDIS_HOST" (codes "redis"); port = redis_port; db = db };
      auth = record {
        operator_api_key = optional "OPERATOR_API_KEY";
        sensor_ingest_token = optional "SENSOR_INGEST_TOKEN";
      };
      sensors = record {
        max_age_minutes = max_age;
        alert_temperature_c = temperature;
        alert_rise_c = rise;
        alert_cooldown_hours = cooldown;
      };
      notifications = record {
        language = language;
        min_severity = js.lower (str "NOTIFY_MIN_SEVERITY" (codes "warning"));
        escalate_minutes = escalate;
        telegram_bot_token = optional "NOTIFY_TELEGRAM_BOT_TOKEN";
        telegram_chat_id = optional "NOTIFY_TELEGRAM_CHAT_ID";
        webhook_url = optional "NOTIFY_WEBHOOK_URL";
        webhook_secret = optional "NOTIFY_WEBHOOK_SECRET";
      };
      warn_horizon_hours = horizon;
    })

  abbrev pub settled : Checked AppConfig → Tried (List Problem) AppConfig
  settled c = elim c.problems [ [] ↦ ok c.value | p ∷ ps ↦ thrown (p ∷ ps) ]

  unfoldable pub load_config : Tried (List Problem) AppConfig
  unfolding read_config
  load_config = settled read_config
