-- ===== src/Notifications/Dispatch.antt =====
-- backend/src/notifications/notification.service.ts and notification.model.ts. The wording of a message
-- is left out, and a key is kept by its parts, which its text shows. The answers of the channels, of
-- Redis and of the database are parameters.
pub mod Tries
pub mod Once
use open_fire_watch.Base.{
  ℕ, zero, suc, ◌+◌, ◌*◌, ◌≡◌, String, Bool, true, false, ◌&&◌, not, Option, none, some, List, [],
  ◌∷◌, ◌++◌, map, ltb, leb, ◌==◌, if◌then◌else◌, keep, any, or_else, str_eq,
}
use open_fire_watch.Evaluation.Level.{is_critical}
use open_fire_watch.Store.{AlertPayload}

pub data Kind : Type 0 where
  alert_critical ignition_window ingestion_stalled ingestion_recovered alert_unacknowledged test :
      Kind

pub data Severity : Type 0 where
  critical warning notice : Severity

-- SEVERITY_ORDER, of a severity and of the text of a setting.
abbrev pub severity_order : Severity → ℕ
severity_order notice = 0
severity_order warning = 1
severity_order critical = 2

abbrev pub floor_order : String → Option ℕ
floor_order text =
    if str_eq text "info"
    then some 0
    else if str_eq text "warning"
    then some 1
    else if str_eq text "critical"
    then some 2
    else none

pub data DedupeKey : Type 0 where
  alert_key escalate_key stalled_key recovered_key : ℕ → DedupeKey
  forecast_key : ℕ → ℕ → DedupeKey

abbrev pub key_eq : DedupeKey → DedupeKey → Bool
key_eq (alert_key a) (alert_key b) = a == b
key_eq (escalate_key a) (escalate_key b) = a == b
key_eq (stalled_key a) (stalled_key b) = a == b
key_eq (recovered_key a) (recovered_key b) = a == b
key_eq (forecast_key a s) (forecast_key b t) = a == b && s == t
key_eq _ _ = false

pub record Notification : Type 0 where
  pub kind : Kind
  pub severity : Severity
  pub dedupe_key : DedupeKey

pub data Status : Type 0 where
  sent failed : Status

-- A row of `notification_deliveries`.
pub record Delivery : Type 0 where
  pub kind : Kind
  pub dedupe_key : DedupeKey
  pub channel : String
  pub status : Status
  pub error : Option String

pub record Channel : Type 0 where
  pub name : String
  pub is_configured : Bool

-- A claimed key and the time at which it expires, in milliseconds.
pub record Claim : Type 0 where
  pub key : DedupeKey
  pub expires_at : ℕ

pub record Outbox : Type 0 where
  pub claims : List Claim
  pub deliveries : List Delivery

-- DEDUPE_TTL_SECONDS, in milliseconds.
abbrev pub dedupe_ttl_ms : ℕ
dedupe_ttl_ms = 6 * 60 * 60 * 1000

-- One try for each of RETRY_DELAYS_MS, and one more.
abbrev pub attempts : ℕ
attempts = 3

abbrev pub is_held : DedupeKey → ℕ → Claim → Bool
is_held key now c = key_eq key c.key && ltb now c.expires_at

-- `SET … EX … NX`. Without an answer from Redis the claim is granted, and nothing is stored.
unfoldable pub claim : Bool → DedupeKey → ℕ → List Claim → Bool × List Claim
claim false key now claims = (true, claims)
claim true key now claims =
    if any (is_held key now) claims
    then (false, claims)
    else (true, record { key = key; expires_at = now + dedupe_ttl_ms } ∷ claims)

unfoldable pub meets_severity_floor : String → Severity → Bool
meets_severity_floor floor severity = elim (floor_order floor) [
  | none ↦ true
  | some minimum ↦ leb minimum (severity_order severity)
]

-- The tries of one channel: `send k` is what the k-th answers, `none` for success.
deliver_from : (ℕ → Option String) → ℕ → ℕ → Option String → Status × Option String
deliver_from send zero attempt last = (failed, last)
deliver_from send (suc left) attempt last = elim (send attempt) [
  | none ↦ (sent, none)
  | some error ↦ deliver_from send left (attempt + 1) (some error)
]

unfoldable pub deliver : (ℕ → Option String) → Notification → Channel → Delivery
unfolding deliver_from
deliver send n channel =
    let (status, error) = deliver_from send attempts 0 none in
    record {
      kind = n.kind;
      dedupe_key = n.dedupe_key;
      channel = channel.name;
      status = status;
      error = error;
    }

-- What the surroundings answer while a notification is dispatched.
pub record Surroundings : Type 0 where
  pub min_severity : String
  pub channels : List Channel
  pub redis_answers : Bool
  pub database_answers : Bool
  pub send : Channel → ℕ → Option String
  pub now : ℕ

abbrev pub configured_channels : Surroundings → List Channel
configured_channels env = keep (λ c. c.is_configured) env.channels

abbrev pub is_empty {ℓ} : {A : Type ℓ} → List A → Bool
is_empty [] = true
is_empty (x ∷ xs) = false

-- A record that cannot be written is dropped.
abbrev recorded : Surroundings → List Delivery → List Delivery → List Delivery
recorded env new old = if env.database_answers then new ++ old else old

dispatch : Surroundings → Notification → Outbox → Bool × List Claim → Outbox
dispatch env n box (false, claims) = box
dispatch env n box (true, claims) = record {
  claims = claims;
  deliveries =
      recorded env (map (λ c. deliver (env.send c) n c) (configured_channels env)) box.deliveries;
}

unfoldable pub notify : Surroundings → Notification → Outbox → Outbox
unfolding dispatch deliver
notify env n box =
    if not (meets_severity_floor env.min_severity n.severity)
    then box
    else if is_empty (configured_channels env)
    then box
    else dispatch env n box (claim env.redis_answers n.dedupe_key env.now box.claims)

-- Relay a critical evaluation.
unfoldable pub on_alert : Surroundings → AlertPayload → Outbox → Outbox
unfolding notify
on_alert env alert box =
    if is_critical alert.level
    then notify env
        (record { kind = alert_critical; severity = critical; dedupe_key = alert_key alert.id }) box
    else box
