-- ===== src/Gateway.antt =====
-- backend/src/alerts/alerts.gateway.ts: the relay from the Redis channels to the browsers. What
-- `JSON.parse` makes of a payload is a parameter, in which `ok none` is null; so is the type `T` of
-- the texts of payloads.
pub mod Relay
use text.Mathlib.Text.{starts_with}
use open_fire_watch.Base.{
  ℕ, ◌+◌, String, Bool, true, false, Option, none, some, List, [], ◌∷◌, ◌++◌, if◌then◌else◌, str_eq,
}
use open_fire_watch.Base.Tried.{Tried, ok, thrown}

abbrev pub alerts_channel : String
alerts_channel = "alerts:anomalies"

abbrev pub acknowledgements_channel : String
acknowledgements_channel = "alerts:acknowledgements"

pub record AcknowledgementEvent : Type 0 where
  pub id : ℕ
  pub acknowledged_at : String

pub record Message (T : Type 0) : Type 0 where
  pub channel : String
  pub payload : T

-- `A` is the payload of an alert, of which the relay reads `level`.
module _ (A : Type 0) where
  pub data Emission : Type 0 where
    anomaly_new : Option A → Emission
    alert_critical : A → Emission
    alert_acknowledged : Option AcknowledgementEvent → Emission

  -- The events that went out, and how many payloads were dropped.
  pub record Relayed : Type 0 where
    pub emissions : List Emission
    pub dropped : ℕ

module _ {A : Type 0} (level : A → Option String) where
  abbrev pub is_critical_level : Option String → Bool
  is_critical_level none = false
  is_critical_level (some l) = starts_with l "CRITICAL_"

  -- The level of null cannot be read: that throws after the first event went out.
  abbrev pub relay_alert : Tried String (Option A) → Relayed A
  relay_alert (thrown e) = record { emissions = []; dropped = 1 }
  relay_alert (ok none) = record { emissions = anomaly_new none ∷ []; dropped = 1 }
  relay_alert (ok (some alert)) = record {
    emissions =
        anomaly_new (some alert)
        ∷ (if is_critical_level (level alert) then alert_critical alert ∷ [] else []);
    dropped = 0;
  }

  abbrev pub relay_acknowledgement : Tried String (Option AcknowledgementEvent) → Relayed A
  relay_acknowledgement (thrown e) = record { emissions = []; dropped = 1 }
  relay_acknowledgement (ok event) = record {
    emissions = alert_acknowledged event ∷ [];
    dropped = 0;
  }

  module _ {T : Type 0} (parse_alert : T → Tried String (Option A))
      (parse_event : T → Tried String (Option AcknowledgementEvent)) where
    unfoldable pub on_message : Message T → Relayed A
    on_message m =
        if str_eq m.channel alerts_channel
        then relay_alert (parse_alert m.payload)
        else if str_eq m.channel acknowledgements_channel
        then relay_acknowledgement (parse_event m.payload)
        else record { emissions = []; dropped = 0 }

    unfoldable pub on_messages : List (Message T) → Relayed A
    unfolding on_message
    on_messages [] = record { emissions = []; dropped = 0 }
    on_messages (m ∷ ms) =
        let here = on_message m in
        let rest = on_messages ms in
        record {
          emissions = here.emissions ++ rest.emissions;
          dropped = here.dropped + rest.dropped;
        }
