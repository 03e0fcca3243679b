-- ===== src/Evaluation/Decision.antt =====
-- backend/src/evaluation/alert-decision.ts: the rule. `undefined` and `null` are both `none`.
pub mod Laws
pub mod Order
pub mod Extremes
use Prim.Native.String
use open_fire_watch.Base.{
  ℕ, String, Bool, true, false, ◌&&◌, ◌||◌, not, Option, none, some, or_else, if◌then◌else◌,
}
use open_fire_watch.Base.Int.{ℤ, ltb_ℤ, leb_ℤ}
use open_fire_watch.Evaluation.Level.{
  AlertLevel, info, elevated, critical_phosphorus_fire, critical_smouldering, HazardProfile,
  profile_for, ignition_temperature_c, critical_soil_moisture_pct,
}
use open_fire_watch.Base.Text.{Text}
use open_fire_watch.Evaluation.Credible.{is_credible_detection}

pub record Conditions : Type 0 where
  pub temperature_c : ℤ
  pub soil_moisture_pct : ℤ

pub record SmoulderingEvidence : Type 0 where
  pub passes : ℕ
  pub window_hours : ℕ
  pub peak_frp_mw : ℤ

-- `Partial<Conditions> & { deviceId?: string }`
pub record LocalReading : Type 0 where
  pub temperature_c : Option ℤ
  pub soil_moisture_pct : Option ℤ
  pub device_id : Option String

pub record DecisionInput : Type 0 where
  pub hazard_type : Option String
  pub confidence : Option Text
  pub regional : Conditions
  pub local : Option LocalReading
  pub smouldering : Option SmoulderingEvidence

-- The reason's sentence, by what it quotes.
pub data WithheldBecause : Type 0 where
  ignition_not_met : Conditions → String → WithheldBecause
  low_confidence : Option Text → WithheldBecause

pub record Decision : Type 0 where
  pub level : AlertLevel
  pub withheld_because : Option WithheldBecause
  pub conditions : Conditions
  pub ground_source : String

-- Field by field, the local reading before the regional estimate.
abbrev pub conditions_of : Option LocalReading → Conditions → Conditions
conditions_of none regional = regional
conditions_of (some l) regional = record {
  temperature_c = or_else l.temperature_c regional.temperature_c;
  soil_moisture_pct = or_else l.soil_moisture_pct regional.soil_moisture_pct;
}

abbrev pub ground_source_of : Option LocalReading → String
ground_source_of none = "regional estimate"
ground_source_of (some l) = String.◌++◌ "sensor " (or_else l.device_id "unnamed")

unfoldable pub window_open : Conditions → Bool
window_open c =
    leb_ℤ ignition_temperature_c c.temperature_c
    && ltb_ℤ c.soil_moisture_pct critical_soil_moisture_pct

abbrev escalate : AlertLevel → Conditions → String → Decision
escalate level conditions ground_source = record {
  level = level;
  withheld_because = none;
  conditions = conditions;
  ground_source = ground_source;
}

-- The gates of a zone's profile, when no persistence was observed. Weather is named first when
-- both gates fail.
apply_profile : HazardProfile → Bool → Bool → Option Text → Conditions → String → Decision
apply_profile profile is_open credible confidence c source =
    let weather_ok = not profile.requires_ignition_weather || is_open in
    let credibility_ok = not profile.requires_credible_detection || credible in
    if profile.tracks_ignition_window && not profile.requires_ignition_weather && is_open
    then escalate critical_phosphorus_fire c source
    else if weather_ok && credibility_ok
    then escalate profile.critical_level c source
    else record {
      level = elevated;
      withheld_because =
          some (if not weather_ok then ignition_not_met c source else low_confidence confidence);
      conditions = c;
      ground_source = source;
    }

module _ (to_number : Text → Option ℤ) where
  decide_in_zone :
      String → Option SmoulderingEvidence → Option Text → Conditions → String → Decision
  unfolding apply_profile
  decide_in_zone hazard_type (some evidence) confidence c source =
      escalate critical_smouldering c source
  decide_in_zone hazard_type none confidence c source =
      apply_profile (profile_for hazard_type) (window_open c)
        (is_credible_detection to_number confidence) confidence c source

  decide_for :
      Option String → Option SmoulderingEvidence → Option Text → Conditions → String → Decision
  unfolding decide_in_zone
  decide_for none smouldering confidence c source = escalate info c source
  decide_for (some hazard_type) smouldering confidence c source =
      decide_in_zone hazard_type smouldering confidence c source

  unfoldable pub decide : DecisionInput → Decision
  unfolding decide_for
  decide input =
      decide_for input.hazard_type input.smouldering input.confidence
        (conditions_of input.local input.regional) (ground_source_of input.local)
