-- ===== src/Readiness/Gates.antt =====
-- The panel's word for a zone against the rule that decides.
use open_fire_watch.Base.{◌≡◌, refl, Bool, true, false, ◌&&◌, Option, none, some, arith}
use open_fire_watch.Base.Int.{ℤ, pos, negsuc, ◌-ℤ◌, ltb_ℤ, leb_ℤ, round_tenth}
use open_fire_watch.Evaluation.Level.{
  profile_for, is_critical, ignition_temperature_c, critical_soil_moisture_pct, units,
}
use open_fire_watch.Evaluation.Level.Cases.{
  ProfileCase, profile_cases, phosphorus, forest, wildfire, depot, other,
}
use open_fire_watch.Base.Text.{Text}
use open_fire_watch.Evaluation.Credible.{is_credible_detection}
use open_fire_watch.Evaluation.Decision.{Conditions, window_open, decide}
use open_fire_watch.Evaluation.Decision.Laws.{decide-pages, decide-conditions, pages}
use open_fire_watch.Readiness.{
  Zone, FireDangerToday, assess, temperature_gap, soil_gap, is_window_open,
}

temperature-rounded :
    (t : ℤ) → leb_ℤ (round_tenth (ignition_temperature_c -ℤ t)) (units 0) ≡ ltb_ℤ (pos 29950) t
unfolding round_tenth ◌-ℤ◌
temperature-rounded (pos n) = ground arith
temperature-rounded (negsuc n) = ground arith

soil-rounded :
    (s : ℤ) → ltb_ℤ (round_tenth (s -ℤ critical_soil_moisture_pct)) (units 0) ≡ ltb_ℤ s (pos 19950)
unfolding round_tenth ◌-ℤ◌
soil-rounded (pos n) = ground arith
soil-rounded (negsuc n) = ground arith

-- Readings with at most one decimal.
abbrev pub InTenths : Conditions → Type 0
InTenths c =
    (round_tenth c.temperature_c ≡ c.temperature_c)
    × (round_tenth c.soil_moisture_pct ≡ c.soil_moisture_pct)

temperature-exact :
    (t : ℤ) → round_tenth t ≡ t → ltb_ℤ (pos 29950) t ≡ leb_ℤ ignition_temperature_c t
unfolding round_tenth
temperature-exact (pos n) h = ground arith
temperature-exact (negsuc n) h = ground arith

soil-exact : (s : ℤ) → round_tenth s ≡ s → ltb_ℤ s (pos 19950) ≡ ltb_ℤ s critical_soil_moisture_pct
unfolding round_tenth
soil-exact (pos n) h = ground arith
soil-exact (negsuc n) h = ground arith

open-InTenths :
    (c : Conditions)
    → InTenths c
    → (leb_ℤ (temperature_gap c) (units 0) && ltb_ℤ (soil_gap c) (units 0)) ≡ window_open c
unfolding window_open
open-InTenths c h =
    rw (temperature-rounded c.temperature_c, soil-rounded c.soil_moisture_pct)
      (rw (temperature-exact c.temperature_c h.0, soil-exact c.soil_moisture_pct h.1) refl)

assess-pages :
    (z : Zone) (c : Conditions) (danger : Option FireDangerToday)
    → ProfileCase z.hazard_type
    → (is_open : Bool)
    → (leb_ℤ (temperature_gap c) (units 0) && ltb_ℤ (soil_gap c) (units 0)) ≡ is_open
    → (assess z (some c) danger).armed ≡ pages z.hazard_type is_open true
unfolding assess
assess-pages z c danger (phosphorus e p) true o = rw (p, o, e)
assess-pages z c danger (phosphorus e p) false o = rw (p, o, e)
assess-pages z c danger (forest e p) b o = rw (p, e) (ground arith)
assess-pages z c danger (depot e p) b o = rw (p, e)
assess-pages z c danger (wildfire (p, q, d) e) true o = simp (e, p, q, d)
assess-pages z c danger (wildfire (p, q, d) e) false o = simp (e, p, q, d)
assess-pages z c danger (other (p, q, d) e) true o = simp (e, p, q, d)
assess-pages z c danger (other (p, q, d) e) false o = simp (e, p, q, d)

-- For a reading with at most one decimal, a zone is shown as armed exactly when a credible detection
-- in it, decided under that reading with no sensor and no persistence, would be critical.
pub assess-decide :
    (to_number : Text → Option ℤ) (z : Zone) (c : Conditions) (danger : Option FireDangerToday)
    (confidence : Option Text)
    → InTenths c
    → is_credible_detection to_number confidence ≡ true
    → (assess z (some c) danger).armed
      ≡ is_critical
          (decide to_number (record {
            hazard_type = some z.hazard_type;
            confidence = confidence;
            regional = c;
            local = none;
            smouldering = none;
          })).level
assess-decide to_number z c danger confidence h k =
    rw (decide-pages to_number, decide-conditions to_number, k)
      (assess-pages z c danger (profile_cases z.hazard_type) (window_open c) (open-InTenths c h))

-- Whatever the reading, the panel shows the window of a zone that tracks it as open exactly when
-- the temperature is above 29.95 °C and the soil moisture below 19.95 %.
pub is_window_open-assess :
    (z : Zone) (c : Conditions) (danger : Option FireDangerToday)
    → (profile_for z.hazard_type).tracks_ignition_window ≡ true
    → is_window_open (assess z (some c) danger)
      ≡ ltb_ℤ (pos 29950) c.temperature_c && ltb_ℤ c.soil_moisture_pct (pos 19950)
unfolding assess is_window_open
is_window_open-assess z c danger t =
    rw t (rw (temperature-rounded c.temperature_c, soil-rounded c.soil_moisture_pct) refl)
