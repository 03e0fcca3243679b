-- ===== src/Notifications/Texts/Said.antt =====
-- What every notification of danger says.
use open_fire_watch.Base.{◌≡◌, refl, true, false, Option, none, some, List, [], ◌∷◌, ◌++◌, str_eq}
use open_fire_watch.Base.Text.{Text}
use open_fire_watch.Configuration.{Locale, de, en}
use open_fire_watch.Evaluation.Level.{
  AlertLevel, info, elevated, critical_phosphorus_fire, critical_wildfire, critical_ordnance_heat,
  critical_thermal_anomaly, critical_smouldering, critical_sensor_heat, is_critical, level_name,
}
use open_fire_watch.Notifications.Texts.{
  Printing, CriticalAlert, Escalation, WindowAhead, not_a_dispatch, present_lines, critical_lines,
  level_text, critical_alert_text, escalation_text, forecast_window_text,
}

abbrev pub last_line : List Text → Option Text
last_line [] = none
last_line (l ∷ []) = some l
last_line (l ∷ m ∷ ls) = last_line (m ∷ ls)

last_line-append : (ls : List Text) (l m : Text) → last_line (ls ++ (l ∷ m ∷ [])) ≡ some m
last_line-append [] l m = refl
last_line-append (k ∷ []) l m = refl
last_line-append (k ∷ j ∷ ls) l m = last_line-append (j ∷ ls) l m

-- In either language, the notification of a critical alert, of an alert that nobody took and of an
-- expected ignition window ends with the line that it does not replace the emergency number.
pub critical_alert_text-last_line :
    (p : Printing) (lang : Locale) (a : CriticalAlert) (e : Escalation) (w : WindowAhead)
    → (last_line (critical_alert_text p lang a).body ≡ some (not_a_dispatch lang))
      × (last_line (escalation_text p lang e).body ≡ some (not_a_dispatch lang))
      × (last_line (forecast_window_text p lang w).body ≡ some (not_a_dispatch lang))
unfolding critical_alert_text escalation_text forecast_window_text
critical_alert_text-last_line p de a e w =
    (last_line-append (present_lines (critical_lines p de a)) [] _, refl, refl)
critical_alert_text-last_line p en a e w =
    (last_line-append (present_lines (critical_lines p en a)) [] _, refl, refl)

-- No critical level is announced by its constant: each has a name in both languages.
pub level_text-is_critical :
    (lang : Locale) (level : AlertLevel)
    → is_critical level ≡ true
    → str_eq (level_text lang (level_name level)) (level_name level) ≡ false
unfolding level_text is_critical
level_text-is_critical de critical_phosphorus_fire h = refl
level_text-is_critical de critical_wildfire h = refl
level_text-is_critical de critical_ordnance_heat h = refl
level_text-is_critical de critical_thermal_anomaly h = refl
level_text-is_critical de critical_smouldering h = refl
level_text-is_critical de critical_sensor_heat h = refl
level_text-is_critical de info h = absurd (cc h)
level_text-is_critical de elevated h = absurd (cc h)
level_text-is_critical en critical_phosphorus_fire h = refl
level_text-is_critical en critical_wildfire h = refl
level_text-is_critical en critical_ordnance_heat h = refl
level_text-is_critical en critical_thermal_anomaly h = refl
level_text-is_critical en critical_smouldering h = refl
level_text-is_critical en critical_sensor_heat h = refl
level_text-is_critical en info h = absurd (cc h)
level_text-is_critical en elevated h = absurd (cc h)
