-- ===== src/Tests/Keys.antt =====
-- An operator's key on its way to the guard, and alerts on their way to the browsers.
use open_fire_watch.Base.{
  inl, inr, ◌≡◌, refl, String, true, false, Option, none, some, List, [], ◌∷◌, map, keep, str_eq,
}
use open_fire_watch.Base.Int.{pos}
use open_fire_watch.Base.Text.{Text, codes}
use open_fire_watch.Base.Tried.{Tried, ok, thrown}
use open_fire_watch.Configuration.{de}
use open_fire_watch.Evaluation.Level.{
  AlertLevel, elevated, critical_wildfire, critical_smouldering, is_critical, level_name,
}
use open_fire_watch.Notifications.Texts.{level_text}
use open_fire_watch.Notifications.Texts.Said.{level_text-is_critical}
use open_fire_watch.Store.{AlertPayload}
use open_fire_watch.Access.{
  Tab, Request, Response, answered, http_failed, nothing, intercept, store_key,
}
use open_fire_watch.Access.Session.{server, intercept-store_key, intercept-blocked}
use open_fire_watch.Gateway.{alerts_channel, acknowledgements_channel, on_messages}
use open_fire_watch.Gateway.Relay.{
  Published, verdict, aside, message_of, verdicts, emergencies, level_of, on_messages-emergencies,
}
use open_fire_watch.Tests.Rule.{hot}

abbrev same : Text → Text
same t = t

abbrev locked : Tab
locked = record { stored = none; unlocked = false }

abbrev acknowledge : Request
acknowledge = record {
  method = "POST";
  url = codes "/api/alerts/7/acknowledge";
  key_override = none;
}

abbrev handler : Request → Response Text
handler request = answered request.url

intercept-store_key_example :
    (intercept false
      (server same same (some (codes "s3cret")) handler)
      acknowledge
      (store_key false (codes "s3cret") locked)).0
    ≡ answered (codes "/api/alerts/7/acknowledge")
intercept-store_key_example =
    intercept-store_key same same (some (codes "s3cret")) handler b's' (codes "3cret") acknowledge
      locked refl refl refl refl

intercept-blocked_example :
    ((store_key true (codes "s3cret") locked).unlocked ≡ true)
    × ((intercept true
          (server same same (some (codes "s3cret")) handler)
          acknowledge
          (store_key true (codes "s3cret") locked)).0
        ≡ http_failed (record { status = 401; body = nothing; text = [] }))
    × ((intercept true
          (server same same (some (codes "s3cret")) handler)
          acknowledge
          (store_key true (codes "s3cret") locked)).1.unlocked
        ≡ false)
intercept-blocked_example =
    intercept-blocked same same (some (codes "s3cret")) handler b's' b's' (codes "3cret")
      (codes "3cret") acknowledge locked refl refl refl

level_text-is_critical_example :
    str_eq (level_text de (level_name critical_smouldering)) (level_name critical_smouldering)
    ≡ false
unfolding is_critical
level_text-is_critical_example = level_text-is_critical de critical_smouldering refl

-- A text is a payload, or nothing that can be read.
abbrev parse : Option AlertPayload → Tried String (Option AlertPayload)
parse none = thrown "Unexpected token"
parse (some p) = ok (some p)

abbrev alert_at : AlertLevel → AlertPayload
alert_at level = record {
  id = 7;
  geom = record { longitude = pos 13500000; latitude = pos 52100000 };
  acquired_at = 5000;
  level = level;
  zone = none;
  weather = hot;
  smouldering = none;
  sensor_device = none;
}

abbrev bus : List (Published (Option AlertPayload))
bus =
    verdict (alert_at critical_wildfire)
    ∷ aside alerts_channel none
    ∷ aside acknowledgements_channel (some (alert_at critical_wildfire))
    ∷ verdict (alert_at elevated)
    ∷ []

on_messages-emergencies_example :
    emergencies
      (on_messages level_of parse
        (λ t. thrown "none")
        (map (message_of (λ p. some p)) bus)).emissions
    ≡ keep (λ p. is_critical p.level) (verdicts bus)
on_messages-emergencies_example =
    on_messages-emergencies parse (λ t. thrown "none") (λ p. some p) bus (λ p. refl)
      (tt, (inr (inr ("Unexpected token", refl)), (inl refl, (tt, tt))))
