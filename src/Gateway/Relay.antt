-- ===== src/Gateway/Relay.antt =====
-- Every critical alert on the bus reaches the browsers as an emergency, once.
use text.Mathlib.Text.{starts_with}
use open_fire_watch.Base.{
  true, false, none, ap, ◌∙◌, ◌⊎◌, str_eq, ◌≡◌, refl, String, Option, some, List, [], ◌∷◌, ◌++◌,
  map, keep, All, if◌then◌else◌, Bool-cases, inl, inr,
}
use open_fire_watch.Base.Tried.{Tried, ok, thrown}
use open_fire_watch.Evaluation.Level.{is_critical, level_name}
use open_fire_watch.Store.{AlertPayload}
use open_fire_watch.Gateway.{
  Message, alerts_channel, AcknowledgementEvent, Emission, anomaly_new, alert_critical,
  alert_acknowledged, relay_alert, relay_acknowledgement, acknowledgements_channel, on_message,
  on_messages,
}

-- What arrives: a verdict on the channel of the alerts, or anything else on some channel.
pub data Published (T : Type 0) : Type 0 where
  verdict : AlertPayload → Published T
  aside : String → T → Published T

abbrev pub message_of : {T : Type 0} → (AlertPayload → T) → Published T → Message T
message_of stringify (verdict p) = record { channel = alerts_channel; payload = stringify p }
message_of stringify (aside channel s) = record { channel = channel; payload = s }

abbrev pub verdicts : {T : Type 0} → List (Published T) → List AlertPayload
verdicts [] = []
verdicts (verdict p ∷ ms) = p ∷ verdicts ms
verdicts (aside channel s ∷ ms) = verdicts ms

-- The emergencies among the events.
abbrev pub emergencies : List (Emission AlertPayload) → List AlertPayload
emergencies [] = []
emergencies (anomaly_new a ∷ es) = emergencies es
emergencies (alert_critical p ∷ es) = p ∷ emergencies es
emergencies (alert_acknowledged e ∷ es) = emergencies es

abbrev pub level_of : AlertPayload → Option String
level_of p = some (level_name p.level)

emergencies-append :
    (xs ys : List (Emission AlertPayload))
    → emergencies (xs ++ ys) ≡ emergencies xs ++ emergencies ys
emergencies-append [] ys = refl
emergencies-append (anomaly_new a ∷ xs) ys = emergencies-append xs ys
emergencies-append (alert_critical p ∷ xs) ys = rw (emergencies-append xs ys)
emergencies-append (alert_acknowledged e ∷ xs) ys = emergencies-append xs ys

emergencies-verdict :
    (p : AlertPayload)
    → emergencies (relay_alert level_of (ok (some p))).emissions
      ≡ (if is_critical p.level then p ∷ [] else [])
unfolding is_critical
emergencies-verdict p = elim (Bool-cases (starts_with (level_name p.level) "CRITICAL_")) [
  | inl e ↦ rw e
  | inr e ↦ rw e
]

module _ {T : Type 0} (parse_alert : T → Tried String (Option AlertPayload))
    (parse_event : T → Tried String (Option AcknowledgementEvent))
    (stringify : AlertPayload → T) where
  -- A message on another channel, whatever its payload, or one on the channel of the alerts that is
  -- null or cannot be read.
  abbrev pub IsAside : Published T → Type 0
  IsAside (verdict p) = Unit
  IsAside (aside channel s) =
      (str_eq channel alerts_channel ≡ false)
      ⊎ ((parse_alert s ≡ ok none) ⊎ ((e : String) × (parse_alert s ≡ thrown e)))

  acknowledgement-emergencies :
      (t : Tried String (Option AcknowledgementEvent))
      → emergencies (relay_acknowledgement level_of t).emissions ≡ []
  acknowledgement-emergencies (ok event) = refl
  acknowledgement-emergencies (thrown e) = refl

  aside-emergencies :
      (channel : String) (s : T)
      → IsAside (aside channel s)
      → emergencies
          (on_message level_of parse_alert parse_event
            (record { channel = channel; payload = s })).emissions
        ≡ []
  unfolding on_message
  aside-emergencies channel s h = elim (Bool-cases (str_eq channel alerts_channel)) [
    | inl e ↦ rw e (unread h e)
    | inr e ↦ rw e (elim (Bool-cases (str_eq channel acknowledgements_channel)) [
      | inl k ↦ rw k (acknowledgement-emergencies (parse_event s))
      | inr k ↦ rw k refl
    ])
  ]
    where
      unread :
          IsAside (aside channel s)
          → str_eq channel alerts_channel ≡ true
          → emergencies (relay_alert level_of (parse_alert s)).emissions ≡ []
      unread (inl other) e = cc
      unread (inr (inl null)) e = rw null refl
      unread (inr (inr (message, bad))) e = rw bad refl

  -- Every critical verdict that is published reaches the browsers as an emergency, exactly once and
  -- in the order of the channel, and no other verdict does, whatever comes in between on other
  -- channels, acknowledgements included, or is null or unreadable on the channel of the alerts, if a
  -- payload reads back from its text.
  pub on_messages-emergencies :
      (ms : List (Published T))
      → ((p : AlertPayload) → parse_alert (stringify p) ≡ ok (some p))
      → All IsAside ms
      → emergencies
          (on_messages level_of parse_alert parse_event (map (message_of stringify) ms)).emissions
        ≡ keep (λ p. is_critical p.level) (verdicts ms)
  unfolding on_messages on_message
  on_messages-emergencies [] back g = refl
  on_messages-emergencies (verdict p ∷ ms) back g = elim (Bool-cases (is_critical p.level)) [
    | inl e ↦ rw (
      back p,
      emergencies-append,
      emergencies-verdict p,
      e,
      keep,
      on_messages-emergencies ms back g.1,
    )
    | inr e ↦ rw (
      back p,
      emergencies-append,
      emergencies-verdict p,
      e,
      keep,
      on_messages-emergencies ms back g.1,
    )
  ]
  on_messages-emergencies (aside channel s ∷ ms) back g =
      let here : List (Emission AlertPayload) =
        (on_message level_of parse_alert parse_event
          (record { channel = channel; payload = s })).emissions in
      let rest : List (Emission AlertPayload) =
        (on_messages level_of parse_alert parse_event (map (message_of stringify) ms)).emissions in
      emergencies-append here rest
      ∙ (ap (λ es. es ++ emergencies rest) (aside-emergencies channel s g.0)
          ∙ on_messages-emergencies ms back g.1)
