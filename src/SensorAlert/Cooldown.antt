-- ===== src/SensorAlert/Cooldown.antt =====
-- How a verdict of a probe silences it while the cooldown lasts.
use open_fire_watch.Base.{
  ℕ, ◌+◌, ◌*◌, ◌≤◌, ◌≡◌, ◌≢◌, refl, ◌∙◌, sym, ap, String, Bool, true, false, ◌&&◌, Option, none,
  some, List, ◌∷◌, leb, ◌==◌, ==_iff, if◌then◌else◌, first, keep, arith, eq_iff, Bool-cases,
  Option-cases, inl, inr,
}
use open_fire_watch.Base.Int.{ℤ, leb_ℤ}
use open_fire_watch.Evaluation.Level.{units}
use open_fire_watch.Sensors.Current.{Sensor, Reading}
use open_fire_watch.Store.{Anomaly, Store, insert_anomaly, insert_event, publish}
use open_fire_watch.Store.Rows.{insert_anomaly_new, inserted_row}
use open_fire_watch.SensorAlert.{
  Stage, Trigger, Environment, CalibratedReading, hour_ms, joined, calibrated_reading, trigger_of,
  is_recent, in_cooldown, sensor_detection, sensor_event, measured, raise_inserted, raise,
  sensor_source, on_trigger, on_temperature, on_reading, evaluate, anomaly_stage, event_stage,
  publish_stage, cooldown_stage, reading_stage,
}

if-same {ℓ} : {A : Type ℓ} (b : Bool) (x : A) → (if b then x else x) ≡ x
if-same true x = refl
if-same false x = refl

-- While the cooldown of its device lasts, a probe changes nothing.
on_reading-held :
    (env : Environment) (fails : Stage → Bool) (id at : ℕ) (s : Store) (r : CalibratedReading)
    → in_cooldown env r.device_id s ≡ true
    → on_reading env fails id at s (some r) ≡ s
on_reading-held env fails id at s r held = elim (Option-cases r.temperature_c) [
  | inl e ↦ rw e refl
  | inr (t, e) ↦ rw e (elim (Option-cases (trigger_of env fails id at t)) [
    | inl q ↦ rw q refl
    | inr (x, q) ↦ rw (q, held) (if-same (fails cooldown_stage) s)
  ])
]

evaluate-held :
    (env : Environment) (fails : Stage → Bool) (id at : ℕ) (s : Store)
    → ((r : CalibratedReading)
        → calibrated_reading env id at ≡ some r
        → in_cooldown env r.device_id s ≡ true)
    → evaluate env fails id at s ≡ s
unfolding evaluate
evaluate-held env fails id at s held =
    elim (Bool-cases
      (leb_ℤ env.alert_temperature_c (units 0) && leb_ℤ env.alert_rise_c (units 0))) [
        | inl off ↦ rw off refl
        | inr on ↦ rw on (elim (Bool-cases (fails reading_stage)) [
          | inl lost ↦ rw lost refl
          | inr read ↦ rw read (elim (Option-cases (calibrated_reading env id at)) [
            | inl e ↦ rw e refl
            | inr (r, e) ↦ rw e (on_reading-held env fails id at s r (held r e))
          ])
        ])
      ]

-- A probe keeps its device from one reading to the next.
abbrev device_in : List Sensor → ℕ → Option String
device_in sensors id = elim (first (keep (λ s. s.id == id) sensors)) [
  | none ↦ none
  | some s ↦ some s.device_id
]

joined-device :
    (env : Environment) (o : Option Sensor) (p : Option Reading) (r : CalibratedReading)
    → joined env o p ≡ some r
    → elim o [ none ↦ none | some s ↦ some s.device_id ] ≡ some r.device_id
joined-device env none p r h = cc
joined-device env (some s) none r h = cc
joined-device env (some s) (some q) r h = ground arith

reading-device :
    (env : Environment) (id at : ℕ) (r : CalibratedReading)
    → calibrated_reading env id at ≡ some r
    → device_in env.sensors id ≡ some r.device_id
unfolding calibrated_reading
reading-device env id at r h = joined-device env _ _ r h

-- A verdict that is raised starts the cooldown of its device.
module _ (env env' : Environment) (fails : Stage → Bool) (r : CalibratedReading) (t : ℤ) (s : Store)
    (lasts : leb env'.now (env.now + env'.cooldown_hours * hour_ms) ≡ true) where
  event-is_recent :
      (id : ℕ) (s' : Store) (rest : List Anomaly)
      → s'.anomalies
        ≡ record { id = id; detection = sensor_detection env r t; weather = measured env r t }
          ∷ rest
      → is_recent env' s'.anomalies r.device_id (sensor_event env r t id) ≡ true
  event-is_recent id s' rest e =
      rw (e, lasts)
        (ground (
          arith,
          (==_iff id id).1 refl,
          (eq_iff (sensor_source r.device_id) (sensor_source r.device_id)).1 refl,
        ))

  inserted-in_cooldown :
      (id : ℕ) (s' : Store)
      → insert_anomaly (sensor_detection env r t) (measured env r t) s ≡ some (id, s')
      → (raise_inserted env r t fails s (some (id, s'))).events ≢ s.events
      → in_cooldown env' r.device_id (raise_inserted env r t fails s (some (id, s'))) ≡ true
  unfolding in_cooldown insert_event publish
  inserted-in_cooldown id s' e changed = elim (Bool-cases (fails event_stage)) [
    | inl lost ↦ absurd (changed (rw lost (insert_anomaly_new _ _ s s' id e).1))
    | inr kept ↦ elim (Bool-cases (fails publish_stage)) [
      | inl q ↦
          rw (kept, q) (rw (event-is_recent id s' s.anomalies (inserted_row _ _ s s' id e)) refl)
      | inr q ↦
          rw (kept, q) (rw (event-is_recent id s' s.anomalies (inserted_row _ _ s s' id e)) refl)
    ]
  ]

  raise-in_cooldown :
      (raise env r t fails s).events ≢ s.events
      → in_cooldown env' r.device_id (raise env r t fails s) ≡ true
  unfolding raise
  raise-in_cooldown changed = elim (Bool-cases (fails anomaly_stage)) [
    | inl e ↦ absurd (changed (rw e refl))
    | inr e ↦ elim (Option-cases (insert_anomaly (sensor_detection env r t) (measured env r t) s)) [
      | inl q ↦ absurd (changed (rw (e, q) refl))
      | inr (x, q) ↦ rw (e, q) (inserted-in_cooldown x.0 x.1 q (rw (e, q) at changed))
    ]
  ]

  on_trigger-in_cooldown :
      (id at : ℕ) (o : Option Trigger)
      → (on_trigger env fails id at s r t o).events ≢ s.events
      → in_cooldown env' r.device_id (on_trigger env fails id at s r t o) ≡ true
  on_trigger-in_cooldown id at none changed = absurd (changed refl)
  on_trigger-in_cooldown id at (some x) changed = elim (Bool-cases (fails cooldown_stage)) [
    | inl e ↦ absurd (changed (rw e refl))
    | inr e ↦ elim (Bool-cases (in_cooldown env r.device_id s)) [
      | inl q ↦ absurd (changed (rw (e, q) refl))
      | inr q ↦ rw (e, q) (raise-in_cooldown (rw (e, q) at changed))
    ]
  ]

module _ (env env' : Environment) (fails : Stage → Bool) (id at : ℕ) (s : Store)
    (lasts : leb env'.now (env.now + env'.cooldown_hours * hour_ms) ≡ true) where
  on_temperature-in_cooldown :
      (r : CalibratedReading) (o : Option ℤ)
      → (on_temperature env fails id at s r o).events ≢ s.events
      → in_cooldown env' r.device_id (on_temperature env fails id at s r o) ≡ true
  on_temperature-in_cooldown r none changed = absurd (changed refl)
  on_temperature-in_cooldown r (some t) changed =
      on_trigger-in_cooldown env env' fails r t s lasts id at (trigger_of env fails id at t) changed

  on_reading-in_cooldown :
      (o : Option CalibratedReading)
      → (on_reading env fails id at s o).events ≢ s.events
      → (r : CalibratedReading) × (o ≡ some r)
        × (in_cooldown env' r.device_id (on_reading env fails id at s o) ≡ true)
  on_reading-in_cooldown none changed = absurd (changed refl)
  on_reading-in_cooldown (some r) changed =
      (r, refl, on_temperature-in_cooldown r r.temperature_c changed)

  evaluate-in_cooldown :
      (evaluate env fails id at s).events ≢ s.events
      → (r : CalibratedReading) × (calibrated_reading env id at ≡ some r)
        × (in_cooldown env' r.device_id (evaluate env fails id at s) ≡ true)
  unfolding evaluate
  evaluate-in_cooldown changed =
      elim (Bool-cases
        (leb_ℤ env.alert_temperature_c (units 0) && leb_ℤ env.alert_rise_c (units 0))) [
          | inl off ↦ absurd (changed (rw off refl))
          | inr on ↦ elim (Bool-cases (fails reading_stage)) [
            | inl lost ↦ absurd (changed (rw (on, lost) refl))
            | inr read ↦
                rw (on, read)
                  (on_reading-in_cooldown (calibrated_reading env id at) (rw (on, read) at changed))
          ]
        ]

some-inj : (x y : String) → ◌≡◌ {A = Option String} (some x) (some y) → x ≡ y
some-inj x y h = cc

same-device :
    (env env' : Environment) (id at at' : ℕ) (r r' : CalibratedReading)
    → env'.sensors ≡ env.sensors
    → calibrated_reading env id at ≡ some r
    → calibrated_reading env' id at' ≡ some r'
    → r.device_id ≡ r'.device_id
same-device env env' id at at' r r' same h h' = some-inj r.device_id r'.device_id (
    sym (reading-device env id at r h)
    ∙ sym (ap (λ l. device_in l id) same)
    ∙ reading-device env' id at' r' h')

-- While its cooldown lasts, and the list of sensors is the same, a probe that recorded a verdict
-- changes nothing with a further reading, whatever that reading holds and whichever calls fail.
pub evaluate-evaluate_probe :
    (env env' : Environment) (fails fails' : Stage → Bool) (id at at' : ℕ) (s : Store)
    → env'.sensors ≡ env.sensors
    → env'.now ≤ env.now + env'.cooldown_hours * hour_ms
    → (evaluate env fails id at s).events ≢ s.events
    → evaluate env' fails' id at' (evaluate env fails id at s) ≡ evaluate env fails id at s
evaluate-evaluate_probe env env' fails fails' id at at' s same lasts changed =
    let (r, e, held) = evaluate-in_cooldown env env' fails id at s (ground arith) changed in
    evaluate-held env' fails' id at' (evaluate env fails id at s)
      (λ r' e'. rw⁻¹ (same-device env env' id at at' r r' same e e') held)
