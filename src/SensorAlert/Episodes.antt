-- ===== src/SensorAlert/Episodes.antt =====
-- When a probe raises an alert, and how often.
use open_fire_watch.Base.{
  ℕ, ◌≤◌, ◌≡◌, ◌≢◌, ◌⊎◌, refl, Bool, true, ◌&&◌, Option, none, some, length, ltb, arith, Bool-cases,
  Option-cases, inl, inr,
}
use open_fire_watch.Base.Int.{ℤ, ◌-ℤ◌, ◌≤ℤ◌, ◌<ℤ◌, leb_ℤ}
use open_fire_watch.Evaluation.Level.{units}
use open_fire_watch.Store.{Store}
use open_fire_watch.SensorAlert.{
  Stage, Trigger, Environment, CalibratedReading, calibrated_reading, earlier_temperatures,
  baseline_median, risen, trigger_of, on_trigger, on_temperature, on_reading, evaluate,
  reading_stage,
}

-- A temperature that speaks for a fire: at or above the absolute threshold, or at least 35 °C and
-- risen enough over the median of two or more readings of the six hours before.
abbrev pub IsHot : Environment → ℕ → ℕ → ℤ → Type 0
IsHot env id at t =
    let earlier = earlier_temperatures env id at in
    ((units 0 <ℤ env.alert_temperature_c) × (env.alert_temperature_c ≤ℤ t))
    ⊎ ((units 35 ≤ℤ t)
        × (2 ≤ length earlier)
        × (units 0 <ℤ env.alert_rise_c)
        × (env.alert_rise_c ≤ℤ t -ℤ env.median earlier))

risen-median :
    (env : Environment) (t : ℤ) (id at : ℕ)
    → risen env t (baseline_median env id at) ≡ true
    → (2 ≤ length (earlier_temperatures env id at))
      × (env.alert_rise_c ≤ℤ t -ℤ env.median (earlier_temperatures env id at))
unfolding baseline_median
risen-median env t id at h = elim (Bool-cases (ltb (length (earlier_temperatures env id at)) 2)) [
  | inl few ↦ cc (rw few at h)
  | inr enough ↦ (ground arith, ground (arith, rw enough at h))
]

trigger_of-IsHot :
    (env : Environment) (fails : Stage → Bool) (id at : ℕ) (t : ℤ) (x : Trigger)
    → trigger_of env fails id at t ≡ some x
    → IsHot env id at t
unfolding trigger_of
trigger_of-IsHot env fails id at t x h = ground (arith, risen-median env t id at)

-- What an evaluation that changes the store has found.
abbrev pub Finding : Environment → ℕ → ℕ → Type 0
Finding env id at =
    (r : CalibratedReading) × (t : ℤ) × (calibrated_reading env id at ≡ some r)
    × (r.temperature_c ≡ some t)
    × IsHot env id at t

module _ (env : Environment) (fails : Stage → Bool) (id at : ℕ) (s : Store) where
  on_trigger-IsHot :
      (r : CalibratedReading) (t : ℤ)
      → on_trigger env fails id at s r t (trigger_of env fails id at t) ≢ s
      → IsHot env id at t
  on_trigger-IsHot r t changed = elim (Option-cases (trigger_of env fails id at t)) [
    | inl e ↦ absurd (changed (rw e refl))
    | inr (x, e) ↦ trigger_of-IsHot env fails id at t x e
  ]

  on_temperature-Finding :
      (r : CalibratedReading) (o : Option ℤ)
      → calibrated_reading env id at ≡ some r
      → r.temperature_c ≡ o
      → on_temperature env fails id at s r o ≢ s
      → Finding env id at
  on_temperature-Finding r none e q changed = absurd (changed refl)
  on_temperature-Finding r (some t) e q changed = (r, t, e, q, on_trigger-IsHot r t changed)

  on_reading-Finding :
      (o : Option CalibratedReading)
      → calibrated_reading env id at ≡ o
      → on_reading env fails id at s o ≢ s
      → Finding env id at
  on_reading-Finding none e changed = absurd (changed refl)
  on_reading-Finding (some r) e changed = on_temperature-Finding r r.temperature_c e refl changed

  -- A probe changes the tables or the bus only on a stored reading of its own whose calibrated
  -- temperature passes the absolute threshold or has risen over the baseline.
  pub evaluate-Finding : evaluate env fails id at s ≢ s → Finding env id at
  unfolding evaluate
  evaluate-Finding changed =
      elim (Bool-cases
        (leb_ℤ env.alert_temperature_c (units 0) && leb_ℤ env.alert_rise_c (units 0))) [
          | inl off ↦ absurd (changed (rw off refl))
          | inr on ↦ elim (Bool-cases (fails reading_stage)) [
            | inl lost ↦ absurd (changed (rw (on, lost) refl))
            | inr read ↦
                on_reading-Finding (calibrated_reading env id at) refl (rw (on, read) at changed)
          ]
        ]
