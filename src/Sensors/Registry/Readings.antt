-- ===== src/Sensors/Registry/Readings.antt =====
-- Which readings are stored, and under which sensor.
use open_fire_watch.Base.{
  ℕ, ◌≡◌, refl, ap, sym, ◌∙◌, Bool, true, false, ◌&&◌, Option, none, some, List, [], ◌∷◌, map,
  if◌then◌else◌, first, keep, any, str_eq, eq_iff, arith, Bool-cases, Option-cases, inl, inr,
  String,
}
use open_fire_watch.Sensors.Current.{Sensor, Reading}
use open_fire_watch.Store.{Store}
use open_fire_watch.SensorAlert
use open_fire_watch.Sensors.Registry.{
  Registry, SensorReading, RegisterSensor, registered, is_device, is_live, is_same_uplink,
  insert_reading, record_for, record_reading, new_sensor, remounted, register_over, register,
}

-- No reading of one sensor and one time twice.
abbrev pub IsUniqueReadings : List Reading → Type 0
IsUniqueReadings [] = Unit
IsUniqueReadings (r ∷ rs) =
    (any (is_same_uplink r.sensor_id r.observed_at) rs ≡ false) × IsUniqueReadings rs

any-insert_reading :
    (id : ℕ) (dto : SensorReading) (rs : List Reading)
    → any (is_same_uplink id dto.observed_at) (insert_reading id dto rs) ≡ true
any-insert_reading id dto rs = elim (Bool-cases (any (is_same_uplink id dto.observed_at) rs)) [
  | inl e ↦ rw e e
  | inr e ↦ rw e (ground arith)
]

insert_reading-insert_reading :
    (id : ℕ) (dto : SensorReading) (rs : List Reading)
    → insert_reading id dto (insert_reading id dto rs) ≡ insert_reading id dto rs
insert_reading-insert_reading id dto rs = rw (any-insert_reading id dto rs) refl

first-keep_head :
    (test : Sensor → Bool) (s : Sensor) (rows : List Sensor)
    → test s ≡ true
    → first (keep test (s ∷ rows)) ≡ some s
first-keep_head test s rows h = rw (h, keep) refl

own_device : (device : String) → str_eq device device && true ≡ true
own_device device = rw ((eq_iff device device).1 refl) refl

-- The sensor that is found for a device once it is registered.
first_live :
    (dto : RegisterSensor) (old : Sensor) (rows : List Sensor)
    → first (keep (is_device dto.device_id) rows) ≡ some old
    → first (
        keep
          (is_live dto.device_id)
          (map (λ s. if is_device dto.device_id s then remounted dto s else s) rows))
      ≡ some (remounted dto old)
first_live dto old [] h = cc
first_live dto old (s ∷ rows) h = elim (Bool-cases (is_device dto.device_id s)) [
  | inl e ↦ rw e (
      first-keep_head (is_live dto.device_id) (remounted dto s)
        (map (λ s. if is_device dto.device_id s then remounted dto s else s) rows)
        (own_device dto.device_id)
      ∙ ap (λ x. some (remounted dto x))
          (same (sym (first-keep_head (is_device dto.device_id) s rows e) ∙ h)))
  | inr e ↦ rw (e, keep) (rw (e, keep) (first_live dto old rows (rw (e, keep) at h)))
]
  where
    same : {x y : Sensor} → ◌≡◌ {A = Option Sensor} (some x) (some y) → x ≡ y
    same q = cc

live_after :
    (dto : RegisterSensor) (g : Registry) (id : ℕ)
    → (register dto g).0 ≡ registered id
    → (sensor : Sensor) × (first (keep (is_live dto.device_id) (register dto g).1.sensors)
        ≡ some sensor)
      × (sensor.id ≡ id)
unfolding register
live_after dto g id e = elim (Option-cases (first (keep (is_device dto.device_id) g.sensors))) [
  | inl n ↦
      rw (n, register_over)
        (
          new_sensor g.next_id dto,
          first-keep_head (is_live dto.device_id) (new_sensor g.next_id dto) g.sensors
              (own_device dto.device_id),
          which (rw (n, register_over) at e),
        )
  | inr (old, o) ↦ elim (Bool-cases old.is_active) [
    | inl a ↦ cc (rw (o, register_over, a) at e)
    | inr a ↦
        rw (o, register_over, a)
          (remounted dto old, first_live dto old g.sensors o, which (rw (o, register_over, a) at e))
  ]
]
  where
    which : {x y : ℕ} → registered x ≡ registered y → x ≡ y
    which q = cc

module _ (env : SensorAlert.Environment) (fails : SensorAlert.Stage → Bool) where
  record_for-readings :
      (dto : SensorReading) (o : Option Sensor) (g : Registry) (s : Store)
      → IsUniqueReadings g.readings
      → IsUniqueReadings (record_for env fails dto o g s).1.readings
  record_for-readings dto none g s h = h
  record_for-readings dto (some sensor) g s h =
      elim (Bool-cases (any (is_same_uplink sensor.id dto.observed_at) g.readings)) [
        | inl e ↦ rw e h
        | inr e ↦ rw e (e, h)
      ]

  -- No two readings of one sensor are stored for one time, however often the network delivers them.
  pub record_reading-IsUniqueReadings :
      (dto : SensorReading) (g : Registry) (s : Store)
      → IsUniqueReadings g.readings
      → IsUniqueReadings (record_reading env fails dto g s).1.readings
  unfolding record_reading
  record_reading-IsUniqueReadings dto g s h =
      record_for-readings dto (first (keep (is_live dto.device_id) g.sensors)) g s h

  record_for-sensors :
      (dto : SensorReading) (o : Option Sensor) (g : Registry) (s : Store)
      → (record_for env fails dto o g s).1.sensors ≡ g.sensors
  record_for-sensors dto none g s = refl
  record_for-sensors dto (some sensor) g s = refl

  -- A reading that is delivered again, at whatever later time, leaves the stored readings as they are.
  pub record_reading-again :
      (later : SensorAlert.Environment) (later_fails : SensorAlert.Stage → Bool)
      (dto : SensorReading) (g : Registry) (s t : Store)
      → (record_reading later later_fails dto (record_reading env fails dto g s).1 t).1.readings
        ≡ (record_reading env fails dto g s).1.readings
  unfolding record_reading
  record_reading-again later later_fails dto g s t =
      elim (Option-cases (first (keep (is_live dto.device_id) g.sensors))) [
        | inl e ↦ rw (e, record_for, e) refl
        | inr (sensor, e) ↦
            rw (e, record_for)
              (rw (e, record_for) (insert_reading-insert_reading sensor.id dto g.readings))
      ]

  -- The device of a sensor that was just registered, or mounted again, is known: its next reading is
  -- accepted, and is stored under the id that the registration answered.
  pub record_reading-register :
      (dto : RegisterSensor) (reading : SensorReading) (g : Registry) (s : Store) (id : ℕ)
      → (register dto g).0 ≡ registered id
      → reading.device_id ≡ dto.device_id
      → ((record_reading env fails reading (register dto g).1 s).0 ≡ true)
        × (any
              (is_same_uplink id reading.observed_at)
              (record_reading env fails reading (register dto g).1 s).1.readings
            ≡ true)
  unfolding record_reading
  record_reading-register dto reading g s id e d =
      let (sensor, found, numbered) = live_after dto g id e in
      accepted sensor numbered
        (ap (λ k. first (keep (is_live k) (register dto g).1.sensors)) d ∙ found)
    where
      accepted :
          (sensor : Sensor)
          → sensor.id ≡ id
          → first (keep (is_live reading.device_id) (register dto g).1.sensors) ≡ some sensor
          → ((record_reading env fails reading (register dto g).1 s).0 ≡ true)
            × (any
                  (is_same_uplink id reading.observed_at)
                  (record_reading env fails reading (register dto g).1 s).1.readings
                ≡ true)
      accepted sensor n found =
          rw (found, record_for)
            (
              refl,
              ap
                    (λ k.
                      any (is_same_uplink k reading.observed_at)
                        (insert_reading sensor.id reading (register dto g).1.readings))
                    (sym n)
                  ∙ any-insert_reading sensor.id reading (register dto g).1.readings,
            )
