-- ===== src/Sensors/Registry/Retired.antt =====
-- What becomes of a sensor that is retired.
use open_fire_watch.Base.{
  ℕ, ◌≡◌, refl, ap, subst, ◌∙◌, Bool, true, false, Option, none, some, List, [], ◌∷◌, map,
  if◌then◌else◌, first, keep, any, All, All-imp, str_eq, String, arith, Bool-cases, inl, inr,
}
use open_fire_watch.Sensors.Current.{Sensor}
use open_fire_watch.Store.{Store}
use open_fire_watch.SensorAlert
use open_fire_watch.Sensors.Registry.{
  Registry, SensorReading, is_device, is_live, is_active_id, retired, retire, record_for,
  record_reading,
}
use open_fire_watch.Sensors.Registry.Devices.{IsRegistry}
use open_fire_watch.Sensors.Registry.Apart.{IsApart, AllApart, str_eq_sym}

-- The row that a search finds satisfies what all rows do.
first-All :
    (P : Sensor → Type 0) (test : Sensor → Bool) (s : Sensor) (rows : List Sensor)
    → first (keep test rows) ≡ some s
    → All P rows
    → P s × (test s ≡ true)
first-All P test s [] h a = cc
first-All P test s (q ∷ rows) h a = elim (Bool-cases (test q)) [
  | inl e ↦ let e' = found (rw (e, keep) at h) in (subst P e' a.0, subst (λ x. test x ≡ true) e' e)
  | inr e ↦ first-All P test s rows (rw (e, keep) at h) a.1
]
  where
    found : {x y : Sensor} → ◌≡◌ {A = Option Sensor} (some x) (some y) → x ≡ y
    found k = cc

any_of :
    (test : Sensor → Bool) (s : Sensor) (rows : List Sensor)
    → first (keep test rows) ≡ some s
    → any test rows ≡ true
any_of test s [] h = cc
any_of test s (q ∷ rows) h = elim (Bool-cases (test q)) [
  | inl e ↦ rw e refl
  | inr e ↦ rw e (any_of test s rows (rw (e, keep) at h))
]

-- Only the sensor with an id has its device.
owner :
    (id : ℕ) (s : Sensor) (rows : List Sensor)
    → AllApart rows
    → first (keep (is_active_id id) rows) ≡ some s
    → All (λ q. is_device s.device_id q ≡ true → q.id ≡ id) rows
owner id s [] a h = tt
owner id s (q ∷ rows) a h = elim (Bool-cases (is_active_id id q)) [
  | inl e ↦ (
    λ k. ground (arith, e),
    All-imp rows (λ x p k. absurd (cc (p.1, same x k (found (rw (e, keep) at h))))) a.0,
  )
  | inr e ↦
      let here = rw (e, keep) at h in
      let (apart, active) = first-All (IsApart q) (is_active_id id) s rows here a.0 in
      (λ k. absurd (cc (apart.1, k)), owner id s rows a.1 here)
]
  where
    found : {x y : Sensor} → ◌≡◌ {A = Option Sensor} (some x) (some y) → x ≡ y
    found k = cc

    same :
        (x : Sensor)
        → str_eq x.device_id s.device_id ≡ true
        → q ≡ s
        → str_eq q.device_id x.device_id ≡ true
    same x k e = ap (λ t. str_eq t.device_id x.device_id) e ∙ str_eq_sym s.device_id x.device_id ∙ k

first-keep_tail :
    (test : Sensor → Bool) (s : Sensor) (rows : List Sensor)
    → test s ≡ false
    → first (keep test (s ∷ rows)) ≡ first (keep test rows)
first-keep_tail test s rows h = rw (h, keep) refl

not_live :
    (id : ℕ) (device : String) (q : Sensor)
    → (is_device device q ≡ true → q.id ≡ id)
    → is_active_id id q ≡ false
    → is_live device q ≡ false
not_live id device q h e = elim (Bool-cases (is_device device q)) [
  | inl k ↦ rw k (ground (arith, h k, e))
  | inr k ↦ rw k refl
]

retired-not_live : (device : String) (q : Sensor) → is_live device (retired q) ≡ false
retired-not_live device q = ground arith

none_live :
    (id : ℕ) (device : String) (rows : List Sensor)
    → All (λ q. is_device device q ≡ true → q.id ≡ id) rows
    → first (keep (is_live device) (map (λ s. if is_active_id id s then retired s else s) rows))
      ≡ none
none_live id device [] h = refl
none_live id device (q ∷ rows) h =
    let rest = map (λ s. if is_active_id id s then retired s else s) rows in
    elim (Bool-cases (is_active_id id q)) [
      | inl e ↦ rw e (
          first-keep_tail (is_live device) (retired q) rest (retired-not_live device q)
          ∙ none_live id device rows h.1)
      | inr e ↦ rw e (
          first-keep_tail (is_live device) q rest (not_live id device q h.0 e)
          ∙ none_live id device rows h.1)
    ]

-- Once a sensor is retired, a reading from its device is refused: nothing is stored, no alert is
-- raised, and the gateway is told that the device is unknown.
pub record_reading-retire :
    (env : SensorAlert.Environment) (fails : SensorAlert.Stage → Bool) (id : ℕ) (sensor : Sensor)
    (dto : SensorReading) (g : Registry) (s : Store)
    → IsRegistry g
    → first (keep (is_active_id id) g.sensors) ≡ some sensor
    → dto.device_id ≡ sensor.device_id
    → record_reading env fails dto (retire id g).1 s ≡ (false, (retire id g).1, s)
unfolding record_reading retire
record_reading-retire env fails id sensor dto g s h found d =
    let unknown =
      ap
        (λ k.
          first
            (keep (is_live k) (map (λ s. if is_active_id id s then retired s else s) g.sensors)))
        d
      ∙ none_live id sensor.device_id g.sensors (owner id sensor g.sensors h.0 found) in
    rw (any_of (is_active_id id) sensor g.sensors found) (rw (unknown, record_for) refl)
