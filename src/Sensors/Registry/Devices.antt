-- ===== src/Sensors/Registry/Devices.antt =====
-- The device ids of the registry, and what retirement does.
use open_fire_watch.Base.{
  ℕ, ◌<◌, ◌≡◌, ◌≢◌, ◌∙◌, false, List, [], ◌∷◌, if◌then◌else◌, first, keep, any, All, All-imp, arith,
  Bool-cases, Option-cases, inl, inr,
}
use open_fire_watch.Sensors.Current.{Sensor}
use open_fire_watch.Sensors.Registry.{
  Registry, RegisterSensor, is_device, with_details, remounted, register_over, register,
  is_active_id, is_other, update, retired, retire,
}
use open_fire_watch.Sensors.Registry.Apart.{
  AllApart, All-and, AllApart-map, none_of, none_kept, str_eq_sym, change-AllApart, remount_keeps,
  retire_keeps, edit_id, map-below, edit-IsApart,
}

pub data Call : Type 0 where
  registration : RegisterSensor → Call
  edit : ℕ → RegisterSensor → Call
  retirement : ℕ → Call

abbrev pub perform : Call → Registry → Registry
perform (registration dto) g = (register dto g).1
perform (edit id dto) g = (update id dto g).1
perform (retirement id) g = (retire id g).1

abbrev pub calls : List Call → Registry → Registry
calls [] g = g
calls (c ∷ cs) g = calls cs (perform c g)

-- All sensors apart, with ids below the next.
abbrev pub IsRegistry : Registry → Type 0
IsRegistry g = AllApart g.sensors × All (λ s. s.id < g.next_id) g.sensors

register-IsRegistry :
    (dto : RegisterSensor) (g : Registry) → IsRegistry g → IsRegistry (register dto g).1
unfolding register
register-IsRegistry dto g h =
    elim (Option-cases (first (keep (is_device dto.device_id) g.sensors))) [
      | inl n ↦
          rw (n, register_over)
            (
              (
                All-imp g.sensors
                    (λ q p. (omega_apart q p.1, str_eq_sym dto.device_id q.device_id ∙ p.0))
                    (All-and (λ s. is_device dto.device_id s ≡ false) (λ s. s.id < g.next_id)
                      g.sensors (none_kept (is_device dto.device_id) g.sensors n) h.1),
                h.0,
              ),
              (omega arith, All-imp g.sensors (λ s lt. omega (arith, lt)) h.1),
            )
      | inr (old, o) ↦ elim (Bool-cases old.is_active) [
        | inl a ↦ rw (o, register_over, a) h
        | inr a ↦
            rw (o, register_over, a)
              (
                change-AllApart (λ s. if is_device dto.device_id s then remounted dto s else s)
                    g.sensors (remount_keeps dto) h.0,
                map-below (λ s. if is_device dto.device_id s then remounted dto s else s) g.next_id
                    g.sensors (λ s. (remount_keeps dto s).0) h.1,
              )
      ]
    ]
  where
    omega_apart : (q : Sensor) → q.id < g.next_id → g.next_id ≢ q.id
    omega_apart q lt e = absurd (omega (arith, e))

update-IsRegistry :
    (id : ℕ) (dto : RegisterSensor) (g : Registry) → IsRegistry g → IsRegistry (update id dto g).1
unfolding update
update-IsRegistry id dto g h = elim (Bool-cases (any (is_active_id id) g.sensors)) [
  | inr e ↦ rw e h
  | inl e ↦ elim (Bool-cases (any (is_other id dto.device_id) g.sensors)) [
    | inl o ↦ rw (e, o) h
    | inr o ↦
        rw (e, o)
          (
            AllApart-map (λ s. is_other id dto.device_id s ≡ false)
                (λ s. if is_active_id id s then with_details dto s else s) g.sensors
                (edit-IsApart id dto) (none_of (is_other id dto.device_id) g.sensors o) h.0,
            map-below (λ s. if is_active_id id s then with_details dto s else s) g.next_id g.sensors
                (edit_id id dto) h.1,
          )
  ]
]

retire-IsRegistry : (id : ℕ) (g : Registry) → IsRegistry g → IsRegistry (retire id g).1
unfolding retire
retire-IsRegistry id g h = elim (Bool-cases (any (is_active_id id) g.sensors)) [
  | inr e ↦ rw e h
  | inl e ↦ rw e (
    change-AllApart (λ s. if is_active_id id s then retired s else s) g.sensors (retire_keeps id)
        h.0,
    map-below (λ s. if is_active_id id s then retired s else s) g.next_id g.sensors
        (λ s. (retire_keeps id s).0) h.1,
  )
]

perform-IsRegistry : (c : Call) (g : Registry) → IsRegistry g → IsRegistry (perform c g)
perform-IsRegistry (registration dto) g h = register-IsRegistry dto g h
perform-IsRegistry (edit id dto) g h = update-IsRegistry id dto g h
perform-IsRegistry (retirement id) g h = retire-IsRegistry id g h

-- Whatever is registered, edited and retired, in whatever order, no two sensors share an id or a device
-- id, active or not, if none did before.
pub calls-IsRegistry : (cs : List Call) (g : Registry) → IsRegistry g → IsRegistry (calls cs g)
calls-IsRegistry [] g h = h
calls-IsRegistry (c ∷ cs) g h = calls-IsRegistry cs (perform c g) (perform-IsRegistry c g h)
