-- ===== src/Sensors/Registry/Apart.antt =====
-- Sensors that share neither an id nor a device id, and the changes that keep them so.
use open_fire_watch.Base.{
  ℕ, ◌<◌, ◌≡◌, ◌≢◌, refl, ap, sym, ◌∙◌, Bool, false, none, List, [], ◌∷◌, map, ◌==◌, if◌then◌else◌,
  first, keep, any, All, str_eq, eq_iff, arith, Bool-cases, inl, inr, String,
}
use open_fire_watch.Sensors.Current.{Sensor}
use open_fire_watch.Sensors.Registry.{
  RegisterSensor, is_device, with_details, remounted, is_active_id, is_other, retired,
}

-- Two sensors apart, and a registry whose sensors are all apart, with ids below the next.
abbrev pub IsApart : Sensor → Sensor → Type 0
IsApart s q = (s.id ≢ q.id) × (str_eq s.device_id q.device_id ≡ false)

abbrev pub AllApart : List Sensor → Type 0
AllApart [] = Unit
AllApart (s ∷ rows) = All (IsApart s) rows × AllApart rows

pub All-map {ℓ} :
    {A : Type ℓ} (P Q : A → Type 0) (f : A → A) (xs : List A)
    → ((x : A) → P x → Q (f x))
    → All P xs
    → All Q (map f xs)
All-map P Q f [] h a = tt
All-map P Q f (x ∷ xs) h a = (h x a.0, All-map P Q f xs h a.1)

pub All-and {ℓ} :
    {A : Type ℓ} (P Q : A → Type 0) (xs : List A) → All P xs → All Q xs → All (λ x. P x × Q x) xs
All-and P Q [] h k = tt
All-and P Q (x ∷ xs) h k = ((h.0, k.0), All-and P Q xs h.1 k.1)

-- A change of each row keeps the rows apart, if it does so for any two that a condition allows.
pub AllApart-map :
    (C : Sensor → Type 0) (f : Sensor → Sensor) (rows : List Sensor)
    → ((s q : Sensor) → C s → C q → IsApart s q → IsApart (f s) (f q))
    → All C rows
    → AllApart rows
    → AllApart (map f rows)
AllApart-map C f [] h c a = tt
AllApart-map C f (s ∷ rows) h c a = (
  All-map (λ q. C q × IsApart s q) (IsApart (f s)) f rows (λ q p. h s q c.0 p.0 p.1)
      (All-and C (IsApart s) rows c.1 a.0),
  AllApart-map C f rows h c.1 a.1,
)

pub none_of :
    (test : Sensor → Bool) (rows : List Sensor)
    → any test rows ≡ false
    → All (λ s. test s ≡ false) rows
none_of test [] h = tt
none_of test (s ∷ rows) h = (ground arith, none_of test rows (ground arith))

pub none_kept :
    (test : Sensor → Bool) (rows : List Sensor)
    → first (keep test rows) ≡ none
    → All (λ s. test s ≡ false) rows
none_kept test [] h = tt
none_kept test (s ∷ rows) h = elim (Bool-cases (test s)) [
  | inl e ↦ cc (rw (e, keep) at h)
  | inr e ↦ (e, none_kept test rows (rw (e, keep) at h))
]

pub str_eq_sym : (s t : String) → str_eq s t ≡ str_eq t s
str_eq_sym s t = elim (Bool-cases (str_eq s t)) [
  | inl e ↦ e ∙ sym ((eq_iff t s).1 (sym ((eq_iff s t).0 e)))
  | inr e ↦ elim (Bool-cases (str_eq t s)) [
    | inl q ↦ absurd (cc (e, (eq_iff s t).1 (sym ((eq_iff t s).0 q))))
    | inr q ↦ e ∙ sym q
  ]
]

-- A change that leaves the id and the device of every row.
pub change-AllApart :
    (f : Sensor → Sensor) (rows : List Sensor)
    → ((s : Sensor) → ((f s).id ≡ s.id) × ((f s).device_id ≡ s.device_id))
    → AllApart rows
    → AllApart (map f rows)
change-AllApart f rows h a = AllApart-map (λ s. s.id ≡ s.id) f rows both (anything rows) a
  where
    both : (s q : Sensor) → s.id ≡ s.id → q.id ≡ q.id → IsApart s q → IsApart (f s) (f q)
    both s q c d p = (
      λ e. p.0 (sym (h s).0 ∙ e ∙ (h q).0),
      ap (λ k. str_eq k (f q).device_id) (h s).1 ∙ ap (λ k. str_eq s.device_id k) (h q).1 ∙ p.1,
    )

    anything : (rows : List Sensor) → All (λ s. s.id ≡ s.id) rows
    anything [] = tt
    anything (s ∷ rows) = (refl, anything rows)

pub remount_keeps :
    (dto : RegisterSensor) (s : Sensor)
    → ((if is_device dto.device_id s then remounted dto s else s).id ≡ s.id)
      × ((if is_device dto.device_id s then remounted dto s else s).device_id ≡ s.device_id)
remount_keeps dto s = elim (Bool-cases (is_device dto.device_id s)) [
  | inl e ↦ rw e (refl, sym ((eq_iff s.device_id dto.device_id).0 e))
  | inr e ↦ rw e (refl, refl)
]

pub retire_keeps :
    (id : ℕ) (s : Sensor)
    → ((if is_active_id id s then retired s else s).id ≡ s.id)
      × ((if is_active_id id s then retired s else s).device_id ≡ s.device_id)
retire_keeps id s = elim (Bool-cases (is_active_id id s)) [
  | inl e ↦ rw e (refl, refl)
  | inr e ↦ rw e (refl, refl)
]

pub edit_id :
    (id : ℕ) (dto : RegisterSensor) (s : Sensor)
    → (if is_active_id id s then with_details dto s else s).id ≡ s.id
edit_id id dto s = elim (Bool-cases (is_active_id id s)) [ inl e ↦ rw e refl | inr e ↦ rw e refl ]

pub map-below :
    (f : Sensor → Sensor) (n : ℕ) (rows : List Sensor)
    → ((s : Sensor) → (f s).id ≡ s.id)
    → All (λ s. s.id < n) rows
    → All (λ s. s.id < n) (map f rows)
map-below f n rows h a =
    All-map (λ s. s.id < n) (λ s. s.id < n) f rows (λ s lt. omega (arith, h s)) a

-- A row that another may not share the new device with.
pub edit-IsApart :
    (id : ℕ) (dto : RegisterSensor) (s q : Sensor)
    → is_other id dto.device_id s ≡ false
    → is_other id dto.device_id q ≡ false
    → IsApart s q
    → IsApart
        (if is_active_id id s then with_details dto s else s)
        (if is_active_id id q then with_details dto q else q)
edit-IsApart id dto s q c d p = elim (Bool-cases (is_active_id id s)) [
  | inl e ↦ elim (Bool-cases (is_active_id id q)) [
    | inl k ↦ absurd (p.0 (ground (arith, e, k)))
    | inr k ↦
        rw (e, k)
          (
            p.0,
            str_eq_sym dto.device_id q.device_id
                ∙ not_device id q dto d (λ t. p.0 (ground (arith, e, t))),
          )
  ]
  | inr e ↦ elim (Bool-cases (is_active_id id q)) [
    | inl k ↦ rw (e, k) (p.0, not_device id s dto c (λ t. p.0 (ground (arith, k, t))))
    | inr k ↦ rw (e, k) p
  ]
]
  where
    not_device :
        (id : ℕ) (s : Sensor) (dto : RegisterSensor)
        → is_other id dto.device_id s ≡ false
        → s.id ≢ id
        → str_eq s.device_id dto.device_id ≡ false
    not_device id s dto c n = elim (Bool-cases (s.id == id)) [
      | inl e ↦ absurd (n (ground (arith, e)))
      | inr e ↦ rw e at c
    ]
