-- ===== src/Evaluation/Level/Cases.antt =====
-- The profiles of alert-level.enum.ts by cases on the hazard type, and the levels that page.
use open_fire_watch.Base.{
  ◌≡◌, refl, inl, inr, String, Bool, true, false, str_eq, eq_iff, Bool-cases,
}
use open_fire_watch.Evaluation.Level.{
  AlertLevel, info, elevated, critical_phosphorus_fire, is_critical, profile_for,
  phosphorus_profile, forest_profile, wildfire_profile, depot_profile, generic_profile,
}

-- The levels that page, by their constructors.
abbrev pub pages_level : AlertLevel → Bool
pages_level info = false
pages_level elevated = false
pages_level _ = true

-- The prefix of a level's name tells the critical levels from the others.
pub is_critical_lem : (level : AlertLevel) → is_critical level ≡ pages_level level
unfolding is_critical
is_critical_lem info = refl
is_critical_lem elevated = refl
is_critical_lem critical_phosphorus_fire = refl
is_critical_lem _ = refl

-- Neither of the two hazards that track the window, and not the one without a gate.
abbrev pub IsOrdinary : String → Type 0
IsOrdinary hazard =
    (str_eq hazard "white_phosphorus" ≡ false)
    × (str_eq hazard "white_phosphorus_forest" ≡ false)
    × (str_eq hazard "ammunition_depot" ≡ false)

-- Which profile a hazard type gets.
pub data ProfileCase (hazard : String) : Type 0 where
  phosphorus :
      hazard ≡ "white_phosphorus" → profile_for hazard ≡ phosphorus_profile → ProfileCase hazard
  forest :
      hazard ≡ "white_phosphorus_forest" → profile_for hazard ≡ forest_profile → ProfileCase hazard
  depot : hazard ≡ "ammunition_depot" → profile_for hazard ≡ depot_profile → ProfileCase hazard
  wildfire : IsOrdinary hazard → profile_for hazard ≡ wildfire_profile → ProfileCase hazard
  other : IsOrdinary hazard → profile_for hazard ≡ generic_profile → ProfileCase hazard

depot_at : (hazard : String) → hazard ≡ "ammunition_depot" → profile_for hazard ≡ depot_profile
unfolding profile_for
depot_at hazard e = rw e

pub profile_cases : (hazard : String) → ProfileCase hazard
unfolding profile_for
profile_cases hazard = elim (Bool-cases (str_eq hazard "white_phosphorus")) [
  | inl p ↦ phosphorus ((eq_iff hazard _).0 p) (rw p)
  | inr p ↦ elim (Bool-cases (str_eq hazard "white_phosphorus_forest")) [
    | inl q ↦ forest ((eq_iff hazard _).0 q) (rw (p, q))
    | inr q ↦ elim (Bool-cases (str_eq hazard "ammunition_depot")) [
      | inl d ↦ depot ((eq_iff hazard _).0 d) (depot_at hazard ((eq_iff hazard _).0 d))
      | inr d ↦ elim (Bool-cases (str_eq hazard "wildfire")) [
        | inl w ↦ wildfire (p, q, d) (rw (p, q, w))
        | inr w ↦ elim (Bool-cases (str_eq hazard "generic")) [
          | inl g ↦ other (p, q, d) (rw (p, q, w, d, g))
          | inr g ↦ other (p, q, d) (rw (p, q, w, d, g))
        ]
      ]
    ]
  ]
]
