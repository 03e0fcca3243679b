-- ===== src/Forecast/Windows.antt =====
-- What the windows of a forecast say of its hours.
use open_fire_watch.Base.{
  String, ap, ◌≡◌, refl, Bool, true, false, Option, none, some, List, [], ◌∷◌, arith, if◌then◌else◌,
  All, Bool-cases, inl, inr,
}
use open_fire_watch.Base.Int.{ℤ, ltb_ℤ, leb_ℤ, max_ℤ, min_ℤ}
use open_fire_watch.Evaluation.Level.{ignition_temperature_c, critical_soil_moisture_pct}
use open_fire_watch.Forecast.{
  Hour, IgnitionWindow, qualifies, extended, closed, windows_from, find_windows,
}

-- A window whose peak and driest hour pass both thresholds.
abbrev pub IsOpenWindow : IgnitionWindow → Type 0
IsOpenWindow w =
    (leb_ℤ ignition_temperature_c w.peak_temperature_c ≡ true)
    × (ltb_ℤ w.min_soil_moisture_pct critical_soil_moisture_pct ≡ true)

abbrev OpenIs : (IgnitionWindow → Type 0) → Option IgnitionWindow → Type 0
OpenIs P none = Unit
OpenIs P (some w) = P w

extended-IsOpenWindow :
    (o : Option IgnitionWindow) (x : Hour)
    → OpenIs IsOpenWindow o
    → qualifies x ≡ true
    → IsOpenWindow (extended o x)
unfolding extended max_ℤ min_ℤ
extended-IsOpenWindow none x h q = ground arith
extended-IsOpenWindow (some w) x h q = ground arith

closed-IsOpenWindow :
    (o : Option IgnitionWindow) (ws : List IgnitionWindow)
    → OpenIs IsOpenWindow o
    → All IsOpenWindow ws
    → All IsOpenWindow (closed o ws)
closed-IsOpenWindow none ws h k = k
closed-IsOpenWindow (some w) ws h k = (h, k)

windows_from-IsOpenWindow :
    (is_open : Option IgnitionWindow) (hs : List Hour)
    → OpenIs IsOpenWindow is_open
    → All IsOpenWindow (windows_from is_open hs)
unfolding windows_from
windows_from-IsOpenWindow none [] h = tt
windows_from-IsOpenWindow (some w) [] h = (h, tt)
windows_from-IsOpenWindow o (x ∷ hs) h = elim (Bool-cases (qualifies x)) [
  | inl q ↦
      rw (q, windows_from)
        (windows_from-IsOpenWindow (some (extended o x)) hs (extended-IsOpenWindow o x h q))
  | inr q ↦
      rw (q, windows_from)
        (closed-IsOpenWindow o (windows_from none hs) h (windows_from-IsOpenWindow none hs tt))
]

-- Every window that is found reaches both thresholds: its peak temperature the ignition temperature,
-- its lowest soil moisture below the critical one.
pub find_windows-IsOpenWindow : (hours : List Hour) → All IsOpenWindow (find_windows hours)
unfolding find_windows
find_windows-IsOpenWindow hours = windows_from-IsOpenWindow none hours tt

-- The hours that qualify from the first on, and what comes after them.
abbrev leading : List Hour → List Hour
leading [] = []
leading (h ∷ hs) = if qualifies h then h ∷ leading hs else []

abbrev after_leading : List Hour → List Hour
after_leading [] = []
after_leading (h ∷ hs) = if qualifies h then after_leading hs else h ∷ hs

-- The longest stretches of consecutive qualifying hours, from the last hour back: an hour joins the
-- stretch that begins with the hour after it.
abbrev begins_open : List Hour → Bool
begins_open [] = false
begins_open (h ∷ hs) = qualifies h

abbrev stretched_by : Hour → Bool → List (List Hour) → List (List Hour)
stretched_by h true (stretch ∷ rest) = (h ∷ stretch) ∷ rest
stretched_by h _ rest = (h ∷ []) ∷ rest

abbrev pub stretches : List Hour → List (List Hour)
stretches [] = []
stretches (h ∷ hs) =
    let rest = stretches hs in if qualifies h then stretched_by h (begins_open hs) rest else rest

abbrev last_at : String → List Hour → String
last_at at [] = at
last_at at (h ∷ hs) = last_at h.at hs

abbrev hottest : ℤ → List Hour → ℤ
hottest t [] = t
hottest t (h ∷ hs) = hottest (max_ℤ t h.temperature_c) hs

abbrev driest : ℤ → List Hour → ℤ
driest m [] = m
driest m (h ∷ hs) = driest (min_ℤ m h.soil_moisture_pct) hs

-- The window of a stretch: from its first hour to its last, with its highest temperature and its
-- lowest soil moisture.
abbrev merged : IgnitionWindow → List Hour → IgnitionWindow
merged w hs = record {
  from = w.from;
  to = last_at w.to hs;
  peak_temperature_c = hottest w.peak_temperature_c hs;
  min_soil_moisture_pct = driest w.min_soil_moisture_pct hs;
}

abbrev window_of_hour : Hour → IgnitionWindow
window_of_hour h = record {
  from = h.at;
  to = h.at;
  peak_temperature_c = h.temperature_c;
  min_soil_moisture_pct = h.soil_moisture_pct;
}

abbrev pub windows_of : List (List Hour) → List IgnitionWindow
windows_of [] = []
windows_of ([] ∷ rest) = windows_of rest
windows_of ((h ∷ hs) ∷ rest) = merged (window_of_hour h) hs ∷ windows_of rest

stretches-leading :
    (h : Hour) (hs : List Hour)
    → stretched_by h (begins_open hs) (stretches hs)
      ≡ (h ∷ leading hs) ∷ stretches (after_leading hs)
stretches-leading h [] = refl
stretches-leading h (k ∷ hs) = elim (Bool-cases (qualifies k)) [
  | inl q ↦ rw (q, stretches-leading k hs) refl
  | inr q ↦ rw (q, q) refl
]

windows_from-stretches :
    (hs : List Hour)
    → ((w : IgnitionWindow)
        → windows_from (some w) hs
          ≡ merged w (leading hs) ∷ windows_of (stretches (after_leading hs)))
      × (windows_from none hs ≡ windows_of (stretches hs))
unfolding windows_from extended
windows_from-stretches [] = ((λ w. refl), refl)
windows_from-stretches (x ∷ hs) =
    let (running, fresh) = windows_from-stretches hs in
    elim (Bool-cases (qualifies x)) [
      | inl q ↦ (
        (λ w. rw (q, windows_from) (running (extended (some w) x))),
        rw (q, windows_from, stretches-leading x hs) (running (extended none x)),
      )
      | inr q ↦
          ((λ w. rw (q, windows_from, q) (ap (λ ws. w ∷ ws) fresh)), rw (q, windows_from) fresh)
    ]

-- The windows are those of the longest stretches of consecutive qualifying hours, in their order, one
-- for each: from the time of its first hour to the time of its last, with its highest temperature and
-- its lowest soil moisture.
pub find_windows-stretches : (hours : List Hour) → find_windows hours ≡ windows_of (stretches hours)
unfolding find_windows
find_windows-stretches hours = (windows_from-stretches hours).1
