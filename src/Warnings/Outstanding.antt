-- ===== src/Warnings/Outstanding.antt =====
-- The active warnings are what is outstanding, once each.
use open_fire_watch.Base.{
  ℕ, suc, zero, ◌≤◌, ◌≡◌, refl, Bool, true, false, not, none, some, List, [], ◌∷◌, keep, take, any,
  length, ap, ◌∙◌, ◌+◌, ◌<◌, ◌==◌, ◌&&◌, ◌||◌, length-take-le, arith, Bool-cases, inl, inr,
}
use open_fire_watch.Warnings.{
  Alert, Screen, max_active_warnings, is_acknowledged, has_id, others, push_warning, push_all,
  apply_acknowledgement, load_history, Message, connect, disconnect, critical_alert, acknowledged,
  history_answer, receive, receive_all,
}

-- No two of the alerts have the same id, and none of them is acknowledged.
abbrev pub IsOutstanding : List Alert → Type 0
IsOutstanding [] = Unit
IsOutstanding (a ∷ rest) =
    (is_acknowledged a ≡ false) × (any (has_id a.payload.id) rest ≡ false) × IsOutstanding rest

any-others :
    (id j : ℕ) (xs : List Alert) → any (has_id j) xs ≡ false → any (has_id j) (others id xs) ≡ false
any-others id j [] h = refl
any-others id j (a ∷ xs) h = elim (Bool-cases (has_id id a)) [
  | inl e ↦ rw (e, keep) (any-others id j xs (ground arith))
  | inr e ↦ rw (e, keep) (ground (arith, any-others id j xs))
]

any-others_self : (id : ℕ) (xs : List Alert) → any (has_id id) (others id xs) ≡ false
any-others_self id [] = refl
any-others_self id (a ∷ xs) = elim (Bool-cases (has_id id a)) [
  | inl e ↦ rw (e, keep) (any-others_self id xs)
  | inr e ↦ rw (e, keep) (rw (e, any-others_self id xs) refl)
]

others-IsOutstanding : (id : ℕ) (xs : List Alert) → IsOutstanding xs → IsOutstanding (others id xs)
others-IsOutstanding id [] h = tt
others-IsOutstanding id (a ∷ xs) h = elim (Bool-cases (has_id id a)) [
  | inl e ↦ rw (e, keep) (others-IsOutstanding id xs h.2)
  | inr e ↦ rw (e, keep) (h.0, any-others id a.payload.id xs h.1, others-IsOutstanding id xs h.2)
]

any-take :
    (n j : ℕ) (xs : List Alert) → any (has_id j) xs ≡ false → any (has_id j) (take n xs) ≡ false
any-take zero j xs h = refl
any-take (suc n) j [] h = refl
any-take (suc n) j (a ∷ xs) h = ground (arith, any-take n j xs)

take-IsOutstanding : (n : ℕ) (xs : List Alert) → IsOutstanding xs → IsOutstanding (take n xs)
take-IsOutstanding zero xs h = tt
take-IsOutstanding (suc n) [] h = tt
take-IsOutstanding (suc n) (a ∷ xs) h =
    (h.0, any-take n a.payload.id xs h.1, take-IsOutstanding n xs h.2)

length-others : (id : ℕ) (xs : List Alert) → length (others id xs) ≤ length xs
length-others id [] = omega arith
length-others id (a ∷ xs) = elim (Bool-cases (has_id id a)) [
  | inl e ↦ rw (e, keep) (omega (arith, length-others id xs))
  | inr e ↦ rw (e, keep) (omega (arith, length-others id xs))
]

-- What a screen keeps of its warnings.
abbrev pub IsKept : Screen → Type 0
IsKept s = IsOutstanding s.active_warnings × (length s.active_warnings ≤ max_active_warnings)

push_warning-IsKept : (a : Alert) (s : Screen) → IsKept s → IsKept (push_warning a s)
unfolding push_warning
push_warning-IsKept a s h = elim (Bool-cases (is_acknowledged a)) [
  | inl e ↦ rw e h
  | inr e ↦ rw e (
    take-IsOutstanding 50 (a ∷ others a.payload.id s.active_warnings) (
      e,
      any-others_self a.payload.id s.active_warnings,
      others-IsOutstanding a.payload.id s.active_warnings h.0,
    ),
    length-take-le 50 (a ∷ others a.payload.id s.active_warnings),
  )
]

push_all-IsKept : (xs : List Alert) (s : Screen) → IsKept s → IsKept (push_all xs s)
unfolding push_all
push_all-IsKept [] s h = h
push_all-IsKept (a ∷ xs) s h = push_warning-IsKept a (push_all xs s) (push_all-IsKept xs s h)

receive-IsKept : (m : Message) (s : Screen) → IsKept s → IsKept (receive m s)
unfolding receive apply_acknowledgement load_history
receive-IsKept connect s h = h
receive-IsKept disconnect s h = h
receive-IsKept (critical_alert a) s h = push_warning-IsKept a s h
receive-IsKept (acknowledged id at) s h = (
  others-IsOutstanding id s.active_warnings h.0,
  omega (arith, length-others id s.active_warnings, h.1),
)
receive-IsKept (history_answer none) s h = h
receive-IsKept (history_answer (some (recent, criticals))) s h =
    push_all-IsKept criticals (record s { history = recent }) h

-- A screen whose active warnings are at most 50, none of them acknowledged and no anomaly among
-- them twice, as the empty screen is, stays so whatever messages arrive.
pub receive_all-IsKept : (ms : List Message) (s : Screen) → IsKept s → IsKept (receive_all ms s)
unfolding receive_all
receive_all-IsKept [] s h = h
receive_all-IsKept (m ∷ ms) s h = receive_all-IsKept ms (receive m s) (receive-IsKept m s h)

-- Whether the alert with an id is outstanding after a message: one that arrives unacknowledged is, one
-- that is acknowledged no longer is, and nothing else changes it.
abbrev brings : ℕ → List Alert → Bool
brings id = any (λ a. not (is_acknowledged a) && has_id id a)

abbrev outstanding_after : ℕ → Message → Bool → Bool
outstanding_after id connect was = was
outstanding_after id disconnect was = was
outstanding_after id (critical_alert a) was = brings id (a ∷ []) || was
outstanding_after id (acknowledged j at) was = was && not (j == id)
outstanding_after id (history_answer none) was = was
outstanding_after id (history_answer (some (recent, criticals))) was = brings id criticals || was

abbrev pub outstanding : ℕ → List Message → Bool → Bool
outstanding id [] was = was
outstanding id (m ∷ ms) was = outstanding id ms (outstanding_after id m was)

-- How many alerts the messages bring, acknowledged or not.
abbrev alerts_in : Message → ℕ
alerts_in (critical_alert a) = 1
alerts_in (history_answer (some (recent, criticals))) = length criticals
alerts_in _ = 0

abbrev pub arrivals : List Message → ℕ
arrivals [] = 0
arrivals (m ∷ ms) = alerts_in m + arrivals ms

take_all : (n : ℕ) (xs : List Alert) → length xs ≤ n → take n xs ≡ xs
take_all zero [] h = refl
take_all zero (a ∷ xs) h = absurd (omega (arith, h))
take_all (suc n) [] h = refl
take_all (suc n) (a ∷ xs) h = ap (λ ys. a ∷ ys) (take_all n xs (omega (arith, h)))

any-others_both :
    (j id : ℕ) (xs : List Alert)
    → any (has_id id) (others j xs) ≡ (any (has_id id) xs && not (j == id))
any-others_both j id [] = refl
any-others_both j id (a ∷ xs) = elim (Bool-cases (has_id j a)) [
  | inl e ↦ rw (e, keep) (ground (arith, any-others_both j id xs))
  | inr e ↦ rw (e, keep) (ground (arith, any-others_both j id xs))
]

or_other : (x b : Bool) → (x || (b && not x)) ≡ (x || b)
or_other true b = refl
or_other false true = refl
or_other false false = refl

-- A screen holds an alert as the account says, within a number of warnings.
abbrev Holds : ℕ → ℕ → Bool → Screen → Type 0
Holds id n here s = (any (has_id id) s.active_warnings ≡ here) × (length s.active_warnings ≤ n)

push_warning-Holds :
    (id n : ℕ) (here : Bool) (a : Alert) (s : Screen)
    → n < max_active_warnings
    → Holds id n here s
    → Holds id (n + 1) (not (is_acknowledged a) && has_id id a || here) (push_warning a s)
unfolding push_warning
push_warning-Holds id n here a s room (same, short) = elim (Bool-cases (is_acknowledged a)) [
  | inl e ↦ rw e (same, omega arith)
  | inr e ↦
      let rest = others a.payload.id s.active_warnings in
      let fits = length-others a.payload.id s.active_warnings in
      rw (e, take_all 49 rest (omega arith))
        (
          rw (any-others_both a.payload.id id s.active_warnings, same)
              (or_other (a.payload.id == id) here),
          omega arith,
        )
]

push_all-Holds :
    (id n : ℕ) (here : Bool) (xs : List Alert) (s : Screen)
    → n + length xs ≤ max_active_warnings
    → Holds id n here s
    → Holds id (n + length xs) (brings id xs || here) (push_all xs s)
unfolding push_all
push_all-Holds id n here [] s room h = (h.0, omega (arith, h.1))
push_all-Holds id n here (a ∷ xs) s room h =
    let (same, short) =
      push_warning-Holds id (n + length xs) (brings id xs || here) a (push_all xs s) (omega arith)
        (push_all-Holds id n here xs s (omega arith) h) in
    (ground arith, omega arith)

receive-Holds :
    (id n : ℕ) (here : Bool) (m : Message) (s : Screen)
    → n + alerts_in m ≤ max_active_warnings
    → Holds id n here s
    → Holds id (n + alerts_in m) (outstanding_after id m here) (receive m s)
unfolding receive apply_acknowledgement load_history
receive-Holds id n here connect s room h = (h.0, omega (arith, h.1))
receive-Holds id n here disconnect s room h = (h.0, omega (arith, h.1))
receive-Holds id n here (critical_alert a) s room h =
    let (same, short) = push_warning-Holds id n here a s (omega arith) h in
    (ground arith, omega arith)
receive-Holds id n here (acknowledged j at) s room h = (
  any-others_both j id s.active_warnings ∙ ap (λ b. b && not (j == id)) h.0,
  omega (arith, length-others j s.active_warnings, h.1),
)
receive-Holds id n here (history_answer none) s room h = (h.0, omega (arith, h.1))
receive-Holds id n here (history_answer (some (recent, criticals))) s room h =
    push_all-Holds id n here criticals (record s { history = recent }) room h

-- The account of one alert agrees with the screen after any messages.
receive_all-Holds :
    (id n : ℕ) (here : Bool) (ms : List Message) (s : Screen)
    → n + arrivals ms ≤ max_active_warnings
    → Holds id n here s
    → any (has_id id) (receive_all ms s).active_warnings ≡ outstanding id ms here
unfolding receive_all
receive_all-Holds id n here [] s room h = h.0
receive_all-Holds id n here (m ∷ ms) s room h =
    receive_all-Holds id (n + alerts_in m) (outstanding_after id m here) ms (receive m s)
      (omega arith) (receive-Holds id n here m s (omega arith) h)

-- While no more than 50 alerts have arrived, those that the screen starts with included, an alert is
-- among the active warnings exactly when it is outstanding: when it was there or arrived
-- unacknowledged, live or with the history, and was not acknowledged since. No two active warnings
-- have the same id, and none is acknowledged, if it was so at the start.
pub receive_all-outstanding :
    (id : ℕ) (ms : List Message) (s : Screen)
    → IsKept s
    → length s.active_warnings + arrivals ms ≤ 50
    → (any (has_id id) (receive_all ms s).active_warnings
        ≡ outstanding id ms (any (has_id id) s.active_warnings))
      × IsKept (receive_all ms s)
receive_all-outstanding id ms s kept room = (
  receive_all-Holds id (length s.active_warnings) _ ms s room (refl, omega arith),
  receive_all-IsKept ms s kept,
)
