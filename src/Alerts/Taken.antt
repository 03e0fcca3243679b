-- ===== src/Alerts/Taken.antt =====
-- An alert that was taken stays taken, and is not called out again.
use open_fire_watch.Base.{
  ℕ, ◌≡◌, refl, ap, ◌∙◌, Bool, true, false, ◌&&◌, none, some, List, [], ◌∷◌, map, any, keep,
  is_some, if◌then◌else◌, arith, Bool-cases, inl, inr,
}
use open_fire_watch.Store.{Event}
use open_fire_watch.Alerts.{is_of, is_untaken, take_at, first_taken, acknowledge}
use open_fire_watch.Notifications.Escalation.{is_due}

untaken-take_at :
    (now id : ℕ) (es : List Event) → any (is_untaken id) (map (take_at now id) es) ≡ false
untaken-take_at now id [] = refl
untaken-take_at now id (e ∷ es) = elim (Bool-cases (is_untaken id e)) [
  | inl u ↦ ground (arith, u, untaken-take_at now id es)
  | inr u ↦ ground (arith, u, untaken-take_at now id es)
]

untaken-acknowledge :
    (now id : ℕ) (es : List Event) → any (is_untaken id) (acknowledge now id es).1 ≡ false
unfolding acknowledge
untaken-acknowledge now id es = elim (Bool-cases (any (is_untaken id) es)) [
  | inl u ↦ rw u (untaken-take_at now id es)
  | inr u ↦ rw u u
]

first_taken-none :
    (id : ℕ) (es : List Event)
    → any (λ e. is_of id e && is_some e.acknowledged_at) es ≡ false
    → first_taken id es ≡ none
first_taken-none id [] h = refl
first_taken-none id (e ∷ es) h = ground (arith, first_taken-none id es)

first_taken-take_at :
    (now id : ℕ) (es : List Event)
    → any (λ e. is_of id e && is_some e.acknowledged_at) es ≡ false
    → first_taken id (map (take_at now id) es) ≡ (if any (is_untaken id) es then some now else none)
first_taken-take_at now id [] h = refl
first_taken-take_at now id (e ∷ es) h = ground (arith, first_taken-take_at now id es)

acknowledge-untaken :
    (now id : ℕ) (es : List Event)
    → any (is_untaken id) es ≡ true
    → acknowledge now id es ≡ (some now, map (take_at now id) es)
unfolding acknowledge
acknowledge-untaken now id es u = rw u refl

acknowledge-taken :
    (now id : ℕ) (es : List Event)
    → any (is_untaken id) es ≡ false
    → acknowledge now id es ≡ (first_taken id es, es)
unfolding acknowledge
acknowledge-taken now id es u = rw u refl

-- To take an alert again changes nothing; and where the alert was there and nobody had taken it, the
-- answer is once more the time at which it was taken first.
pub acknowledge-acknowledge :
    (now later id : ℕ) (es : List Event)
    → let once = acknowledge now id es in
      let twice = acknowledge later id once.1 in
      (twice.1 ≡ once.1)
      × (any (λ e. is_of id e && is_some e.acknowledged_at) es ≡ false → twice.0 ≡ once.0)
acknowledge-acknowledge now later id es =
    let again =
      acknowledge-taken later id (acknowledge now id es).1 (untaken-acknowledge now id es) in
    (ap (λ p. p.1) again, λ fresh. ap (λ p. p.0) again ∙ answer fresh (any (is_untaken id) es) refl)
  where
    answer :
        any (λ e. is_of id e && is_some e.acknowledged_at) es ≡ false
        → (b : Bool) → any (is_untaken id) es ≡ b
        → first_taken id (acknowledge now id es).1 ≡ (acknowledge now id es).0
    answer fresh true u =
        rw (acknowledge-untaken now id es u) (first_taken-take_at now id es fresh ∙ rw u refl)
    answer fresh false u = rw (acknowledge-taken now id es u) refl

due-untaken :
    (now delay id : ℕ) (e : Event)
    → is_untaken id e ≡ false
    → (is_of id e && is_due now delay e) ≡ false
unfolding is_due
due-untaken now delay id e h = ground arith

keep-due :
    (now delay id : ℕ) (es : List Event)
    → any (is_untaken id) es ≡ false
    → any (is_of id) (keep (is_due now delay) es) ≡ false
keep-due now delay id [] h = refl
keep-due now delay id (e ∷ es) h = elim (Bool-cases (is_due now delay e)) [
  | inl d ↦ rw (d, keep) (ground (arith, d, due-untaken now delay id e, keep-due now delay id es))
  | inr d ↦ rw (d, keep) (keep-due now delay id es (ground arith))
]

-- After an alert was taken, no sweep finds it due for a reminder, whenever it runs and whatever its
-- delay.
pub acknowledge-due :
    (taken now delay id : ℕ) (es : List Event)
    → any (is_of id) (keep (is_due now delay) (acknowledge taken id es).1) ≡ false
acknowledge-due taken now delay id es =
    keep-due now delay id (acknowledge taken id es).1 (untaken-acknowledge taken id es)
