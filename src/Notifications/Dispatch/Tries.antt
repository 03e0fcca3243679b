-- ===== src/Notifications/Dispatch/Tries.antt =====
-- How often a channel is tried, and what is written down of it.
use open_fire_watch.Base.{
  ℕ, ◌≡◌, ◌↔◌, ◌⊎◌, refl, ap, String, Bool, true, false, Option, none, List, [], ◌∷◌, ◌++◌, map,
  arith, Bool-cases, inl, inr, is_some,
}
use open_fire_watch.Notifications.Dispatch.{
  sent, failed, Notification, Channel, Delivery, Outbox, Claim, Surroundings, configured_channels,
  is_empty, claim, deliver, dispatch, notify, meets_severity_floor,
}

-- A channel counts as served exactly when one of its three tries succeeds; if none does, the record
-- says so with the error of the last.
pub deliver-status :
    (send : ℕ → Option String) (n : Notification) (c : Channel)
    → let d = deliver send n c in
      ((d.status ≡ sent) ↔ ((send 0 ≡ none) ⊎ (send 1 ≡ none) ⊎ (send 2 ≡ none)))
      × (d.status ≡ failed → (d.error ≡ send 2) × (is_some (send 2) ≡ true))
unfolding deliver
deliver-status send n c = ground arith

-- The channels that the records name.
abbrev pub recorded_channels : List Delivery → List String
recorded_channels = map (λ d. d.channel)

nil_of_empty : (cs : List Channel) → is_empty cs ≡ true → cs ≡ []
nil_of_empty [] h = refl
nil_of_empty (c ∷ cs) h = cc

channels-append :
    (send : Channel → ℕ → Option String) (n : Notification) (cs : List Channel)
    (old : List Delivery)
    → recorded_channels (map (λ c. deliver (send c) n c) cs ++ old)
      ≡ map (λ (c : Channel). c.name) cs ++ recorded_channels old
unfolding deliver
channels-append send n [] old = refl
channels-append send n (c ∷ cs) old = ap (◌∷◌ c.name) (channels-append send n cs old)

dispatch-channels :
    (env : Surroundings) (n : Notification) (box : Outbox) (answer : Bool × List Claim)
    → env.database_answers ≡ true
    → answer.0 ≡ true
    → recorded_channels (dispatch env n box answer).deliveries
      ≡ map (λ (c : Channel). c.name) (configured_channels env) ++ recorded_channels box.deliveries
unfolding dispatch
dispatch-channels env n box (false, claims) d k = cc
dispatch-channels env n box (true, claims) d k =
    rw d (channels-append env.send n (configured_channels env) box.deliveries)

-- Each configured channel gets one record, in their order, whatever the others answered: written for a
-- notification at or above the floor whose key is free, with the database answering.
pub notify-deliveries :
    (env : Surroundings) (n : Notification) (box : Outbox)
    → meets_severity_floor env.min_severity n.severity ≡ true
    → env.database_answers ≡ true
    → (claim env.redis_answers n.dedupe_key env.now box.claims).0 ≡ true
    → recorded_channels (notify env n box).deliveries
      ≡ map (λ (c : Channel). c.name) (configured_channels env) ++ recorded_channels box.deliveries
unfolding notify
notify-deliveries env n box f d k = elim (Bool-cases (is_empty (configured_channels env))) [
  | inl none_set ↦ rw (f, none_set) (rw (nil_of_empty (configured_channels env) none_set) refl)
  | inr some_set ↦ rw (f, some_set) (dispatch-channels env n box _ d k)
]
