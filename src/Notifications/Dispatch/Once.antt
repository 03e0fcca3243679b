-- ===== src/Notifications/Dispatch/Once.antt =====
-- The same news is not sent twice while its key is claimed.
use open_fire_watch.Base.{
  ℕ, ◌+◌, ◌<◌, ◌≤◌, ◌≡◌, refl, Bool, true, false, List, arith, ==_iff, any, Bool-cases, inl, inr,
}
use open_fire_watch.Notifications.Dispatch.{
  Notification, DedupeKey, alert_key, escalate_key, stalled_key, recovered_key, forecast_key,
  key_eq, Outbox, Claim, Surroundings, configured_channels, is_held, is_empty, claim, dispatch,
  notify, meets_severity_floor, dedupe_ttl_ms,
}

key_eq_refl : (k : DedupeKey) → key_eq k k ≡ true
key_eq_refl (alert_key a) = (==_iff a a).1 refl
key_eq_refl (escalate_key a) = (==_iff a a).1 refl
key_eq_refl (stalled_key a) = (==_iff a a).1 refl
key_eq_refl (recovered_key a) = (==_iff a a).1 refl
key_eq_refl (forecast_key a s) = ground arith

-- After a claim that Redis answered, the key is held until its time to live has passed.
claim-held :
    (key : DedupeKey) (now later : ℕ) (claims : List Claim)
    → now ≤ later
    → later < now + dedupe_ttl_ms
    → (claim true key now claims).0 ≡ true
    → any (is_held key later) (claim true key now claims).1 ≡ true
unfolding claim
claim-held key now later claims h k c = elim (Bool-cases (any (is_held key now) claims)) [
  | inl held ↦ cc (rw held at c)
  | inr free ↦ rw free (ground (arith, key_eq_refl key))
]

dispatch-claims :
    (env : Surroundings) (n : Notification) (box : Outbox) (answer : Bool × List Claim)
    → answer.0 ≡ true
    → (dispatch env n box answer).claims ≡ answer.1
unfolding dispatch
dispatch-claims env n box (false, claims) h = cc
dispatch-claims env n box (true, claims) h = refl

dispatch-held :
    (env : Surroundings) (n : Notification) (box : Outbox)
    → any (is_held n.dedupe_key env.now) box.claims ≡ true
    → dispatch env n box (claim true n.dedupe_key env.now box.claims) ≡ box
unfolding dispatch claim
dispatch-held env n box h = rw h refl

notify-held :
    (env : Surroundings) (n : Notification) (box : Outbox)
    → env.redis_answers ≡ true
    → any (is_held n.dedupe_key env.now) box.claims ≡ true
    → notify env n box ≡ box
unfolding notify
notify-held env n box r h = ground (arith, dispatch-held env n box h)

pub notify-claims :
    (env : Surroundings) (n : Notification) (box : Outbox)
    → meets_severity_floor env.min_severity n.severity ≡ true
    → is_empty (configured_channels env) ≡ false
    → env.redis_answers ≡ true
    → (claim true n.dedupe_key env.now box.claims).0 ≡ true
    → (notify env n box).claims ≡ (claim true n.dedupe_key env.now box.claims).1
unfolding notify
notify-claims env n box f some_set r c = rw (f, some_set, r) (dispatch-claims env n box _ c)

-- After a notification at or above the severity floor, with a configured channel and Redis
-- answering, that was granted the claim of its key, a later one with the same key changes nothing
-- until six hours have passed, if Redis answers it: whatever its kind, its severity and the
-- channels.
pub notify-notify :
    (env env' : Surroundings) (n n' : Notification) (box : Outbox)
    → meets_severity_floor env.min_severity n.severity ≡ true
    → is_empty (configured_channels env) ≡ false
    → env.redis_answers ≡ true
    → env'.redis_answers ≡ true
    → (claim true n.dedupe_key env.now box.claims).0 ≡ true
    → n'.dedupe_key ≡ n.dedupe_key
    → env.now ≤ env'.now
    → env'.now < env.now + dedupe_ttl_ms
    → notify env' n' (notify env n box) ≡ notify env n box
notify-notify env env' n n' box f some_set r r' c same from until =
    notify-held env' n' (notify env n box) r' (
      rw (notify-claims env n box f some_set r c, same)
        (claim-held n.dedupe_key env.now env'.now box.claims from until c))
