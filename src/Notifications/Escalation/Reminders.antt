-- ===== src/Notifications/Escalation/Reminders.antt =====
-- How often an alert that nobody took is called out again.
use open_fire_watch.Base.{
  ℕ, ◌+◌, ◌≤◌, ◌≡◌, refl, ◌∙◌, ap, String, true, false, List, [], ◌∷◌, ◌++◌, map, arith, ◌==◌,
  Bool-cases, inl, inr, keep, any,
}
use open_fire_watch.Store.{Event}
use open_fire_watch.Notifications.Dispatch.{
  DedupeKey, escalate_key, critical, Channel, Outbox, Surroundings, configured_channels, is_empty,
  claim, is_held, meets_severity_floor, dedupe_ttl_ms, notify,
}
use open_fire_watch.Notifications.Dispatch.Tries.{recorded_channels, notify-deliveries}
use open_fire_watch.Notifications.Dispatch.Once.{notify-claims}
use open_fire_watch.Notifications.Escalation.{is_due, reminder, remind, sort_rows, sweep}

sweep-one :
    (env : Surroundings) (delay : ℕ) (e : Event) (box : Outbox)
    → (delay == 0) ≡ false
    → is_due env.now delay e ≡ true
    → sweep env delay (e ∷ []) box ≡ notify env (reminder e) box
unfolding sweep sort_rows remind
sweep-one env delay e box d due = rw (d, keep, due) refl

claim-empty : (key : DedupeKey) (now : ℕ) → (claim true key now []).0 ≡ true
unfolding claim
claim-empty key now = refl

claim-expired :
    (key : DedupeKey) (now later : ℕ)
    → now + dedupe_ttl_ms ≤ later
    → (claim true key later (claim true key now []).1).0 ≡ true
unfolding claim
claim-expired key now later h =
    elim (Bool-cases
      (any (is_held key later) (record { key = key; expires_at = now + dedupe_ttl_ms } ∷ []))) [
        | inl held ↦ ground arith
        | inr free ↦ rw free refl
      ]

abbrev names : Surroundings → List String
names env = map (λ (c : Channel). c.name) (configured_channels env)

-- From an outbox without claims, a critical alert that is due is called out on every configured
-- channel, and called out a second time by a sweep at least six hours later, if it is still due
-- then: escalation is on, the floor lets critical news pass, and Redis and the database answer
-- both sweeps.
pub sweep-sweep :
    (env env' : Surroundings) (delay : ℕ) (e : Event) (box : Outbox)
    → box.claims ≡ []
    → (delay == 0) ≡ false
    → is_due env.now delay e ≡ true
    → is_due env'.now delay e ≡ true
    → env.now + dedupe_ttl_ms ≤ env'.now
    → meets_severity_floor env.min_severity critical ≡ true
    → meets_severity_floor env'.min_severity critical ≡ true
    → is_empty (configured_channels env) ≡ false
    → env.redis_answers ≡ true
    → env'.redis_answers ≡ true
    → env.database_answers ≡ true
    → env'.database_answers ≡ true
    → recorded_channels (sweep env' delay (e ∷ []) (sweep env delay (e ∷ []) box)).deliveries
      ≡ names env' ++ (names env ++ recorded_channels box.deliveries)
sweep-sweep env env' delay e box fresh d due due' late f f' some_set r r' db db' =
    let key = escalate_key e.anomaly_id in
    let free : (claim env.redis_answers key env.now box.claims).0 ≡ true =
      rw (r, fresh) (claim-empty key env.now) in
    let free_true : (claim true key env.now box.claims).0 ≡ true =
      rw fresh (claim-empty key env.now) in
    let held : (notify env (reminder e) box).claims ≡ (claim true key env.now []).1 =
      rw (notify-claims env (reminder e) box f some_set r free_true, fresh) refl in
    rw
      (sweep-one env delay e box d due, sweep-one env' delay e (notify env (reminder e) box) d due')
      (notify-deliveries env' (reminder e) (notify env (reminder e) box) f' db'
          (rw (r', held) (claim-expired key env.now env'.now late))
        ∙ ap (λ l. names env' ++ l) (notify-deliveries env (reminder e) box f db free))
