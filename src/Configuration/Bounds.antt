-- ===== src/Configuration/Bounds.antt =====
-- What a configuration that was accepted guarantees, and what a bad number does.
use open_fire_watch.Base.{
  ℕ, ◌≡◌, refl, subst, String, false, Option, none, some, List, [], ◌∷◌, Any, arith, inl, inr,
  Bool-cases,
}
use open_fire_watch.Base.Int.{ℤ, pos, negsuc, ◌≤ℤ◌}
use open_fire_watch.Base.Text.{Text}
use open_fire_watch.Base.Tried.{Tried, ok, thrown}
use open_fire_watch.Evaluation.Level.{units}
use open_fire_watch.Configuration.{
  Language, AppConfig, raw, outside, checked, on_text, num, parse_port, usable_port, is_no_port,
  in_thousandths, last_segment, read_config, settled, load_config,
}
use open_fire_watch.Configuration.Problems.{
  Checked, Problem, not_a_number, report, Sound, pure_sound, bind_sound, Names, bind_here,
  bind_later,
}

abbrev AtLeast : Option ℤ → ℤ → Type 0
AtLeast none v = Unit
AtLeast (some m) v = m ≤ℤ v

abbrev AtMost : Option ℤ → ℤ → Type 0
AtMost none v = Unit
AtMost (some m) v = v ≤ℤ m

abbrev Within : Option ℤ → Option ℤ → ℤ → Type 0
Within min max v = AtLeast min v × AtMost max v

port_lem :
    (p : ℤ) → is_no_port p ≡ false → Within (some (units 1)) (some (units 65535)) (in_thousandths p)
port_lem (pos n) e = (ground arith, ground arith)
port_lem (negsuc n) e = absurd (ground arith)

module _ (js : Language) (env : String → Option Text) where
  outside-Within :
      (key : String) (v : ℤ) (min max : Option ℤ)
      → outside js env key v min max ≡ []
      → Within min max v
  outside-Within key v none none h = (tt, tt)
  outside-Within key v (some m) none h = (ground arith, tt)
  outside-Within key v none (some n) h = (tt, ground arith)
  outside-Within key v (some m) (some n) h = (ground arith, ground arith)

  checked_sound :
      (key : String) (text : Text) (fallback : ℤ) (min max v : Option ℤ)
      → Sound (Within min max) (checked js env key text fallback min max v)
  checked_sound key text fallback min max none = record { holds = λ e. absurd (cc e) }
  checked_sound key text fallback min max (some v) = record {
    holds = λ e. outside-Within key v min max e;
  }

  on_text_sound :
      (P : ℤ → Type 0) (text : Text) (fallback : ℤ) (f : Text → Checked ℤ)
      → P fallback
      → ((t : Text) → Sound P (f t))
      → Sound P (on_text js env text fallback f)
  on_text_sound P [] fallback f p h = pure_sound P fallback p
  on_text_sound P (c ∷ s) fallback f p h = h (c ∷ s)

  num_sound :
      (key : String) (fallback : ℤ) (min max : Option ℤ)
      → Within min max fallback
      → Sound (Within min max) (num js env key fallback min max)
  unfolding num
  num_sound key fallback min max h =
      on_text_sound (Within min max) (raw js env key) fallback _ h
        (λ t. checked_sound key t fallback min max (js.to_number t))

  usable_port_sound :
      (text : Text) (p : Option ℤ)
      → Sound (Within (some (units 1)) (some (units 65535))) (usable_port js env text p)
  usable_port_sound text none = record { holds = λ e. absurd (cc e) }
  usable_port_sound text (some p) = elim (Bool-cases (is_no_port p)) [
    | inl e ↦ rw e (record { holds = λ q. absurd (cc q) })
    | inr e ↦ rw e (pure_sound _ (in_thousandths p) (port_lem p e))
  ]

  parse_port_sound : Sound (Within (some (units 1)) (some (units 65535))) (parse_port js env)
  unfolding parse_port
  parse_port_sound =
      on_text_sound _ (raw js env "API_PORT") (units 8000) _ (omega arith, omega arith)
        (λ t. usable_port_sound t (js.parse_int (last_segment js env t)))

-- Every number of a configuration lies where its variable may lie.
pub record IsSafe (c : AppConfig) : Type 0 where
  pub port : (units 1 ≤ℤ c.api.port) × (c.api.port ≤ℤ units 65535)
  pub database_port : (units 1 ≤ℤ c.database.port) × (c.database.port ≤ℤ units 65535)
  pub pool_size : (units 1 ≤ℤ c.database.pool_size) × (c.database.pool_size ≤ℤ units 100)
  pub redis_port : (units 1 ≤ℤ c.redis.port) × (c.redis.port ≤ℤ units 65535)
  pub db : (units 0 ≤ℤ c.redis.db) × (c.redis.db ≤ℤ units 15)
  pub max_age : units 1 ≤ℤ c.sensors.max_age_minutes
  pub rise : units 0 ≤ℤ c.sensors.alert_rise_c
  pub cooldown : units 0 ≤ℤ c.sensors.alert_cooldown_hours
  pub escalate : units 0 ≤ℤ c.notifications.escalate_minutes
  pub horizon : units 1 ≤ℤ c.warn_horizon_hours

module _ (js : Language) (env : String → Option Text) where
  -- What is known of a number that was read within bounds.
  abbrev read :
      (key : String) (fallback : ℤ) (min max : Option ℤ)
      → Within min max fallback
      → Sound (Within min max) (num js env key fallback min max)
  read key fallback min max h = num_sound js env key fallback min max h

  read_config_sound : Sound IsSafe (read_config js env)
  unfolding read_config
  read_config_sound = bind_sound IsSafe _ _ (parse_port_sound js env) (λ port h0.
      bind_sound IsSafe _ _
        (read "POSTGRES_PORT" (units 5432) (some (units 1)) (some (units 65535))
          (omega arith, omega arith))
        (λ dp h1.
          bind_sound IsSafe _ _
            (read "POSTGRES_POOL_SIZE" (units 10) (some (units 1)) (some (units 100))
              (omega arith, omega arith))
            (λ ps h2.
              bind_sound IsSafe _ _
                (read "REDIS_PORT" (units 6379) (some (units 1)) (some (units 65535))
                  (omega arith, omega arith))
                (λ rp h3.
                  bind_sound IsSafe _ _
                    (read "REDIS_DB" (units 0) (some (units 0)) (some (units 15))
                      (omega arith, omega arith))
                    (λ db h4.
                      bind_sound IsSafe _ _
                        (read "SENSOR_MAX_AGE_MINUTES" (units 90) (some (units 1)) none
                          (omega arith, tt))
                        (λ ma h5.
                          bind_sound IsSafe _ _
                            (read "SENSOR_ALERT_TEMPERATURE_C" (units 50) none none (tt, tt))
                            (λ te h6.
                              bind_sound IsSafe _ _
                                (read "SENSOR_ALERT_RISE_C" (units 15) (some (units 0)) none
                                  (omega arith, tt))
                                (λ ri h7.
                                  bind_sound IsSafe _ _
                                    (read "SENSOR_ALERT_COOLDOWN_HOURS" (units 6) (some (units 0))
                                      none (omega arith, tt))
                                    (λ co h8.
                                      bind_sound IsSafe _ _
                                        (read "NOTIFY_ESCALATE_MINUTES" (units 15) (some (units 0))
                                          none (omega arith, tt))
                                        (λ es h9.
                                          bind_sound IsSafe _ _
                                            (read "FORECAST_WARN_HOURS" (units 72) (some (units 1))
                                              none (omega arith, tt))
                                            (λ ho h10. pure_sound IsSafe _ (record {
                                              port = h0;
                                              database_port = h1;
                                              pool_size = h2;
                                              redis_port = h3;
                                              db = h4;
                                              max_age = h5.0;
                                              rise = h7.0;
                                              cooldown = h8.0;
                                              escalate = h9.0;
                                              horizon = h10.0;
                                            }))))))))))))

  settled-ok :
      (problems : List Problem) (value c : AppConfig)
      → settled js env (report problems value) ≡ ok c
      → (problems ≡ []) × (value ≡ c)
  settled-ok [] value c h = (refl, ok_inj value c h)
    where
      ok_inj : (a b : AppConfig) → Path (Tried (List Problem) AppConfig) (ok a) (ok b) → a ≡ b
      ok_inj a b h = cc h
  settled-ok (p ∷ ps) value c h = absurd (cc h)

  -- A configuration that the API starts with has its ports from 1 to 65535, its pool from 1 to 100,
  -- its Redis database from 0 to 15, and no number of minutes, hours or degrees below its least,
  -- if it has one, whatever the environment holds.
  pub load_config-IsSafe : (c : AppConfig) → load_config js env ≡ ok c → IsSafe c
  unfolding load_config
  load_config-IsSafe c h =
      let r = settled-ok (read_config js env).problems (read_config js env).value c h in
      subst IsSafe r.1 (read_config_sound.holds r.0)

  num-Names :
      (key : String) (fallback : ℤ) (min max : Option ℤ) (c : ℕ) (rest : Text)
      → raw js env key ≡ c ∷ rest
      → js.to_number (c ∷ rest) ≡ none
      → Names (not_a_number key (c ∷ rest)) (num js env key fallback min max)
  unfolding num
  num-Names key fallback min max c rest e bad = rw (e, bad) (inl refl)

  read_config-Names :
      (c : ℕ) (rest : Text)
      → raw js env "SENSOR_ALERT_TEMPERATURE_C" ≡ c ∷ rest
      → js.to_number (c ∷ rest) ≡ none
      → Names (not_a_number "SENSOR_ALERT_TEMPERATURE_C" (c ∷ rest)) (read_config js env)
  unfolding read_config
  read_config-Names c rest e bad = bind_later _ _ _ (λ port. bind_later _ _ _ (λ dp.
      bind_later _ _ _ (λ ps. bind_later _ _ _ (λ rp. bind_later _ _ _ (λ db.
        bind_later _ _ _ (λ ma.
          bind_here _ _ _
            (num-Names "SENSOR_ALERT_TEMPERATURE_C" (units 50) none none c rest e bad)))))))

  settled-Names :
      (p : Problem) (problems : List Problem) (value : AppConfig)
      → Any (λ q. q ≡ p) problems
      → (ps : List Problem) × (settled js env (report problems value) ≡ thrown ps)
        × Any (λ q. q ≡ p) ps
  settled-Names p [] value h = elim h [ ]
  settled-Names p (q ∷ qs) value h = (q ∷ qs, refl, h)

  -- A temperature threshold that is no finite number stops the start, with the variable named, even
  -- if other variables are bad as well.
  pub load_config-temperature :
      (c : ℕ) (rest : Text)
      → raw js env "SENSOR_ALERT_TEMPERATURE_C" ≡ c ∷ rest
      → js.to_number (c ∷ rest) ≡ none
      → (problems : List Problem) × (load_config js env ≡ thrown problems)
        × Any (λ p. p ≡ not_a_number "SENSOR_ALERT_TEMPERATURE_C" (c ∷ rest)) problems
  unfolding load_config
  load_config-temperature c rest e bad =
      settled-Names _ (read_config js env).problems (read_config js env).value
        (read_config-Names c rest e bad)
