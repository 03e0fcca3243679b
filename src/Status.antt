-- ===== src/Status.antt =====
-- backend/src/status/system-status.ts: what the status page says of the feeds. The language's
-- `Date.parse` is a parameter that answers `none` for what is no date; times are in milliseconds.
pub mod Ranking
pub mod Documents
pub mod Service
use open_fire_watch.Base.{
  ℕ, zero, suc, ◌+◌, ◌-◌, ◌/◌, ◌*◌, String, Bool, true, false, ◌&&◌, ◌||◌, not, Option, none, some,
  List, keep, length, leb, ltb, ◌==◌, if◌then◌else◌, str_eq,
}

pub data Freshness : Type 0 where
  ok stale missing : Freshness

pub record FeedState : Type 0 where
  pub freshness : Freshness
  pub at : Option String
  pub age_seconds : Option ℕ

abbrev no_feed : FeedState
no_feed = record { freshness = missing; at = none; age_seconds = none }

-- `Math.max(0, Math.round((now - timestamp) / 1000))`, and the word for it.
abbrev pub feed_at : String → ℕ → ℕ → Option ℕ → FeedState
feed_at at stale_after_seconds now none = no_feed
feed_at at stale_after_seconds now (some timestamp) =
    let age = (now - timestamp + 500) / 1000 in
    record {
      freshness = if leb age stale_after_seconds then ok else stale;
      at = some at;
      age_seconds = some age;
    }

unfoldable pub classify : (String → Option ℕ) → Option String → ℕ → ℕ → FeedState
classify date_parse none stale_after_seconds now = no_feed
classify date_parse (some at) stale_after_seconds now =
    if str_eq at "" then no_feed else feed_at at stale_after_seconds now (date_parse at)

pub data Overall : Type 0 where
  all_ok degraded blind : Overall

pub record Source : Type 0 where
  pub is_ok : Bool

pub record StatusInput : Type 0 where
  pub cycle : Freshness
  pub sources : List Source
  pub weather : Freshness
  pub forecast : Freshness
  pub fire_danger : Freshness
  pub dead_letters : ℕ

abbrev pub is_fresh : Freshness → Bool
is_fresh ok = true
is_fresh _ = false

abbrev pub is_stale : Freshness → Bool
is_stale stale = true
is_stale _ = false

abbrev pub is_missing : Freshness → Bool
is_missing missing = true
is_missing _ = false

unfoldable pub overall_state : StatusInput → Overall
overall_state input =
    let working = length (keep (λ s. s.is_ok) input.sources) in
    if is_missing input.cycle
    then blind
    else if ltb 0 (length input.sources) && working == 0
    then blind
    else if is_stale input.cycle
        || ltb working (length input.sources)
        || not (is_fresh input.weather)
        || not (is_fresh input.forecast)
        || not (is_fresh input.fire_danger)
        || ltb 0 input.dead_letters
    then degraded
    else all_ok
