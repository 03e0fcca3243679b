-- ===== src/Tests/Settings.antt =====
-- An empty environment, and one with a bad threshold.
use open_fire_watch.Base.{◌≡◌, refl, String, Option, none, some, List, Any, if◌then◌else◌, str_eq}
use open_fire_watch.Base.Text.{Text, codes}
use open_fire_watch.Base.Tried.{ok, thrown}
use open_fire_watch.Configuration.{Language, num, parse_port, read_config, load_config}
use open_fire_watch.Configuration.Problems.{◌>>=◌, pure, Problem, not_a_number}
use open_fire_watch.Configuration.Bounds.{IsSafe, load_config-IsSafe, load_config-temperature}

-- A language in which no text is a number.
abbrev js : Language
js = record { trim = λ t. t; lower = λ t. t; to_number = λ t. none; parse_int = λ t. none }

abbrev unset : String → Option Text
unset key = none

defaults_lem : load_config js unset ≡ ok (read_config js unset).value
unfolding load_config read_config num parse_port ◌>>=◌ pure
defaults_lem = refl

load_config-IsSafe_example : IsSafe (read_config js unset).value
load_config-IsSafe_example = load_config-IsSafe js unset (read_config js unset).value defaults_lem

abbrev fifty : String → Option Text
fifty key = if str_eq key "SENSOR_ALERT_TEMPERATURE_C" then some (codes "fifty") else none

load_config-temperature_example :
    (problems : List Problem) × (load_config js fifty ≡ thrown problems)
    × Any (λ p. p ≡ not_a_number "SENSOR_ALERT_TEMPERATURE_C" (codes "fifty")) problems
load_config-temperature_example = load_config-temperature js fifty b'f' (codes "ifty") refl refl
