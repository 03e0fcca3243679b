-- ===== src/Warnings.antt =====
-- frontend/src/app/features/alerts/data-access/real-time-alert.service.ts: the warnings that a screen
-- holds, as a state that the messages of the gateway and the answers of the server change.
pub mod Outstanding
use open_fire_watch.Base.{
  ℕ, String, Bool, true, false, not, Option, none, some, List, [], ◌∷◌, map, keep, take, ◌==◌,
  if◌then◌else◌, str_eq,
}
use open_fire_watch.Store.{AlertPayload}

pub record Alert : Type 0 where
  pub payload : AlertPayload
  pub acknowledged_at : Option String

pub record Screen : Type 0 where
  pub active_warnings : List Alert
  pub history : List Alert
  pub connected : Bool

abbrev pub empty_screen : Screen
empty_screen = record { active_warnings = []; history = []; connected = false }

abbrev pub max_active_warnings : ℕ
max_active_warnings = 50

abbrev max_history : ℕ
max_history = 100

abbrev text_is_there : Option String → Bool
text_is_there none = false
text_is_there (some text) = not (str_eq text "")

abbrev pub is_acknowledged : Alert → Bool
is_acknowledged a = text_is_there a.acknowledged_at

abbrev pub has_id : ℕ → Alert → Bool
has_id id a = a.payload.id == id

abbrev pub others : ℕ → List Alert → List Alert
others id = keep (λ a. not (has_id id a))

unfoldable pub push_warning : Alert → Screen → Screen
push_warning alert s = if is_acknowledged alert then s else record s {
  history = take max_history (alert ∷ others alert.payload.id s.history);
  active_warnings = take max_active_warnings (alert ∷ others alert.payload.id s.active_warnings);
}

-- `[...criticals].reverse().forEach(push)`: the last first.
push_all : List Alert → Screen → Screen
unfolding push_warning
push_all [] s = s
push_all (a ∷ rest) s = push_warning a (push_all rest s)

abbrev stamped : ℕ → String → Alert → Alert
stamped id at a = if has_id id a then record a { acknowledged_at = some at } else a

unfoldable pub apply_acknowledgement : ℕ → String → Screen → Screen
apply_acknowledgement id at s = record s {
  active_warnings = others id s.active_warnings;
  history = map (stamped id at) s.history;
}

-- `loadHistory`, with the two answers of the server, if it answers.
unfoldable pub load_history : Option (List Alert × List Alert) → Screen → Screen
unfolding push_all
load_history none s = s
load_history (some (recent, criticals)) s = push_all criticals (record s { history = recent })

-- What arrives: the gateway's events, and the answers to a request for the history.
pub data Message : Type 0 where
  connect disconnect : Message
  critical_alert : Alert → Message
  acknowledged : ℕ → String → Message
  history_answer : Option (List Alert × List Alert) → Message

unfoldable pub receive : Message → Screen → Screen
unfolding push_warning apply_acknowledgement load_history
receive connect s = record s { connected = true }
receive disconnect s = record s { connected = false }
receive (critical_alert a) s = push_warning a s
receive (acknowledged id at) s = apply_acknowledgement id at s
receive (history_answer answers) s = load_history answers s

unfoldable pub receive_all : List Message → Screen → Screen
unfolding receive
receive_all [] s = s
receive_all (m ∷ ms) s = receive_all ms (receive m s)
