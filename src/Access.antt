-- ===== src/Access.antt =====
-- backend/src/auth/api-key.guard.ts, and frontend/src/app/core/api: the operator key, from the tab
-- that holds it to the guard that asks for it. The digest, `trim` and what a guarded handler
-- answers are parameters.
pub mod Session
use open_fire_watch.Base.{
  ℕ, ◌≡◌, String, Bool, true, false, ◌&&◌, ◌||◌, not, Option, none, some, List, [], ◌∷◌, ◌++◌, any,
  ◌==◌, if◌then◌else◌, or_else, or_try, str_eq,
}
use open_fire_watch.Base.Text.{Text, codes, text_eq, starts}

pub data GuardAnswer : Type 0 where
  passed unavailable unauthorized : GuardAnswer

-- A text that is there and not empty.
abbrev pub filled : Option Text → Option Text
filled none = none
filled (some []) = none
filled (some (c ∷ s)) = some (c ∷ s)

unfoldable pub matches : (Text → Text) → Text → Text → Bool
matches digest presented configured = text_eq (digest presented) (digest configured)

abbrev trimmed : (Text → Text) → Option Text → Option Text
trimmed trim none = none
trimmed trim (some header) = some (trim header)

abbrev pub check_presented : (Text → Text) → Text → Option Text → GuardAnswer
check_presented digest configured none = unauthorized
check_presented digest configured (some presented) =
    if matches digest presented configured then passed else unauthorized

abbrev pub check_key : (Text → Text) → Option Text → Option Text → GuardAnswer
check_key digest none presented = unavailable
check_key digest (some configured) presented = check_presented digest configured presented

-- `ApiKeyGuard.canActivate`, on the configured key and the header.
unfoldable pub can_activate :
    (Text → Text) → (Text → Text) → Option Text → Option Text → GuardAnswer
unfolding matches
can_activate digest trim configured header =
    check_key digest (filled configured) (filled (trimmed trim header))

-- The tab: the slot of its session storage, and the signal that a key is there.
pub record Tab : Type 0 where
  pub stored : Option Text
  pub unlocked : Bool

-- Storage that is blocked throws on every access.
unfoldable pub read_key : Bool → Tab → Option Text
read_key blocked tab = if blocked then none else tab.stored

unfoldable pub store_key : Bool → Text → Tab → Tab
store_key blocked key tab = record {
  stored = if blocked then tab.stored else some key;
  unlocked = true;
}

unfoldable pub clear_key : Bool → Tab → Tab
clear_key blocked tab = record { stored = if blocked then tab.stored else none; unlocked = false }

pub record Request : Type 0 where
  pub method : String
  pub url : Text
  pub key_override : Option Text

abbrev guarded_methods : List String
guarded_methods = "POST" ∷ "PUT" ∷ "PATCH" ∷ "DELETE" ∷ []

abbrev pub is_applicable : Request → Bool
is_applicable request =
    starts (codes "/api/") request.url && any (str_eq request.method) guarded_methods

-- The header `X-API-Key` of the request that goes out.
unfoldable pub outgoing_key : Bool → Tab → Request → Option Text
unfolding read_key
outgoing_key blocked tab request =
    if is_applicable request
    then filled (or_try request.key_override (read_key blocked tab))
    else none

-- The body of an error: a text, or an object with one message, several, or none.
pub data ErrorBody : Type 0 where
  plain message : Text → ErrorBody
  messages : List Text → ErrorBody
  nothing : ErrorBody

pub record HttpError : Type 0 where
  pub status : ℕ
  pub body : ErrorBody
  pub text : Text

pub data Response (A : Type 0) : Type 0 where
  answered : A → Response A
  http_failed : HttpError → Response A
  other_failed : Text → Response A

abbrev pub is_refusal : ℕ → Bool
is_refusal status = status == 401 || status == 503

-- `operatorKeyInterceptor`: the tab after the answer.
module _ {A : Type 0} where
  abbrev pub tab_after : Bool → Bool → Response A → Tab → Tab
  tab_after blocked applicable (answered a) tab = tab
  tab_after blocked applicable (other_failed e) tab = tab
  tab_after blocked applicable (http_failed e) tab =
      if applicable && is_refusal e.status then clear_key blocked tab else tab

  unfoldable pub intercept :
      Bool → (Request → Option Text → Response A) → Request → Tab → Response A × Tab
  unfolding outgoing_key clear_key
  intercept blocked next request tab =
      let response = next request (outgoing_key blocked tab request) in
      (response, tab_after blocked (is_applicable request) response tab)

-- `toApiError`, where the status 0 stands for a request that never reached the server.
pub record ApiError : Type 0 where
  pub message : Text
  pub status : Option ℕ

unfoldable pub is_locked : ApiError → Bool
is_locked e = elim e.status [ none ↦ false | some status ↦ is_refusal status ]

abbrev join_messages : List Text → Text
join_messages [] = []
join_messages (t ∷ []) = t
join_messages (t ∷ u ∷ us) = t ++ (b';' ∷ b' ' ∷ join_messages (u ∷ us))

abbrev body_message : ErrorBody → Option Text
body_message (plain t) = some t
body_message (message t) = some t
body_message (messages ts) = some (join_messages ts)
body_message nothing = none

abbrev known_status : ℕ → Option ℕ
known_status status = if status == 0 then none else some status

unfoldable pub to_api_error : (ℕ → Text) → HttpError → ApiError
to_api_error print e =
    if is_refusal e.status
    then record { message = codes "locked"; status = some e.status }
    else record {
      message =
          or_else (body_message e.body)
            (if e.status == 0 then e.text else codes "HTTP " ++ print e.status);
      status = known_status e.status;
    }
