-- ===== src/Backfill/Pacing.antt =====
-- workers/src/ingestion/satellite-backfill.task.ts: `fetchWithPacing`, one request to FIRMS, repeated
-- after a pause while the quota is spent. What each attempt is answered is a parameter.
use open_fire_watch.Base.{
  ℕ, zero, suc, ◌+◌, ◌*◌, ◌≤◌, ◌≡◌, refl, ap, Bool, true, false, ◌&&◌, ◌||◌, Option, none, some,
  List, [], ◌∷◌, leb, arith, Bool-cases, inl, inr, sym, ◌∙◌, ◌⊎◌,
}
use open_fire_watch.Base.Text.{Text, mentions}
use open_fire_watch.Base.Tried.{Tried, ok, thrown}
use open_fire_watch.Store.{Detection}
use open_fire_watch.Ingestion.Firms.{FirmsError, http_status, not_csv, no_connection}

abbrev pub Answer : Type 0
Answer = Tried FirmsError (List Detection)

-- `/transaction limit|exceeded/i`
abbrev mentions_quota : Text → Bool
mentions_quota message =
    mentions
      (b't' ∷ b'r' ∷ b'a' ∷ b'n' ∷ b's' ∷ b'a' ∷ b'c' ∷ b't' ∷ b'i' ∷ b'o' ∷ b'n' ∷ b' ' ∷ b'l'
        ∷ b'i' ∷ b'm' ∷ b'i' ∷ b't' ∷ [])
      message
    || mentions (b'e' ∷ b'x' ∷ b'c' ∷ b'e' ∷ b'e' ∷ b'd' ∷ b'e' ∷ b'd' ∷ []) message

-- The test on the message of an error. The sentence for an answer that is no CSV holds both words; the
-- other sentences hold neither, but for the text that they quote.
unfoldable pub is_quota : FirmsError → Bool
is_quota (not_csv start) = true
is_quota (http_status status detail) = mentions_quota detail
is_quota (no_connection message) = mentions_quota message
is_quota _ = false

abbrev pub quota_pauses : ℕ
quota_pauses = 12

-- The answer, and the milliseconds slept before it.
abbrev pub Paced : Type 0
Paced = Answer × ℕ

abbrev pub later : ℕ → Option Paced → Option Paced
later ms none = none
later ms (some (answer, slept)) = some (answer, ms + slept)

abbrev pub asks_again : Answer → ℕ → Bool
asks_again (ok rows) attempt = false
asks_again (thrown e) attempt = is_quota e && leb attempt quota_pauses

module _ (pace_ms : ℕ) (ask : ℕ → Answer) where
  -- The unbounded loop, on fuel; `none` is a loop that has not ended.
  unfoldable pub attempts : ℕ → ℕ → Option Paced
  attempts zero attempt = none
  attempts (suc fuel) attempt = elim (asks_again (ask attempt) attempt) [
    | true ↦ later (pace_ms + 60000) (attempts fuel (attempt + 1))
    | false ↦ some (ask attempt, pace_ms)
  ]

  unfoldable pub fetch_with_pacing : Option Paced
  unfolding attempts
  fetch_with_pacing = attempts (quota_pauses + 1) 1

  -- Whether an attempt is answered by an error of the quota, and whether `k` in a row are.
  abbrev pub is_refused : Answer → Bool
  is_refused (ok rows) = false
  is_refused (thrown e) = is_quota e

  abbrev pub refused_from : ℕ → ℕ → Bool
  refused_from zero attempt = true
  refused_from (suc k) attempt = is_refused (ask attempt) && refused_from k (attempt + 1)

  -- What `attempts` ends with: the answer after `k` refusals, the milliseconds slept, and why it is
  -- the last one.
  abbrev EndsAfter : ℕ → Option Paced → ℕ → Type 0
  EndsAfter attempt result k =
      (result ≡ some (ask (attempt + k), (k + 1) * pace_ms + k * 60000))
      × (attempt + k ≤ 13)
      × (refused_from k attempt ≡ true)
      × ((attempt + k ≡ 13) ⊎ (is_refused (ask (attempt + k)) ≡ false))

  asks_again-refused : (a : Answer) (n : ℕ) → asks_again a n ≡ (is_refused a && leb n quota_pauses)
  asks_again-refused (ok rows) n = refl
  asks_again-refused (thrown e) n = refl

  ends_now :
      (attempt : ℕ)
      → attempt ≤ 13
      → (attempt ≡ 13) ⊎ (is_refused (ask attempt) ≡ false)
      → EndsAfter attempt (some (ask attempt, pace_ms)) 0
  ends_now attempt le why =
      rw (zero_right attempt) (ap (λ ms. some (ask attempt, ms)) (omega arith), le, refl, why)
    where
      zero_right : (n : ℕ) → n + 0 ≡ n
      zero_right n = omega arith

  ends_later :
      (attempt k : ℕ) (o : Option Paced)
      → is_refused (ask attempt) ≡ true
      → EndsAfter (attempt + 1) o k
      → EndsAfter attempt (later (pace_ms + 60000) o) (suc k)
  ends_later attempt k o r (result, le, all, why) =
      let next : attempt + suc k ≡ attempt + 1 + k = omega arith in
      rw (next, r, all, result)
        (ap (λ ms. some (ask (attempt + 1 + k), ms)) (omega arith), le, refl, why)

  attempts-ends :
      (fuel attempt : ℕ)
      → fuel + attempt ≡ 14
      → 1 ≤ fuel
      → (k : ℕ) × EndsAfter attempt (attempts fuel attempt) k
  unfolding attempts
  attempts-ends zero attempt enough f = absurd (omega arith)
  attempts-ends (suc fuel) attempt enough f = elim (Bool-cases (asks_again (ask attempt) attempt)) [
    | inl e ↦
        let more = sym (asks_again-refused (ask attempt) attempt) ∙ e in
        let (k, ends) = attempts-ends fuel (attempt + 1) (omega arith) (ground arith) in
        (suc k, rw (e, attempts) (ends_later attempt k _ (ground arith) ends))
    | inr e ↦
        let last = sym (asks_again-refused (ask attempt) attempt) ∙ e in
        (0, rw (e, attempts) (ends_now attempt (omega arith) (ground arith)))
  ]

  -- A paced request always ends: after some number of refusals by the quota, one at each attempt from
  -- the first and at most twelve, it has the answer to the next attempt, which is no such refusal or
  -- is the thirteenth, and it has slept once before each attempt and a minute more after each refusal.
  pub fetch_with_pacing-ends :
      (k : ℕ) × (fetch_with_pacing ≡ some (ask (1 + k), (k + 1) * pace_ms + k * 60000))
      × (1 + k ≤ 13)
      × (refused_from k 1 ≡ true)
      × ((1 + k ≡ 13) ⊎ (is_refused (ask (1 + k)) ≡ false))
  unfolding fetch_with_pacing
  fetch_with_pacing-ends =
      let (k, (result, le, all, why)) = attempts-ends 13 1 (omega arith) (omega arith) in
      (k, result, le, all, why)

-- To an answer that is no CSV, whatever it says, the request is repeated twelve times, over more than
-- twelve minutes, before the error is thrown.
pub fetch_with_pacing-not_csv :
    (pace_ms : ℕ) (start : Text)
    → fetch_with_pacing pace_ms (λ n. thrown (not_csv start))
      ≡ some (thrown (not_csv start), 13 * pace_ms + 12 * 60000)
unfolding fetch_with_pacing attempts is_quota
fetch_with_pacing-not_csv pace_ms start = ap (λ ms. some (thrown (not_csv start), ms)) (omega arith)
