-- ===== src/Access/Session.antt =====
-- The operator key between the tab and the guard.
use open_fire_watch.Base.{ℕ, ◌≡◌, refl, true, false, Option, none, some, [], ◌∷◌}
use open_fire_watch.Base.Text.{Text, text_eq_refl}
use open_fire_watch.Access.{
  GuardAnswer, passed, unavailable, unauthorized, matches, can_activate, Tab, read_key, store_key,
  clear_key, Request, is_applicable, outgoing_key, nothing, Response, http_failed, intercept,
}

-- What a guard makes of the answer: 503 without a configured key, and 401 for a wrong one.
abbrev refused : {A : Type 0} → ℕ → Response A
refused status = http_failed (record { status = status; body = nothing; text = [] })

abbrev pub guarded : {A : Type 0} → GuardAnswer → Response A → Response A
guarded passed answer = answer
guarded unavailable answer = refused 503
guarded unauthorized answer = refused 401

module _ {A : Type 0} (digest trim : Text → Text) (configured : Option Text)
    (handler : Request → Response A) where
  -- The server: the guard, and behind it the handler.
  abbrev pub server : Request → Option Text → Response A
  server request header = guarded (can_activate digest trim configured header) (handler request)

  -- Where session storage is not blocked, a tab in which the configured key was stored has its writes
  -- to /api/ carried out: the guard hands each that names no other key to its handler, if trimming
  -- leaves the key as it is.
  pub intercept-store_key :
      (c : ℕ) (s : Text) (request : Request) (tab : Tab)
      → configured ≡ some (c ∷ s)
      → trim (c ∷ s) ≡ c ∷ s
      → is_applicable request ≡ true
      → request.key_override ≡ none
      → (intercept false server request (store_key false (c ∷ s) tab)).0 ≡ handler request
  unfolding intercept outgoing_key read_key store_key can_activate matches
  intercept-store_key c s request tab hc ht ha ho =
      rw (ha, ho, ht, hc, text_eq_refl (digest (c ∷ s)))

  -- Where session storage is blocked and the server has a key, a tab in which any key was stored calls
  -- itself unlocked, but its next write to /api/ that names no other key is refused with 401, and
  -- after that it calls itself locked.
  pub intercept-blocked :
      (c d : ℕ) (s k : Text) (request : Request) (tab : Tab)
      → configured ≡ some (d ∷ k)
      → is_applicable request ≡ true
      → request.key_override ≡ none
      → ((store_key true (c ∷ s) tab).unlocked ≡ true)
        × ((intercept true server request (store_key true (c ∷ s) tab)).0 ≡ refused 401)
        × ((intercept true server request (store_key true (c ∷ s) tab)).1.unlocked ≡ false)
  unfolding intercept outgoing_key read_key store_key clear_key can_activate matches
  intercept-blocked c d s k request tab hc ha ho = (refl, rw (ha, ho, hc), rw (ha, ho, hc))
