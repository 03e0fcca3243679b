-- ===== src/Backfill/Replay/Triples.antt =====
-- What holds after an action, if something holds before it: on its return, and on its error.
use open_fire_watch.Base.{Option, none, some}
use open_fire_watch.Base.Text.{Text}
use open_fire_watch.Base.Tried.{Tried, ok, thrown}
use open_fire_watch.Backfill.Runs.{ReplayError}
use open_fire_watch.Backfill.Actions.{
  World, Action, pure, raise, gets, or_raise, modify, ◌>>=◌, if_fails,
}

abbrev pub After :
    {A : Type 0} → (A → World → Type 0) → (World → Type 0) → Tried ReplayError A × World → Type 0
After Q E (ok a, w) = Q a w
After Q E (thrown e, w) = E w

pub record Triple {A : Type 0} (P : World → Type 0) (m : Action A) (Q : A → World → Type 0)
    (E : World → Type 0) : Type 0 where
  pub after : (w : World) → P w → After Q E (m w)

module _ {A B : Type 0} (Q : A → World → Type 0) {R : B → World → Type 0} {E : World → Type 0} where
  bind-After :
      (f : A → Action B) (t : Tried ReplayError A) (w : World)
      → ((a : A) → Triple (Q a) (f a) R E)
      → After Q E (t, w)
      → After R E (elim t [ ok a ↦ f a w | thrown e ↦ raise e w ])
  unfolding raise
  bind-After f (ok a) w h q = (h a).after w q
  bind-After f (thrown e) w h q = q

  pub bind_triple :
      {P : World → Type 0} {m : Action A} {f : A → Action B}
      → Triple P m Q E
      → ((a : A) → Triple (Q a) (f a) R E)
      → Triple P (m >>= f) R E
  unfolding ◌>>=◌ raise
  bind_triple {m = m} {f = f} first rest = record {
    after = λ w p. bind-After f (m w).0 (m w).1 rest (first.after w p);
  }

module _ {P : World → Type 0} where
  pub if_fails_triple : (o : Option Text) → Triple P (if_fails o) (λ u. P) P
  unfolding pure raise
  if_fails_triple none = record { after = λ w p. p }
  if_fails_triple (some message) = record { after = λ w p. p }

  pub or_raise_triple : {A : Type 0} (t : Tried ReplayError A) → Triple P (or_raise t) (λ a. P) P
  unfolding or_raise
  or_raise_triple (ok a) = record { after = λ w p. p }
  or_raise_triple (thrown e) = record { after = λ w p. p }

  pub pure_triple :
      {A : Type 0} {Q : A → World → Type 0} {E : World → Type 0} (a : A)
      → ((w : World) → P w → Q a w)
      → Triple P (pure a) Q E
  unfolding pure
  pure_triple a h = record { after = h }

  pub gets_triple : {A : Type 0} {E : World → Type 0} (f : World → A) → Triple P (gets f) (λ a. P) E
  unfolding gets
  gets_triple f = record { after = λ w p. p }

  pub modify_triple :
      {Q E : World → Type 0} (f : World → World)
      → ((w : World) → P w → Q (f w))
      → Triple P (modify f) (λ u. Q) E
  unfolding modify
  modify_triple f h = record { after = h }

-- An error may be left with more than is asked.
weaken-After :
    {A : Type 0} (Q : A → World → Type 0) (D E : World → Type 0) (t : Tried ReplayError A)
    (w : World)
    → ((v : World) → D v → E v)
    → After Q D (t, w)
    → After Q E (t, w)
weaken-After Q D E (ok a) w h q = q
weaken-After Q D E (thrown e) w h q = h w q

pub weaken :
    {A : Type 0} {P : World → Type 0} {Q : A → World → Type 0} {D E : World → Type 0} {m : Action A}
    → ((v : World) → D v → E v)
    → Triple P m Q D
    → Triple P m Q E
weaken {Q = Q} {D = D} {E = E} {m = m} h t = record {
  after = λ w p. weaken-After Q D E (m w).0 (m w).1 h (t.after w p);
}

-- A fact that does not depend on the state may be used to prove the rest.
pub narrow :
    {A F : Type 0} {P : World → Type 0} {Q : A → World → Type 0} {E : World → Type 0} {m : Action A}
    → (F → Triple P m Q E)
    → Triple (λ w. P w × F) m Q E
narrow h = record { after = λ w p. (h p.1).after w p.0 }

strengthen-After :
    {A : Type 0} (Q R : A → World → Type 0) (E : World → Type 0) (t : Tried ReplayError A)
    (w : World)
    → ((a : A) (v : World) → Q a v → R a v)
    → After Q E (t, w)
    → After R E (t, w)
strengthen-After Q R E (ok a) w h q = h a w q
strengthen-After Q R E (thrown e) w h q = q

pub strengthen :
    {A : Type 0} {P : World → Type 0} {Q R : A → World → Type 0} {E : World → Type 0} {m : Action A}
    → ((a : A) (v : World) → Q a v → R a v)
    → Triple P m Q E
    → Triple P m R E
strengthen {Q = Q} {R = R} {E = E} {m = m} h t = record {
  after = λ w p. strengthen-After Q R E (m w).0 (m w).1 h (t.after w p);
}
