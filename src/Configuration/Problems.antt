-- ===== src/Configuration/Problems.antt =====
-- backend/src/config/environment.ts: a value with the problems that were found on the way to it.
use open_fire_watch.Base.{
  ◌≡◌, refl, String, List, [], ◌∷◌, ◌++◌, Any, Any-append_left, Any-append_right,
}
use open_fire_watch.Base.Int.{ℤ}
use open_fire_watch.Base.Text.{Text}

pub data Problem : Type 0 where
  not_a_number : String → Text → Problem
  below above : String → ℤ → ℤ → Problem
  no_port : Text → Problem

pub record Checked (A : Type 0) : Type 0 where
  pub value : A
  pub problems : List Problem

abbrev pub report : {A : Type 0} → List Problem → A → Checked A
report problems value = record { value = value; problems = problems }

unfoldable pub pure : {A : Type 0} → A → Checked A
pure value = record { value = value; problems = [] }

-- `problems.push`: what comes later is reported as well.
infixl 5 ◌>>=◌
unfoldable pub ◌>>=◌ : {A B : Type 0} → Checked A → (A → Checked B) → Checked B
m >>= f = record { value = (f m.value).value; problems = m.problems ++ (f m.value).problems }

-- What a value without problems satisfies.
pub record Sound {A : Type 0} (P : A → Type 0) (m : Checked A) : Type 0 where
  pub holds : m.problems ≡ [] → P m.value

left_nil : (xs ys : List Problem) → xs ++ ys ≡ [] → xs ≡ []
left_nil [] ys h = refl
left_nil (x ∷ xs) ys h = cc

right_nil : (xs ys : List Problem) → xs ++ ys ≡ [] → ys ≡ []
right_nil [] ys h = h
right_nil (x ∷ xs) ys h = cc

pub pure_sound : {A : Type 0} (P : A → Type 0) (a : A) → P a → Sound P (pure a)
unfolding pure
pure_sound P a h = record { holds = λ e. h }

pub bind_sound :
    {A B : Type 0} {P : A → Type 0} (Q : B → Type 0) (m : Checked A) (f : A → Checked B)
    → Sound P m
    → ((a : A) → P a → Sound Q (f a))
    → Sound Q (m >>= f)
unfolding ◌>>=◌
bind_sound Q m f h k = record {
  holds = λ e. (k m.value (h.holds (left_nil m.problems _ e))).holds (right_nil m.problems _ e);
}

-- A problem that is found is among those that are reported, whatever is found before or after it.
abbrev pub Names : {A : Type 0} → Problem → Checked A → Type 0
Names p m = Any (λ q. q ≡ p) m.problems

pub bind_here :
    {A B : Type 0} (p : Problem) (m : Checked A) (f : A → Checked B) → Names p m → Names p (m >>= f)
unfolding ◌>>=◌
bind_here p m f h = Any-append_left (λ q. q ≡ p) m.problems (f m.value).problems h

pub bind_later :
    {A B : Type 0} (p : Problem) (m : Checked A) (f : A → Checked B)
    → ((a : A) → Names p (f a))
    → Names p (m >>= f)
unfolding ◌>>=◌
bind_later p m f h = Any-append_right (λ q. q ≡ p) m.problems (f m.value).problems (h m.value)
