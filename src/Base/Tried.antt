-- ===== src/Base/Tried.antt =====
-- What a call that may throw comes to.

pub data Tried (E A : Type 0) : Type 0 where
  ok : A → Tried E A
  thrown : E → Tried E A

infixl 5 ◌>>=◌
abbrev pub ◌>>=◌ : {E A B : Type 0} → Tried E A → (A → Tried E B) → Tried E B
ok a >>= f = f a
thrown e >>= f = thrown e
