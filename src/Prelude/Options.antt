-- ===== src/Prelude/Options.antt =====
-- The bind of `Option` that `?` and `let ... else { return None }` stand for.
use mathlib.Core.Option.{Option, none, some}

infixl 5 ◌>>=◌
abbrev pub ◌>>=◌ : {A B : Type 0} → Option A → (A → Option B) → Option B
none >>= f = none
some a >>= f = f a
