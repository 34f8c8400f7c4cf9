-- ===== src/Common/Results.antt =====
-- src/orchestrator/core/result.ts: the type `Result`, its constructors, and exceptions as values.
use mathlib.Core.Path.{◌≡◌, refl}
use mathlib.Core.Logic.{◌⊎◌, inl, inr}

pub data Result (A E : Type 0) : Type 0 where
  ok : A → Result A E
  err : E → Result A E

module _ {A B E : Type 0} where
  infixl 5 ◌>>=◌
  -- The continuation runs on a value; an exception passes it.
  abbrev pub ◌>>=◌ : Result A E → (A → Result B E) → Result B E
  err e >>= f = err e
  ok a >>= f = f a

pub ok_inj : {A E : Type 0} (a b : A) → ◌≡◌ {A = Result A E} (ok a) (ok b) → a ≡ b
ok_inj a b h = cc

pub Result-cases :
    {A E : Type 0} (r : Result A E) → ((a : A) × (r ≡ ok a)) ⊎ ((e : E) × (r ≡ err e))
Result-cases (ok a) = inl (a, refl)
Result-cases (err e) = inr (e, refl)

-- A chain of two calls that returned: both did.
pub bind-ok :
    {A B E : Type 0} (r : Result A E) (f : A → Result B E) (b : B)
    → ◌≡◌ {A = Result B E} (r >>= f) (ok b)
    → (a : A) × (r ≡ ok a) × (f a ≡ ok b)
bind-ok (ok a) f b h = (a, refl, h)
bind-ok (err e) f b h = absurd cc
