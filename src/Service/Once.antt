-- ===== src/Service/Once.antt =====
-- A service is initialised once.
use Prim.Native.String.{String}
use counter_terrorist.Common.{
  Option, Result, arith, err, false, inr, none, ok, refl, some, true, ◌≡◌, ◌⊎◌,
}
use counter_terrorist.Service.{Base, already, begin_init, end_init, new_service, shutdown_service}

-- Calls of `init`, ends of the `onInit` that is under way, and shutdowns, in any order.
pub data Lifetime : Base → Type 0 where
  created : Lifetime new_service
  called_init : {b : Base} → Lifetime b → Lifetime (begin_init b).0
  ended :
      {b : Base} (result : Option (Result (Unit {0}) String))
      → b.is_starting ≡ true
      → Lifetime b
      → Lifetime (end_init result b)
  shut :
      {b : Base} (result : Result (Unit {0}) String)
      → Lifetime b
      → Lifetime (shutdown_service result b).0

-- Ready after one success and none under way, or not ready and none so far.
abbrev pub IsOnce : Base → Type 0
IsOnce b =
    ((b.initialized ≡ true) × (b.is_starting ≡ false) × (b.successes ≡ 1))
    ⊎ ((b.initialized ≡ false) × (b.successes ≡ 0))

begin-IsOnce : (b : Base) → IsOnce b → IsOnce (begin_init b).0
unfolding begin_init
begin-IsOnce b once = ground arith

end-IsOnce :
    (result : Option (Result (Unit {0}) String)) (b : Base)
    → b.is_starting ≡ true
    → IsOnce b
    → IsOnce (end_init result b)
unfolding end_init
end-IsOnce none b running once = ground arith
end-IsOnce (some (err e)) b running once = ground arith
end-IsOnce (some (ok u)) b running once = ground arith

every-IsOnce : {b : Base} → Lifetime b → IsOnce b
unfolding new_service shutdown_service
every-IsOnce created = inr (refl, refl)
every-IsOnce (called_init {b} life) = begin-IsOnce b (every-IsOnce life)
every-IsOnce (ended {b} result running life) = end-IsOnce result b running (every-IsOnce life)
every-IsOnce (shut {b} result life) = every-IsOnce life

-- However calls of `init`, the ends of their runs and shutdowns follow one another: `onInit` has
-- succeeded once if the service is ready, and not at all if it is not; a ready service
-- has no run under way, and answers every further call of `init` at once.
pub Lifetime-IsOnce :
    {b : Base} → Lifetime b → IsOnce b × (b.initialized ≡ true → begin_init b ≡ (b, already))
unfolding begin_init
Lifetime-IsOnce {b} life = (every-IsOnce life, λ ready. rw ready refl)
