-- ===== src/Values.antt =====
-- The values that rules compare (src/orchestrator/domain/orchestration/policy_dsl.ts, `any`), and the
-- language's `===`, `<`, `<=`, `includes` and `String` on them: non-negative whole numbers, texts,
-- Booleans and arrays of these. Of the texts that are compared with a number, decimal digits and the
-- empty text are read; any other counts as NaN.
use Prim.Native.Nat.{Ordering}
use Prim.Native.String.{String}
use Prim.Native.String
use Prim.Native.Char.{code}
use counter_terrorist.Common.{
  Bool, List, Option, [], any, false, get_or, if◌then◌else◌, leb, ltb, none, not, some, string_eq,
  suc, true, zero, ℕ, ◌%◌, ◌&&◌, ◌*◌, ◌+◌, ◌-◌, ◌/◌, ◌===◌, ◌==◌, ◌||◌, ◌∷◌,
}

pub data Scalar : Type 0 where
  num : ℕ → Scalar
  text : String → Scalar
  flag : Bool → Scalar

pub data Value : Type 0 where
  scalar : Scalar → Value
  list : List Scalar → Value

unfoldable pub flag_eq : Bool → Bool → Bool
flag_eq true b = b
flag_eq false b = not b

-- `===` on scalars.
unfoldable pub scalar_eq : Scalar → Scalar → Bool
unfolding flag_eq
scalar_eq (num a) (num b) = a == b
scalar_eq (text a) (text b) = a === b
scalar_eq (flag a) (flag b) = flag_eq a b
scalar_eq _ _ = false

-- `===`: two arrays are equal only if they are one object, which a fact and a rule never are.
unfoldable pub strict_eq : Value → Value → Bool
unfolding scalar_eq
strict_eq (scalar a) (scalar b) = scalar_eq a b
strict_eq _ _ = false

-- The number that a text of decimal digits stands for, after the digits read so far.
unfoldable pub digits_from : ℕ → String → Option ℕ
digits_from n String.[] = some n
digits_from n (String.◌∷◌ c s) =
    let rest = digits_from (n * 10 + (code c - 48)) s in
    if leb 48 (code c) && leb (code c) 57 then rest else none

unfoldable pub decimal_from : ℕ → ℕ → String
decimal_from zero n = ""
decimal_from (suc fuel) n =
    let digit =
      get_or ("0" ∷ "1" ∷ "2" ∷ "3" ∷ "4" ∷ "5" ∷ "6" ∷ "7" ∷ "8" ∷ "9" ∷ []) (n % 10) "" in
    let front = decimal_from fuel (n / 10) in if ltb n 10 then digit else String.◌++◌ front digit

-- `String(v)`.
unfoldable pub scalar_text : Scalar → String
unfolding decimal_from
scalar_text (num n) = decimal_from (suc n) n
scalar_text (text s) = s
scalar_text (flag b) = if b then "true" else "false"

unfoldable pub list_text : List Scalar → String
unfolding scalar_text
list_text [] = ""
list_text (s ∷ []) = scalar_text s
list_text (s ∷ t ∷ rest) = String.◌++◌ (scalar_text s) (String.◌++◌ "," (list_text (t ∷ rest)))

unfoldable pub value_text : Value → String
unfolding list_text
value_text (scalar s) = scalar_text s
value_text (list l) = list_text l

-- The number of a primitive; `none` is NaN.
unfoldable pub scalar_number : Scalar → Option ℕ
unfolding digits_from
scalar_number (num n) = some n
scalar_number (text s) = digits_from 0 s
scalar_number (flag b) = some (if b then 1 else 0)

-- The primitive that a comparison reads.
unfoldable pub primitive : Value → Scalar
unfolding value_text
primitive (scalar s) = s
primitive (list l) = text (value_text (list l))

unfoldable pub numbers : (ℕ → ℕ → Bool) → Option ℕ → Option ℕ → Bool
numbers test (some a) (some b) = test a b
numbers test _ _ = false

abbrev pub text_lt : String → String → Bool
text_lt s t = elim (String.compare s t) [ Ordering.lt ↦ true | _ ↦ false ]

-- `a < b` and `a <= b` of the language: two texts by their order, anything else as numbers.
unfoldable pub less_scalar : Scalar → Scalar → Bool
unfolding numbers scalar_number
less_scalar (text a) (text b) = text_lt a b
less_scalar (text a) b = numbers ltb (scalar_number (text a)) (scalar_number b)
less_scalar a b = numbers ltb (scalar_number a) (scalar_number b)

unfoldable pub less_eq_scalar : Scalar → Scalar → Bool
unfolding numbers scalar_number
less_eq_scalar (text a) (text b) = not (text_lt b a)
less_eq_scalar (text a) b = numbers leb (scalar_number (text a)) (scalar_number b)
less_eq_scalar a b = numbers leb (scalar_number a) (scalar_number b)

unfoldable pub less : Value → Value → Bool
unfolding less_scalar primitive
less a b = less_scalar (primitive a) (primitive b)

unfoldable pub less_eq : Value → Value → Bool
unfolding less_eq_scalar primitive
less_eq a b = less_eq_scalar (primitive a) (primitive b)

-- `Array.prototype.includes`: an array holds scalars only.
unfoldable pub list_includes : List Scalar → Value → Bool
unfolding strict_eq
list_includes l v = any (λ s. strict_eq (scalar s) v) l

-- `String.prototype.includes`.
unfoldable pub is_prefix : String → String → Bool
is_prefix String.[] t = true
is_prefix (String.◌∷◌ c s) String.[] = false
is_prefix (String.◌∷◌ c s) (String.◌∷◌ d t) = code c == code d && is_prefix s t

unfoldable pub text_includes : String → String → Bool
unfolding is_prefix
text_includes String.[] part = is_prefix part String.[]
text_includes (String.◌∷◌ c s) part = is_prefix part (String.◌∷◌ c s) || text_includes s part
