-- ===== src/Validation/Addresses.antt =====
-- src/orchestrator/infrastructure/system/validation.ts: `isPrivateIp`, `isPrivateIpv6` and `expandIpv6`,
-- on texts as the lists of their code units.
pub mod Split
pub mod Bytes
pub mod Blocks
mod Tests
use Prim.Native.Char.{code}
use Prim.Native.String
use Prim.Native.String.{String}
use mathlib.Core.List.{reverse}
use counter_terrorist.Common.{
  Bool, List, Option, [], all, false, get_or, if◌then◌else◌, leb, length, ltb, none, replicate,
  some, string_eq, take, true, ℕ, ◌%◌, ◌&&◌, ◌*◌, ◌++◌, ◌+◌, ◌-◌, ◌/◌, ◌==◌, ◌||◌, ◌∷◌,
}

infixl 5 ◌>>=◌
-- The rest, where there is a value.
abbrev pub ◌>>=◌ {ℓ κ} : {A : Type ℓ} {B : Type κ} → Option A → (A → Option B) → Option B
none >>= f = none
some a >>= f = f a

abbrev pub Units : Type 0
Units = List ℕ

unfoldable pub units : String → Units
units String.[] = []
units (String.◌∷◌ c s) = code c ∷ units s

unfoldable pub same_units : Units → Units → Bool
same_units [] [] = true
same_units [] (y ∷ ys) = false
same_units (x ∷ xs) [] = false
same_units (x ∷ xs) (y ∷ ys) = x == y && same_units xs ys

-- `startsWith`, the prefix first.
unfoldable pub starts_with : Units → Units → Bool
starts_with [] s = true
starts_with (x ∷ xs) [] = false
starts_with (x ∷ xs) (y ∷ ys) = x == y && starts_with xs ys

-- `includes` of one unit.
unfoldable pub includes_unit : ℕ → Units → Bool
includes_unit c [] = false
includes_unit c (x ∷ xs) = x == c || includes_unit c xs

-- `split` at one unit.
unfoldable pub add_front : ℕ → List Units → List Units
add_front x [] = (x ∷ []) ∷ []
add_front x (p ∷ ps) = (x ∷ p) ∷ ps

unfoldable pub split_on : ℕ → Units → List Units
unfolding add_front
split_on c [] = [] ∷ []
split_on c (x ∷ xs) = let rest = split_on c xs in if x == c then [] ∷ rest else add_front x rest

-- `split("::")`.
unfoldable pub split_pairs : Units → List Units
unfolding add_front
split_pairs [] = [] ∷ []
split_pairs (x ∷ []) = (x ∷ []) ∷ []
split_pairs (x ∷ y ∷ xs) =
    let after = split_pairs xs in
    let rest = split_pairs (y ∷ xs) in if x == 58 && y == 58 then [] ∷ after else add_front x rest

-- `toLowerCase`, on the units of a host name.
unfoldable pub lower_case : Units → Units
lower_case [] = []
lower_case (x ∷ xs) = (if leb 65 x && leb x 90 then x + 32 else x) ∷ lower_case xs

-- The number of a text of digits, where it matches `\d+`.
unfoldable pub digits_value : ℕ → Units → Option ℕ
digits_value n [] = some n
digits_value n (x ∷ xs) =
    let rest = digits_value (n * 10 + (x - 48)) xs in if leb 48 x && leb x 57 then rest else none

unfoldable pub decimal_value : Units → Option ℕ
unfolding digits_value
decimal_value [] = none
decimal_value (x ∷ xs) = digits_value 0 (x ∷ xs)

-- A number of a template, below a thousand.
unfoldable pub decimal : ℕ → Units
decimal n =
    if ltb n 10
    then (n + 48) ∷ []
    else if ltb n 100
    then (n / 10 + 48) ∷ (n % 10 + 48) ∷ []
    else (n / 100 + 48) ∷ ((n / 10) % 10 + 48) ∷ (n % 10 + 48) ∷ []

unfoldable pub dotted : ℕ → ℕ → ℕ → ℕ → Units
dotted a b c d = decimal a ++ 46 ∷ (decimal b ++ 46 ∷ (decimal c ++ 46 ∷ decimal d))

-- The match of `^(\d+)\.(\d+)\.(\d+)\.(\d+)$`, with its first two numbers.
unfoldable pub first_two : Option ℕ → Option ℕ → Option ℕ → Option ℕ → Option (ℕ × ℕ)
first_two (some a) (some b) (some c) (some d) = some (a, b)
first_two _ _ _ _ = none

unfoldable pub quad_of : List Units → Option (ℕ × ℕ)
unfolding first_two decimal_value
quad_of (a ∷ b ∷ c ∷ d ∷ []) =
    first_two (decimal_value a) (decimal_value b) (decimal_value c) (decimal_value d)
quad_of _ = none

-- The blocks of IPv4 addresses.
unfoldable pub in_blocks : ℕ → ℕ → Bool
in_blocks a b =
    if a == 127
    then true
    else if a == 10
    then true
    else if a == 172 && leb 16 b && leb b 31
    then true
    else if a == 192 && b == 168
    then true
    else if a == 100 && leb 64 b && leb b 127
    then true
    else if a == 198 && (b == 18 || b == 19)
    then true
    else a == 0

unfoldable pub block_of : Option (ℕ × ℕ) → Option Bool
unfolding in_blocks
block_of none = none
block_of (some (a, b)) = some (in_blocks a b)

-- `isPrivateIp` up to its part for IPv6, on the host without brackets.
unfoldable pub classify_plain : Units → Option Bool
unfolding same_units units starts_with block_of quad_of split_on
classify_plain host =
    if same_units host (units "localhost")
      || same_units host (units "127.0.0.1")
      || same_units host (units "0.0.0.0")
    then some true
    else if starts_with (units "169.254.") host
    then some true
    else block_of (quad_of (split_on 46 host))

-- `slice(1, -1)` of a text in brackets; the rest of the text after its first unit comes reversed.
unfoldable pub unbracket_from : ℕ → Units → Units → Units
unbracket_from x xs [] = x ∷ xs
unbracket_from x xs (y ∷ ys) = if x == 91 && y == 93 then reverse ys else x ∷ xs

unfoldable pub unbracket : Units → Units
unfolding unbracket_from
unbracket [] = []
unbracket (x ∷ xs) = unbracket_from x xs (reverse xs)

-- `/^[0-9a-f]{1,4}$/` and `parseInt(g, 16)`.
unfoldable pub hex_digit : ℕ → Option ℕ
hex_digit x =
    if leb 48 x && leb x 57
    then some (x - 48)
    else if leb 97 x && leb x 102
    then some (x - 87)
    else none

unfoldable pub hex_value : ℕ → Units → Option ℕ
unfolding hex_digit
hex_value n [] = some n
hex_value n (x ∷ xs) = do d ← hex_digit x; hex_value (n * 16 + d) xs

unfoldable pub group_value : Units → Option ℕ
unfolding hex_value
group_value g = if leb 1 (length g) && leb (length g) 4 then hex_value 0 g else none

unfoldable pub groups_of : List Units → Option (List ℕ)
unfolding group_value
groups_of [] = some []
groups_of (g ∷ gs) = do n ← group_value g; ns ← groups_of gs; some (n ∷ ns)

-- `parse` of one side of the `::`.
unfoldable pub parse_part : Units → Option (List ℕ)
unfolding groups_of split_on
parse_part [] = some []
parse_part (x ∷ xs) = groups_of (split_on 58 (x ∷ xs))

-- `toString(16)` of a number below 2^16.
unfoldable pub hex_unit : ℕ → ℕ
hex_unit d = if ltb d 10 then d + 48 else d + 87

unfoldable pub hex_text : ℕ → Units
unfolding hex_unit
hex_text n =
    if ltb n 16
    then hex_unit n ∷ []
    else if ltb n 256
    then hex_unit (n / 16) ∷ hex_unit (n % 16) ∷ []
    else if ltb n 4096
    then hex_unit (n / 256) ∷ hex_unit ((n / 16) % 16) ∷ hex_unit (n % 16) ∷ []
    else hex_unit (n / 4096)
      ∷ hex_unit ((n / 256) % 16)
      ∷ hex_unit ((n / 16) % 16)
      ∷ hex_unit (n % 16)
      ∷ []

-- The digits at the end of a text, and what stands before them.
unfoldable pub digits_first : Units → Units × Units
digits_first [] = ([], [])
digits_first (x ∷ xs) =
    let (run, rest) = digits_first xs in
    if leb 48 x && leb x 57 then (x ∷ run, rest) else ([], x ∷ xs)

-- `join(".")` of the parts before a match, with what is left of its first part.
unfoldable pub join_before : List Units → Units → Units
join_before [] rest = rest
join_before (p ∷ ps) rest = p ++ 46 ∷ join_before ps rest

-- The four numbers of a trailing dotted quad, from the last part to the first, with what stands
-- before it.
unfoldable pub trailing_quad : List Units → Option (Units × ℕ × ℕ × ℕ × ℕ)
unfolding digits_first join_before decimal_value
trailing_quad (d ∷ c ∷ b ∷ p ∷ before) =
    let (run, rest) = digits_first (reverse p) in
    do
      first ← decimal_value (reverse run)
      second ← decimal_value b
      third ← decimal_value c
      fourth ← decimal_value d
      some (join_before (reverse before) (reverse rest), first, second, third, fourth)
trailing_quad _ = none

unfoldable pub is_octet : ℕ → Bool
is_octet n = leb n 255

-- The text with a trailing dotted quad as two groups; nothing where a number is no octet.
unfoldable pub without_quad : Units → Option (Units × ℕ × ℕ × ℕ × ℕ) → Option Units
unfolding is_octet hex_text
without_quad text none = some text
without_quad text (some (front, a, b, c, d)) =
    if is_octet a && is_octet b && is_octet c && is_octet d
    then some (front ++ (hex_text (a * 256 + b) ++ 58 ∷ hex_text (c * 256 + d)))
    else none

-- The text up to a zone identifier.
unfoldable pub before_zone : Units → Units
before_zone [] = []
before_zone (x ∷ xs) = let rest = before_zone xs in if x == 37 then [] else x ∷ rest

unfoldable pub join_halves : List ℕ → List ℕ → Option (List ℕ)
join_halves head tail =
    if leb (length head + length tail) 8
    then some (head ++ (replicate (8 - (length head + length tail)) 0 ++ tail))
    else none

unfoldable pub expand_halves : List Units → Option (List ℕ)
unfolding parse_part join_halves
expand_halves (h ∷ []) = do head ← parse_part h; if length head == 8 then some head else none
expand_halves (h ∷ t ∷ []) = do head ← parse_part h; tail ← parse_part t; join_halves head tail
expand_halves _ = none

-- `expandIpv6`.
unfoldable pub expand_ipv6 : Units → Option (List ℕ)
unfolding before_zone trailing_quad split_on without_quad split_pairs expand_halves
expand_ipv6 addr = do
  text ← without_quad (before_zone addr) (trailing_quad (reverse (split_on 46 (before_zone addr))))
  expand_halves (split_pairs text)

unfoldable pub or_false : Option Bool → Bool
or_false none = false
or_false (some b) = b

-- The embedded IPv4 address of the last two groups; the text that is made of it has no colon, so that
-- the call of `isPrivateIp` ends before its part for IPv6.
unfoldable pub embedded : ℕ → ℕ → Bool
unfolding classify_plain dotted or_false
embedded g h =
    if g / 256 == 0 && g % 256 == 0 && h / 256 == 0 && h % 256 == 0
    then false
    else or_false (classify_plain (dotted (g / 256) (g % 256) (h / 256) (h % 256)))

-- The classification of eight groups: `& 0xfe00` and `& 0xffc0` keep the upper 7 and 10 bits.
unfoldable pub private_groups : List ℕ → Bool
unfolding embedded
private_groups gs =
    let first = get_or gs 0 0 in
    let sixth = get_or gs 5 0 in
    if all (λ g. g == 0) gs
    then true
    else if all (λ g. g == 0) (take 7 gs) && get_or gs 7 0 == 1
    then true
    else if first / 512 == 126
    then true
    else if first / 64 == 1018
    then true
    else if all (λ g. g == 0) (take 5 gs) && (sixth == 65535 || sixth == 0)
    then embedded (get_or gs 6 0) (get_or gs 7 0)
    else false

-- What is left for a text that is no address: the prefixes `f[cd]` and `fe[89ab]`.
unfoldable pub private_prefix : Units → Bool
unfolding same_units units starts_with
private_prefix addr =
    same_units addr (units "::")
    || same_units addr (units "::1")
    || starts_with (units "fc") addr
    || starts_with (units "fd") addr
    || starts_with (units "fe8") addr
    || starts_with (units "fe9") addr
    || starts_with (units "fea") addr
    || starts_with (units "feb") addr

-- `isPrivateIpv6`.
unfoldable pub is_private_ipv6 : Units → Bool
unfolding expand_ipv6 private_groups private_prefix
is_private_ipv6 addr = elim (expand_ipv6 addr) [
  | none ↦ private_prefix addr
  | some gs ↦ private_groups gs
]

unfoldable pub settle_plain : Units → Option Bool → Bool
unfolding lower_case includes_unit is_private_ipv6
settle_plain host (some b) = b
settle_plain host none =
    let lower = lower_case host in if includes_unit 58 lower then is_private_ipv6 lower else false

-- `isPrivateIp`.
unfoldable pub is_private_ip : Units → Bool
unfolding unbracket classify_plain settle_plain
is_private_ip ip = settle_plain (unbracket ip) (classify_plain (unbracket ip))
