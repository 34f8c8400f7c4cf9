-- ===== src/Canonical.antt =====
-- src/orchestrator/core/crypto_utils.ts: `canonicalStringify` and `computeHash`. The platform's SHA-256,
-- as hexadecimal text, is a parameter. A number is held as the text that `JSON.stringify` prints
-- for it, which is `null` for NaN and the infinities.
pub mod Limits
pub mod Equality
mod Tests
use Prim.Native.Nat.{Ordering}
use Prim.Native.String.{String}
use Prim.Native.Char.{Char, code}
use Prim.Native.String
use counter_terrorist.Common.{
  Bool, List, Option, Result, [], err, false, get_or, if◌then◌else◌, ltb, none, ok, some, suc, true,
  ℕ, ◌%◌, ◌++◌, ◌+◌, ◌/◌, ◌==◌, ◌>>=◌, ◌∷◌,
}

mutual
  pub data Json : Type 0 where
    undefined : Json
    null : Json
    bool : Bool → Json
    num : String → Json
    str : String → Json
    arr : Items → Json
    obj : Fields → Json

  pub data Items : Type 0 where
    nil : Items
    cons : Json → Items → Items

  -- The own enumerable properties of an object; its keys are distinct.
  pub data Fields : Type 0 where
    end : Fields
    field : String → Json → Fields → Fields

abbrev max_depth : ℕ
max_depth = 10

abbrev max_breadth : ℕ
max_breadth = 100

abbrev pub depth_error : String
depth_error = "Serialization Error: Max recursion depth (10) exceeded."

abbrev pub array_error : String
array_error = "Serialization Error: Max array breadth (100) exceeded."

abbrev pub object_error : String
object_error = "Serialization Error: Max object breadth (100) exceeded."

abbrev hex_digit : ℕ → String
hex_digit n =
    get_or
      ("0" ∷ "1" ∷ "2" ∷ "3" ∷ "4" ∷ "5" ∷ "6" ∷ "7" ∷ "8" ∷ "9" ∷ "a" ∷ "b" ∷ "c" ∷ "d" ∷ "e" ∷ "f"
        ∷ [])
      n ""

-- `JSON.stringify` of a text: the language's QuoteJSONString, for texts of whole code points.
unfoldable pub quote_char : Char → String
quote_char c =
    if code c == 0x22
    then "\\\""
    else if code c == 0x5c
    then "\\\\"
    else if code c == 8
    then "\\b"
    else if code c == 9
    then "\\t"
    else if code c == 10
    then "\\n"
    else if code c == 12
    then "\\f"
    else if code c == 13
    then "\\r"
    else if ltb (code c) 32
    then String.◌++◌ "\\u00" (String.◌++◌ (hex_digit (code c / 16)) (hex_digit (code c % 16)))
    else String.◌∷◌ c String.[]

unfoldable pub quote_chars : String → String
unfolding quote_char
quote_chars String.[] = ""
quote_chars (String.◌∷◌ c s) = String.◌++◌ (quote_char c) (quote_chars s)

unfoldable pub json_text : String → String
unfolding quote_chars
json_text s = String.◌++◌ "\"" (String.◌++◌ (quote_chars s) "\"")

-- What the function returns: a text, or the `undefined` that `JSON.stringify(undefined)` gives.
-- `join` writes `undefined` as nothing, a template as the word.
abbrev pub joined_text : Option String → String
joined_text none = ""
joined_text (some s) = s

abbrev template_text : Option String → String
template_text none = "undefined"
template_text (some s) = s

-- `join(",")`.
join_commas : List String → String
join_commas [] = ""
join_commas (s ∷ []) = s
join_commas (s ∷ t ∷ rest) = String.◌++◌ s (String.◌++◌ "," (join_commas (t ∷ rest)))

abbrev pub length_items : Items → ℕ
length_items nil = 0
length_items (cons j js) = suc (length_items js)

abbrev pub length_fields : Fields → ℕ
length_fields end = 0
length_fields (field k j fs) = suc (length_fields fs)

-- `keys.sort()`, on the keys with the texts of their values. (The language compares code units,
-- which orders texts of the basic plane as code points are ordered.)
abbrev text_le : String → String → Bool
text_le s t = elim (String.compare s t) [ Ordering.gt ↦ false | _ ↦ true ]

insert_key {ℓ} : {V : Type ℓ} → String → V → List (String × V) → List (String × V)
insert_key k v [] = (k, v) ∷ []
insert_key k v ((j, w) ∷ rest) =
    if text_le k j then (k, v) ∷ (j, w) ∷ rest else (j, w) ∷ insert_key k v rest

sort_keys {ℓ} : {V : Type ℓ} → List (String × V) → List (String × V)
unfolding insert_key
sort_keys [] = []
sort_keys ((k, v) ∷ rest) = insert_key k v (sort_keys rest)

-- `keys.map(…)`, in order: the first exception ends it.
collect : List (String × Result (Option String) String) → Result (List String) String
unfolding json_text
collect [] = ok []
collect ((k, r) ∷ rest) = do
  v ← r
  vs ← collect rest
  ok (String.◌++◌ (json_text k) (String.◌++◌ ":" (template_text v)) ∷ vs)

bracket : String → String → List String → Option String
unfolding join_commas
bracket open_sign close_sign parts =
    some (String.◌++◌ open_sign (String.◌++◌ (join_commas parts) close_sign))

mutual
  unfolding sort_keys collect bracket

  -- `canonicalStringify`; the depth's test stands before any other.
  pub canonical_stringify : ℕ → Json → Result (Option String) String
  canonical_stringify depth undefined = if ltb max_depth depth then err depth_error else ok none
  canonical_stringify depth null = if ltb max_depth depth then err depth_error else ok (some "null")
  canonical_stringify depth (bool b) =
      if ltb max_depth depth then err depth_error else ok (some (if b then "true" else "false"))
  canonical_stringify depth (num n) = if ltb max_depth depth then err depth_error else ok (some n)
  canonical_stringify depth (str s) =
      if ltb max_depth depth then err depth_error else ok (some (json_text s))
  canonical_stringify depth (arr js) =
      let parts = stringify_items (depth + 1) js in
      if ltb max_depth depth
      then err depth_error
      else if ltb max_breadth (length_items js)
      then err array_error
      else (parts >>= λ ps. ok (bracket "[" "]" ps))
  canonical_stringify depth (obj fs) =
      let parts = stringify_fields (depth + 1) fs in
      if ltb max_depth depth
      then err depth_error
      else if ltb max_breadth (length_fields fs)
      then err object_error
      else (collect (sort_keys parts) >>= λ ps. ok (bracket "{" "}" ps))

  pub stringify_items : ℕ → Items → Result (List String) String
  stringify_items depth nil = ok []
  stringify_items depth (cons j js) = canonical_stringify depth j >>= λ v.
      stringify_items depth js >>= λ vs. ok (joined_text v ∷ vs)

  -- The text of each property's value, before the keys are sorted.
  pub stringify_fields : ℕ → Fields → List (String × Result (Option String) String)
  stringify_fields depth end = []
  stringify_fields depth (field k j fs) =
      (k, canonical_stringify depth j) ∷ stringify_fields depth fs

-- `computeHash`: `encode(undefined)` gives no bytes.
unfoldable pub compute_hash : (String → String) → Json → Result String String
unfolding canonical_stringify stringify_items stringify_fields
compute_hash sha256_hex input =
    canonical_stringify 0 input >>= λ text. ok (sha256_hex (joined_text text))
