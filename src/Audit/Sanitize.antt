-- ===== src/Audit/Sanitize.antt =====
-- src/orchestrator/domain/analysis/audit.ts: `sanitizeDataForAudit`, on objects that can share and
-- contain one another. An object is its identity; a heap says what it holds.
use Prim.Native.String.{String}
use counter_terrorist.Common.{
  Bool, List, [], false, if◌then◌else◌, string_eq, suc, take, texts, zero, ℕ, ◌===◌, ◌==◌, ◌||◌,
  ◌∷◌,
}
use counter_terrorist.Canonical.{Json, Items, Fields, cons, end, field, nil, arr, obj}

-- A value of the language; one that is an object is a reference to it.
pub data Value : Type 0 where
  missing : Value
  nothing : Value
  boolean : Bool → Value
  number : String → Value
  string : String → Value
  bigint : String → Value
  symbol : String → Value
  function : Value
  reference : ℕ → Value

pub data Object : Type 0 where
  array : List Value → Object
  properties : List (String × Value) → Object

abbrev pub Objects : Type 0
Objects = ℕ → Object

abbrev max_entries : ℕ
max_entries = 50

-- A value that is no object. A function, which stays itself in an array, is to the serialiser what
-- `undefined` is.
unfoldable pub primitive : Value → Json
primitive missing = Json.undefined
primitive nothing = Json.null
primitive (boolean b) = Json.bool b
primitive (number n) = Json.num n
primitive (string s) = Json.str s
primitive (bigint digits) = Json.str (texts (digits ∷ "n" ∷ []))
primitive (symbol s) = Json.str s
primitive function = Json.undefined
primitive (reference r) = Json.undefined

-- `seen.has`.
unfoldable pub has_seen : ℕ → List ℕ → Bool
has_seen r [] = false
has_seen r (x ∷ xs) = x == r || has_seen r xs

-- `slice(0, 50).map(…)`; `visit` is the call for one element, which threads `seen`.
unfoldable pub sanitize_items :
    (Value → List ℕ → Json × List ℕ) → List Value → List ℕ → Items × List ℕ
sanitize_items visit [] seen = (nil, seen)
sanitize_items visit (v ∷ vs) seen =
    let (j, met) = visit v seen in
    let (js, all_met) = sanitize_items visit vs met in (cons j js, all_met)

-- The loop over the entries. Functions are left out, and an assignment to `__proto__` makes no
-- property.
unfoldable pub sanitize_fields :
    (Value → List ℕ → Json × List ℕ) → List (String × Value) → List ℕ → Fields × List ℕ
sanitize_fields visit [] seen = (end, seen)
sanitize_fields visit ((k, function) ∷ kvs) seen = sanitize_fields visit kvs seen
sanitize_fields visit ((k, v) ∷ kvs) seen =
    let (j, met) = visit v seen in
    let (fs, all_met) = sanitize_fields visit kvs met in
    (if k === "__proto__" then fs else field k j fs, all_met)

unfoldable pub sanitize_object : (Value → List ℕ → Json × List ℕ) → Object → List ℕ → Json × List ℕ
unfolding sanitize_items sanitize_fields
sanitize_object visit (array vs) seen =
    let (js, met) = sanitize_items visit (take max_entries vs) seen in (arr js, met)
sanitize_object visit (properties kvs) seen =
    let (fs, met) = sanitize_fields visit (take max_entries kvs) seen in (obj fs, met)

-- `sanitizeDataForAudit(obj, depth, seen)`, with `left` for 7 − depth.
unfoldable pub sanitize : Objects → ℕ → Value → List ℕ → Json × List ℕ
unfolding primitive has_seen sanitize_object
sanitize heap zero v seen = (Json.str "[Truncated: Max Depth]", seen)
sanitize heap (suc left) (reference r) seen =
    let visited = sanitize_object (sanitize heap left) (heap r) (r ∷ seen) in
    if has_seen r seen then (Json.str "[Circular]", seen) else visited
sanitize heap (suc left) v seen = (primitive v, seen)

-- The call for the data of an event, an object with its entries.
unfoldable pub sanitize_data_for_audit : Objects → ℕ → List (String × Value) → Fields
unfolding sanitize_fields sanitize
sanitize_data_for_audit heap r kvs =
    (sanitize_fields (sanitize heap 6) (take max_entries kvs) (r ∷ [])).0
