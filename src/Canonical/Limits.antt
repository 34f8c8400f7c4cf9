-- ===== src/Canonical/Limits.antt =====
-- `canonicalStringify` throws exactly for values beyond its limits.
use Prim.Native.String.{String}
use counter_terrorist.Common.{
  All, Bool-cases, List, Option, Result, [], arith, err, if◌then◌else◌, inl, inr, ltb, ltb→lt, none,
  ok, some, ℕ, ◌+◌, ◌>>=◌, ◌↔◌, ◌∷◌, ◌≤◌,
}
use Prim.Native.String
use counter_terrorist.Canonical.{
  Json, Fields, Items, collect, insert_key, json_text, length_fields, length_items, sort_keys,
  template_text, text_le, bracket, depth_error, arr, array_error, bool, canonical_stringify, cons,
  end, field, joined_text, nil, null, num, obj, object_error, str, stringify_fields,
  stringify_items, undefined,
}

-- The call returned.
abbrev pub IsOk : {A E : Type 0} → Result A E → Type 0
IsOk (ok a) = Unit
IsOk (err e) = ⊥

abbrev mutual
  -- At most ten levels under the outermost value, and at most a hundred entries in a container.
  pub InLimits : ℕ → Json → Type 0
  InLimits depth undefined = depth ≤ 10
  InLimits depth null = depth ≤ 10
  InLimits depth (bool b) = depth ≤ 10
  InLimits depth (num n) = depth ≤ 10
  InLimits depth (str s) = depth ≤ 10
  InLimits depth (arr js) = (depth ≤ 10) × (length_items js ≤ 100) × ItemsInLimits (depth + 1) js
  InLimits depth (obj fs) = (depth ≤ 10) × (length_fields fs ≤ 100) × FieldsInLimits (depth + 1) fs

  pub ItemsInLimits : ℕ → Items → Type 0
  ItemsInLimits depth nil = Unit
  ItemsInLimits depth (cons j js) = InLimits depth j × ItemsInLimits depth js

  pub FieldsInLimits : ℕ → Fields → Type 0
  FieldsInLimits depth end = Unit
  FieldsInLimits depth (field k j fs) = InLimits depth j × FieldsInLimits depth fs

abbrev Parts : Type 0
Parts = List (String × Result (Option String) String)

abbrev AllOk : Parts → Type 0
AllOk ps = All (λ p. IsOk p.1) ps

insert_key-AllOk :
    (k : String) (r : Result (Option String) String) (ps : Parts)
    → AllOk (insert_key k r ps) ↔ (IsOk r × AllOk ps)
unfolding insert_key
insert_key-AllOk k r [] = (λ h. h, λ h. h)
insert_key-AllOk k r ((j, s) ∷ ps) = elim (Bool-cases (text_le k j)) [
  | inl e ↦ rw e (λ h. h, λ h. h)
  | inr e ↦
      let (down, up) = insert_key-AllOk k r ps in
      rw e (λ h. ((down h.1).0, (h.0, (down h.1).1)), λ h. (h.1.0, up (h.0, h.1.1)))
]

sort_keys-AllOk : (ps : Parts) → AllOk (sort_keys ps) ↔ AllOk ps
unfolding sort_keys
sort_keys-AllOk [] = (λ h. h, λ h. h)
sort_keys-AllOk ((k, r) ∷ ps) =
    let (down, up) = insert_key-AllOk k r (sort_keys ps) in
    let (below, above) = sort_keys-AllOk ps in
    (λ h. ((down h).0, below (down h).1), λ h. up (h.0, above h.1))

collect-IsOk : (ps : Parts) → IsOk (collect ps) ↔ AllOk ps
unfolding collect
collect-IsOk [] = (λ h. h, λ h. h)
collect-IsOk ((k, r) ∷ ps) = go r (collect ps) (collect-IsOk ps)
  where
    go :
        (r : Result (Option String) String) (rest : Result (List String) String)
        → IsOk rest ↔ AllOk ps
        → IsOk (
            r >>= λ v.
            rest >>= λ vs. ok (String.◌++◌ (json_text k) (String.◌++◌ ":" (template_text v)) ∷ vs))
          ↔ (IsOk r × AllOk ps)
    go (ok v) (ok vs) (f, g) = (λ h. (tt, f tt), λ h. tt)
    go (ok v) (err e) (f, g) = (λ h. absurd h, λ h. g h.1)
    go (err e) rest (f, g) = (λ h. absurd h, λ h. absurd h.0)

text-IsOk :
    (depth : ℕ) (v : Option String)
    → IsOk {A = Option String} {E = String} (if ltb 10 depth then err depth_error else ok v)
      ↔ (depth ≤ 10)
text-IsOk depth v = elim (Bool-cases (ltb 10 depth)) [
  | inl deep ↦ rw deep (λ h. absurd h, λ h. absurd (omega (arith, ltb→lt 10 depth deep)))
  | inr shallow ↦ rw shallow (λ h. ground arith, λ h. tt)
]

-- The three tests of a container, in their order.
container-IsOk :
    {P : Type 0} (depth n : ℕ) (deep broad : String) (parts : Result (List String) String)
    (open_sign close_sign : String)
    → IsOk parts ↔ P
    → IsOk (
        if ltb 10 depth
        then err deep
        else if ltb 100 n
        then err broad
        else (parts >>= λ ps. ok (bracket open_sign close_sign ps)))
      ↔ ((depth ≤ 10) × (n ≤ 100) × P)
container-IsOk depth n deep broad parts a b (f, g) = elim (Bool-cases (ltb 10 depth)) [
  | inl far ↦ rw far (λ h. absurd h, λ h. absurd (omega (arith, ltb→lt 10 depth far)))
  | inr near ↦ elim (Bool-cases (ltb 100 n)) [
    | inl wide ↦ rw (near, wide) (λ h. absurd h, λ h. absurd (omega (arith, ltb→lt 100 n wide)))
    | inr narrow ↦
        rw (near, narrow)
          (
            λ h. (ground arith, ground arith, f (IsOk_of_bind parts h)),
            λ h. bind-IsOk parts (g h.2),
          )
  ]
]
  where
    IsOk_of_bind :
        (parts : Result (List String) String)
        → IsOk (parts >>= λ ps. ok (bracket a b ps))
        → IsOk parts
    IsOk_of_bind (ok ps) h = tt
    IsOk_of_bind (err e) h = h

    bind-IsOk :
        (parts : Result (List String) String)
        → IsOk parts
        → IsOk (parts >>= λ ps. ok (bracket a b ps))
    bind-IsOk (ok ps) h = tt
    bind-IsOk (err e) h = h

cons-IsOk :
    {P Q : Type 0} (r : Result (Option String) String) (rest : Result (List String) String)
    → IsOk r ↔ P
    → IsOk rest ↔ Q
    → IsOk (r >>= λ v. rest >>= λ vs. ok (joined_text v ∷ vs)) ↔ (P × Q)
cons-IsOk (ok v) (ok vs) (f, g) (h, k) = (λ _. (f tt, h tt), λ _. tt)
cons-IsOk (ok v) (err e) (f, g) (h, k) = (λ b. absurd b, λ b. k b.1)
cons-IsOk (err e) rest (f, g) (h, k) = (λ b. absurd b, λ b. g b.0)

mutual
  unfolding canonical_stringify stringify_items stringify_fields

  stringify-IsOk : (j : Json) (depth : ℕ) → IsOk (canonical_stringify depth j) ↔ InLimits depth j
  stringify-IsOk undefined depth = text-IsOk depth none
  stringify-IsOk null depth = text-IsOk depth (some "null")
  stringify-IsOk (bool b) depth = text-IsOk depth _
  stringify-IsOk (num n) depth = text-IsOk depth _
  stringify-IsOk (str s) depth = text-IsOk depth _
  stringify-IsOk (arr js) depth =
      container-IsOk depth (length_items js) depth_error array_error _ "[" "]"
        (items-IsOk js (depth + 1))
  stringify-IsOk (obj fs) depth =
      let sorted = sort_keys-AllOk (stringify_fields (depth + 1) fs) in
      let collected = collect-IsOk (sort_keys (stringify_fields (depth + 1) fs)) in
      let each = fields-AllOk fs (depth + 1) in
      container-IsOk depth (length_fields fs) depth_error object_error _ "{" "}"
        (λ h. each.0 (sorted.0 (collected.0 h)), λ h. collected.1 (sorted.1 (each.1 h)))

  items-IsOk : (js : Items) (depth : ℕ) → IsOk (stringify_items depth js) ↔ ItemsInLimits depth js
  items-IsOk nil depth = (λ h. h, λ h. h)
  items-IsOk (cons j js) depth =
      cons-IsOk (canonical_stringify depth j) (stringify_items depth js) (stringify-IsOk j depth)
        (items-IsOk js depth)

  fields-AllOk :
      (fs : Fields) (depth : ℕ) → AllOk (stringify_fields depth fs) ↔ FieldsInLimits depth fs
  fields-AllOk end depth = (λ h. h, λ h. h)
  fields-AllOk (field k j fs) depth =
      let here = stringify-IsOk j depth in
      let rest = fields-AllOk fs depth in
      (λ h. (here.0 h.0, rest.0 h.1), λ h. (here.1 h.0, rest.1 h.1))

-- The call at a depth returns exactly for the values that keep to the limits there: no more than ten
-- levels in all, no more than a hundred entries in an array or object; else it throws.
pub canonical_stringify-IsOk_iff :
    (depth : ℕ) (j : Json) → IsOk (canonical_stringify depth j) ↔ InLimits depth j
canonical_stringify-IsOk_iff depth j = stringify-IsOk j depth
