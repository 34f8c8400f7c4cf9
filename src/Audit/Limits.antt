-- ===== src/Audit/Limits.antt =====
-- The sanitised data of an event are within the limits of `canonicalStringify`.
use Prim.Native.String.{String}
use counter_terrorist.Common.{
  Bool-cases, List, Option, Result, [], arith, err, if◌then◌else◌, inl, inr, length, length-take_le,
  none, ok, refl, some, string_eq, suc, take, zero, ℕ, ◌+◌, ◌===◌, ◌>>=◌, ◌∷◌, ◌≡◌, ◌≤◌,
}
use counter_terrorist.Canonical.{
  Json, Fields, field, length_fields, length_items, obj, canonical_stringify, compute_hash,
}
use counter_terrorist.Canonical.Limits.{
  InLimits, FieldsInLimits, ItemsInLimits, IsOk, canonical_stringify-IsOk_iff,
}
use counter_terrorist.Audit.{Request, entry_of, sanitized}
use counter_terrorist.Audit.Process.{Answers, draft}
use counter_terrorist.Canonical.{obj, joined_text}
use counter_terrorist.AuditVerifier.{hash_input, optional_text, optional_object}
use counter_terrorist.Audit.Sanitize.{
  Value, Object, Objects, array, bigint, boolean, function, has_seen, missing, nothing, number,
  primitive, properties, reference, sanitize, sanitize_data_for_audit, sanitize_fields,
  sanitize_items, sanitize_object, symbol, string,
}

-- What `sanitize` promises of one visit.
abbrev KeepsLimits : ℕ → (Value → List ℕ → Json × List ℕ) → Type 0
KeepsLimits depth visit = (v : Value) (seen : List ℕ) → InLimits depth (visit v seen).0

module _ (depth : ℕ) (visit : Value → List ℕ → Json × List ℕ)
    (keeps : KeepsLimits depth visit) where
  sanitize_items-InLimits :
      (vs : List Value) (seen : List ℕ)
      → (length_items (sanitize_items visit vs seen).0 ≤ length vs)
        × ItemsInLimits depth (sanitize_items visit vs seen).0
  unfolding sanitize_items
  sanitize_items-InLimits [] seen = (omega arith, tt)
  sanitize_items-InLimits (v ∷ vs) seen =
      let (short, within) = sanitize_items-InLimits vs (visit v seen).1 in
      (omega (arith, short), (keeps v seen, within))

  field-InLimits :
      (k : String) (j : Json) (fs : Fields) (n : ℕ)
      → InLimits depth j
      → (length_fields fs ≤ n) × FieldsInLimits depth fs
      → (length_fields (if k === "__proto__" then fs else field k j fs) ≤ n + 1)
        × FieldsInLimits depth (if k === "__proto__" then fs else field k j fs)
  field-InLimits k j fs n here (short, within) = elim (Bool-cases (k === "__proto__")) [
    | inl e ↦ rw e (omega (arith, short), within)
    | inr e ↦ rw e (omega (arith, short), (here, within))
  ]

  sanitize_fields-InLimits :
      (kvs : List (String × Value)) (seen : List ℕ)
      → (length_fields (sanitize_fields visit kvs seen).0 ≤ length kvs)
        × FieldsInLimits depth (sanitize_fields visit kvs seen).0
  unfolding sanitize_fields
  sanitize_fields-InLimits [] seen = (omega arith, tt)
  sanitize_fields-InLimits ((k, function) ∷ kvs) seen =
      let (short, within) = sanitize_fields-InLimits kvs seen in (omega (arith, short), within)
  sanitize_fields-InLimits ((k, v) ∷ kvs) seen =
      let (short, within) =
        field-InLimits k (visit v seen).0 _ (length kvs) (keeps v seen)
          (sanitize_fields-InLimits kvs (visit v seen).1) in
      (omega (arith, short), within)

  sanitize_object-InLimits :
      (d : ℕ) (o : Object) (seen : List ℕ)
      → d + 1 ≡ depth
      → d ≤ 10
      → InLimits d (sanitize_object visit o seen).0
  unfolding sanitize_object
  sanitize_object-InLimits d (array vs) seen next low =
      let (short, within) = sanitize_items-InLimits (take 50 vs) seen in
      (low, omega (arith, short, length-take_le 50 vs), rw next within)
  sanitize_object-InLimits d (properties kvs) seen next low =
      let (short, within) = sanitize_fields-InLimits (take 50 kvs) seen in
      (low, omega (arith, short, length-take_le 50 kvs), rw next within)

primitive-InLimits : (v : Value) (depth : ℕ) → depth ≤ 10 → InLimits depth (primitive v)
unfolding primitive
primitive-InLimits missing depth low = low
primitive-InLimits nothing depth low = low
primitive-InLimits (boolean b) depth low = low
primitive-InLimits (number n) depth low = low
primitive-InLimits (string s) depth low = low
primitive-InLimits (bigint s) depth low = low
primitive-InLimits (symbol s) depth low = low
primitive-InLimits function depth low = low
primitive-InLimits (reference r) depth low = low

-- A value whose visit starts `left` levels above the cut is, at a depth that leaves room for them,
-- within the limits: however the objects contain one another.
pub sanitize-InLimits :
    (heap : Objects) (left depth : ℕ) (v : Value) (seen : List ℕ)
    → depth + left ≤ 10
    → InLimits depth (sanitize heap left v seen).0
unfolding sanitize
sanitize-InLimits heap zero depth v seen room = omega (arith, room)
sanitize-InLimits heap (suc left) depth (reference r) seen room =
    let visited =
      sanitize_object-InLimits (depth + 1) (sanitize heap left)
        (λ v met. sanitize-InLimits heap left (depth + 1) v met (omega (arith, room))) depth
        (heap r) (r ∷ seen) refl (omega (arith, room)) in
    elim (Bool-cases (has_seen r seen)) [
      | inl e ↦ rw e (omega (arith, room))
      | inr e ↦ rw e visited
    ]
sanitize-InLimits heap (suc left) depth v seen room =
    primitive-InLimits v depth (omega (arith, room))

-- The data of an event, of whatever objects, have at most fifty entries and fit below the object
-- that is hashed.
pub sanitize_data_for_audit-InLimits :
    (heap : Objects) (r : ℕ) (kvs : List (String × Value))
    → InLimits 1 (obj (sanitize_data_for_audit heap r kvs))
unfolding sanitize_data_for_audit
sanitize_data_for_audit-InLimits heap r kvs =
    let (short, within) =
      sanitize_fields-InLimits 2 (sanitize heap 6)
        (λ v met. sanitize-InLimits heap 6 2 v met (omega arith)) (take 50 kvs) (r ∷ []) in
    (omega arith, omega (arith, short, length-take_le 50 kvs), within)

-- The object of the actor, where there is one, is within the limits.
abbrev pub ActorInLimits : Option Fields → Type 0
ActorInLimits none = Unit
ActorInLimits (some fs) = InLimits 1 (obj fs)

optional_text-InLimits : (o : Option String) → InLimits 1 (optional_text o)
optional_text-InLimits none = omega arith
optional_text-InLimits (some t) = omega arith

optional_object-InLimits : (o : Option Fields) → ActorInLimits o → InLimits 1 (optional_object o)
optional_object-InLimits none h = omega arith
optional_object-InLimits (some fs) h = h

sanitized-InLimits :
    (heap : Objects) (o : Option (ℕ × List (String × Value)))
    → InLimits 1 (optional_object (sanitized heap o))
unfolding sanitized
sanitized-InLimits heap none = omega arith
sanitized-InLimits heap (some (r, kvs)) = sanitize_data_for_audit-InLimits heap r kvs

hash_input-InLimits :
    (heap : Objects) (r : Request) (a : Answers) (prev_hash : String)
    → ActorInLimits r.actor
    → InLimits 0 (hash_input (draft a prev_hash (entry_of heap r)))
unfolding hash_input draft entry_of
hash_input-InLimits heap r a prev_hash actor =
    let text : 1 ≤ 10 = omega arith in
    (
      omega arith,
      omega arith,
      (
        text,
        (
          text,
          (
            text,
            (
              optional_text-InLimits r.severity,
              (
                optional_text-InLimits r.caller,
                (
                  text,
                  (
                    optional_object-InLimits r.actor actor,
                    (
                      sanitized-InLimits heap r.contents,
                      (optional_text-InLimits r.correlation_id, (text, tt)),
                    ),
                  ),
                ),
              ),
            ),
          ),
        ),
      ),
    )

-- Whatever the data of an event, objects that contain themselves included: if its actor is within the
-- limits of the serialiser, the hash of the event that is made of it is computed, never an exception.
pub compute_hash-draft-IsOk :
    (sha256_hex : String → String) (heap : Objects) (r : Request) (a : Answers) (prev_hash : String)
    → ActorInLimits r.actor
    → IsOk (compute_hash sha256_hex (hash_input (draft a prev_hash (entry_of heap r))))
unfolding compute_hash
compute_hash-draft-IsOk sha256_hex heap r a prev_hash actor =
    hashed (canonical_stringify 0 (hash_input (draft a prev_hash (entry_of heap r)))) (
      (canonical_stringify-IsOk_iff 0 (hash_input (draft a prev_hash (entry_of heap r)))).1
        (hash_input-InLimits heap r a prev_hash actor))
  where
    hashed :
        (t : Result (Option String) String)
        → IsOk t
        → IsOk (t >>= λ text. ok (sha256_hex (joined_text text)))
    hashed (ok t) h = tt
    hashed (err e) h = h
