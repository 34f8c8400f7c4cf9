-- ===== src/ApiKeys.antt =====
-- src/orchestrator/domain/identity/api_keys.ts: `ApiKeysService`, over two repositories. Ids, salts and
-- secrets that the platform draws are arguments; `hash_key` stands for the hexadecimal SHA-256 of a key
-- with its salt, and `mac` is the parameter of Validation's `secure_compare`. A missing key is the empty text.
pub mod Parts
pub mod Lifetime
mod Tests
use Prim.Native.Char.{code}
use Prim.Native.Char.{Char}
use Prim.Native.String
use Prim.Native.String.{String}
use counter_terrorist.Common.{
  Bool, List, Option, Result, [], err, false, if◌then◌else◌, map, none, ok, some, string_eq, texts,
  true, ℕ, ◌===◌, ◌==◌, ◌∷◌,
}
use counter_terrorist.Session.{Role, admin, mesh_peer, operator, viewer}
use counter_terrorist.Validation.{secure_compare}
use counter_terrorist.Repository.{Repository}

-- What is stored: the metadata with the salt.
pub record StoredKey : Type 0 where
  pub id : String
  pub name : String
  pub role : Role
  pub created_at : ℕ
  pub last_used : Option ℕ
  pub salt : String

pub record ApiKeyMetadata : Type 0 where
  pub id : String
  pub name : String
  pub role : Role
  pub created_at : ℕ
  pub last_used : Option ℕ

unfoldable pub role_text : Role → String
role_text admin = "admin"
role_text operator = "operator"
role_text viewer = "viewer"
role_text mesh_peer = "mesh_peer"

unfoldable pub is_internal : Role → Bool
is_internal admin = true
is_internal operator = false
is_internal viewer = false
is_internal mesh_peer = true

-- `ct_[role]_[id]_[secret]`.
unfoldable pub raw_key_of : Role → String → String → String
unfolding role_text
raw_key_of role id secret = texts ("ct_" ∷ role_text role ∷ "_" ∷ id ∷ "_" ∷ secret ∷ [])

-- `split("_")`.
unfoldable pub add_char : Char → List String → List String
add_char c [] = String.◌∷◌ c String.[] ∷ []
add_char c (p ∷ ps) = String.◌∷◌ c p ∷ ps

unfoldable pub split_text : String → List String
unfolding add_char
split_text String.[] = String.[] ∷ []
split_text (String.◌∷◌ c s) =
    let rest = split_text s in if code c == 95 then String.[] ∷ rest else add_char c rest

-- The id that a key names.
unfoldable pub id_part : List String → Option String
id_part (a ∷ b ∷ c ∷ d ∷ rest) = if a === "ct" then some c else none
id_part _ = none

unfoldable pub key_id : String → Option String
unfolding id_part split_text
key_id raw_key = if raw_key === "" then none else id_part (split_text raw_key)

-- A text that is there and not empty.
unfoldable pub non_empty : Option String → Option String
non_empty none = none
non_empty (some s) = if s === "" then none else some s

-- A stored key that has a salt.
unfoldable pub salted : Option StoredKey → Option StoredKey
salted none = none
salted (some k) = if k.salt === "" then none else some k

-- A state after a write whose failure is ignored.
unfoldable pub or_unchanged : {S E : Type 0} → S → Result S E → S
or_unchanged s (ok t) = t
or_unchanged s (err e) = s

unfoldable pub public_fields : StoredKey → ApiKeyMetadata
public_fields k = record {
  id = k.id;
  name = k.name;
  role = k.role;
  created_at = k.created_at;
  last_used = k.last_used;
}

unfoldable pub make_key : Role → String → String → String → ℕ → StoredKey
make_key role id name salt now = record {
  id = id;
  name = name;
  role = role;
  created_at = now;
  last_used = none;
  salt = salt;
}

module _ {H I : Type 0} (hash_repo : Repository StoredKey H) (id_repo : Repository String I) where
  -- The second write of `_createApiKey`, to the repository of hashes.
  unfoldable pub store_hash :
      String → StoredKey → String → H → I → (H × I) × Result (String × String) String
  store_hash key_hash metadata raw_key h i = elim (hash_repo.save key_hash metadata h) [
    | ok g ↦ ((g, i), ok (raw_key, metadata.id))
    | err e ↦ ((h, i), err e)
  ]

  unfoldable pub store_key :
      String → StoredKey → String → H → I → (H × I) × Result (String × String) String
  unfolding store_hash
  store_key key_hash metadata raw_key h i = elim (id_repo.save metadata.id key_hash i) [
    | ok j ↦ store_hash key_hash metadata raw_key h j
    | err e ↦ ((h, i), err e)
  ]

  -- `revokeApiKey`: the hash first, then the id.
  unfoldable pub remove_id : String → H → I → (H × I) × Result (Unit {0}) String
  remove_id id h i = elim (id_repo.delete id i) [ ok j ↦ ((h, j), ok tt) | err e ↦ ((h, i), err e) ]

  unfoldable pub remove_hash : String → Option String → H → I → (H × I) × Result (Unit {0}) String
  unfolding remove_id
  remove_hash id none h i = ((h, i), ok tt)
  remove_hash id (some key_hash) h i = elim (hash_repo.delete key_hash h) [
    | ok g ↦ remove_id id g i
    | err e ↦ ((h, i), err e)
  ]

  unfoldable pub revoke_api_key : String → H × I → (H × I) × Result (Unit {0}) String
  unfolding remove_hash non_empty
  revoke_api_key id (h, i) = remove_hash id (non_empty (id_repo.get id i)) h i

module _ {H I : Type 0} (hash_repo : Repository StoredKey H) (id_repo : Repository String I)
    (hash_key : String → String → String) where
  -- `createApiKey`, with the raw key and the id that it returns; a thrown error is the result.
  unfoldable pub create_api_key :
      String
      → Role
      → String
      → String
      → String
      → ℕ
      → H × I
      → (H × I) × Result (String × String) String
  unfolding is_internal store_key raw_key_of make_key
  create_api_key name role id salt secret now (h, i) =
      let raw_key = raw_key_of role id secret in
      if is_internal role
      then ((h, i), err "Cannot create API keys for internal or admin roles")
      else store_key hash_repo id_repo (hash_key raw_key salt) (make_key role id name salt now)
          raw_key h i

  -- `_validateApiKey` with the stored key: the comparison, and the renewed `lastUsed`.
  unfoldable pub compare_key :
      (String → List ℕ) → ℕ → String → String → StoredKey → H → H × Option Role
  unfolding or_unchanged
  compare_key mac now raw_key expected metadata h =
      if secure_compare mac (some (hash_key raw_key metadata.salt)) (some expected)
      then (
        or_unchanged h (hash_repo.save expected (record metadata { last_used = some now }) h),
        some metadata.role,
      )
      else (h, none)

  unfoldable pub validate_hash :
      (String → List ℕ) → ℕ → String → Option String → H → H × Option Role
  unfolding compare_key salted
  validate_hash mac now raw_key none h = (h, none)
  validate_hash mac now raw_key (some expected) h = elim (salted (hash_repo.get expected h)) [
    | none ↦ (h, none)
    | some metadata ↦ compare_key mac now raw_key expected metadata h
  ]

  unfoldable pub expected_hash : Option String → I → Option String
  unfolding non_empty
  expected_hash none i = none
  expected_hash (some id) i = non_empty (id_repo.get id i)

  -- `validateApiKey`.
  unfoldable pub validate_api_key : (String → List ℕ) → ℕ → String → H × I → H × Option Role
  unfolding validate_hash expected_hash key_id
  validate_api_key mac now raw_key (h, i) =
      validate_hash mac now raw_key (expected_hash (key_id raw_key) i) h

-- `listApiKeys`.
unfoldable pub list_api_keys : {H : Type 0} → Repository StoredKey H → H → List ApiKeyMetadata
unfolding public_fields
list_api_keys hash_repo h = map public_fields (hash_repo.list h)
