-- ===== src/ApiKeys/Lifetime.antt =====
-- `createApiKey`, `validateApiKey` and `revokeApiKey` of domain/identity/api_keys.ts, from the creation of a
-- key to its end.
use counter_terrorist.Validation.{secure_compare}
use Prim.Native.String.{String}
use counter_terrorist.Common.{
  ===_other, List, Option, ap, false, if_false, if_true, none, ok, refl, some, string_eq, true, ℕ,
  ◌===◌, ◌∙◌, ◌≡◌, ◌≢◌,
}
use counter_terrorist.Session.{Role}
use counter_terrorist.Validation.Compare.{IsBytes, secure_compare_self}
use counter_terrorist.Repository.{Repository}
use counter_terrorist.ApiKeys.{
  StoredKey, compare_key, create_api_key, expected_hash, is_internal, key_id, make_key, non_empty,
  raw_key_of, remove_hash, remove_id, revoke_api_key, salted, store_hash, store_key,
  validate_api_key, validate_hash,
}
use counter_terrorist.ApiKeys.Parts.{is_plain, key_id-raw_key_of}

module _ {H I : Type 0} (hash_repo : Repository StoredKey H) (id_repo : Repository String I)
    (hash_key : String → String → String) where
  -- While writes are open, a new key with a role that is not internal is stored; it is accepted with its
  -- role, another key with its id is refused where the HMAC of its hash differs, and once the id is
  -- revoked the key is refused. It is assumed that the id has no underscore, that neither the salt nor
  -- the hash is empty, and that the HMAC of the hash is an array of bytes.
  pub create_api_key-lifetime :
      (mac : String → List ℕ) (name : String) (role : Role) (id salt secret : String) (now : ℕ)
      (h : H) (i : I)
      → hash_repo.is_open h ≡ true
      → id_repo.is_open i ≡ true
      → is_internal role ≡ false
      → is_plain id ≡ true
      → salt ≢ ""
      → hash_key (raw_key_of role id secret) salt ≢ ""
      → IsBytes (mac (hash_key (raw_key_of role id secret) salt))
      → (s : H × I) × (create_api_key hash_repo id_repo hash_key name role id salt secret now (h, i)
          ≡ (s, ok (raw_key_of role id secret, id)))
        × ((at : ℕ)
            → (validate_api_key hash_repo id_repo hash_key mac at (raw_key_of role id secret) s).1
              ≡ some role)
        × ((at : ℕ) (other : String)
            → key_id other ≡ some id
            → secure_compare mac
                (some (hash_key other salt))
                (some (hash_key (raw_key_of role id secret) salt))
              ≡ false
            → validate_api_key hash_repo id_repo hash_key mac at other s ≡ (s.0, none))
        × ((t : H × I) × (revoke_api_key hash_repo id_repo id s ≡ (t, ok tt))
            × ((at : ℕ) (other : String)
                → key_id other ≡ some id
                → validate_api_key hash_repo id_repo hash_key mac at other t ≡ (t.0, none)))
  unfolding create_api_key store_key store_hash make_key validate_api_key expected_hash non_empty
      validate_hash salted compare_key revoke_api_key remove_hash remove_id
  create_api_key-lifetime mac name role id salt secret now h i open_h open_i external plain salty
        hashed bytes =
      let raw_key = raw_key_of role id secret in
      let (j, saved_j, still_j, found_j, _) = id_repo.save_lem id key_hash i open_i in
      let (g, saved_g, still_g, found_g, _) = hash_repo.save_lem key_hash metadata h open_h in
      let (g₂, deleted_g, _, gone_g, _) = hash_repo.delete_lem key_hash g still_g in
      let (j₂, deleted_j, _, gone_j, _) = id_repo.delete_lem id j still_j in
      (
        (g, j),
        rw external (rw (store_key, saved_j) (rw (store_hash, saved_g) refl)),
        (λ at.
            ap (λ r. r.1)
              (validate at raw_key (key_id-raw_key_of role id secret external plain) found_j found_g
                ∙ if_true (secure_compare mac (some key_hash) (some key_hash)) _ _
                    (secure_compare_self mac key_hash none bytes).0)),
        (λ at other names differs.
            validate at other names found_j found_g
            ∙ if_false (secure_compare mac (some (hash_key other salt)) (some key_hash)) _ _
                differs),
        (
          (g₂, j₂),
          ap (λ o. remove_hash hash_repo id_repo id o g j) (named found_j)
              ∙ rw (remove_hash, deleted_g) (rw (remove_id, deleted_j) refl),
          λ at other names. rw names (rw gone_j refl),
        ),
      )
    where
      key_hash : String
      key_hash = hash_key (raw_key_of role id secret) salt

      metadata : StoredKey
      metadata = make_key role id name salt now

      named :
          {j : I} → id_repo.get id j ≡ some key_hash → non_empty (id_repo.get id j) ≡ some key_hash
      named e =
          ap non_empty e
          ∙ if_false (key_hash === "") none (some key_hash) (===_other key_hash "" hashed)

      validate :
          (at : ℕ) (other : String) {g : H} {j : I}
          → key_id other ≡ some id
          → id_repo.get id j ≡ some key_hash
          → hash_repo.get key_hash g ≡ some metadata
          → validate_api_key hash_repo id_repo hash_key mac at other (g, j)
            ≡ compare_key hash_repo id_repo hash_key mac at other key_hash metadata g
      validate at other {g} {j} names found_j found_g =
          ap
            (λ o.
              validate_hash hash_repo id_repo hash_key mac at other
                (expected_hash hash_repo id_repo hash_key o j) g)
            names
          ∙ (ap (λ o. validate_hash hash_repo id_repo hash_key mac at other o g) (named found_j)
              ∙ ap
                  (λ (o : Option StoredKey). elim o [
                    | none ↦ (g, none)
                    | some m ↦ compare_key hash_repo id_repo hash_key mac at other key_hash m g
                  ])
                  (ap salted found_g
                    ∙ if_false (salt === "") none (some metadata) (===_other salt "" salty)))
