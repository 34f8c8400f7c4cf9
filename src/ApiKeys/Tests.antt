-- ===== src/ApiKeys/Tests.antt =====
-- A key in repositories of two entries.
use counter_terrorist.Validation.{secure_compare}
use Prim.Native.String.{String}
use mathlib.Core.Bool.{false≢true}
use counter_terrorist.Common.{
  List, [], arith, false, none, ok, refl, some, string_eq, texts, true, ℕ, ◌∷◌, ◌≡◌,
}
use counter_terrorist.Session.{viewer}
use counter_terrorist.Repository.{Repository, Store, is_permitted}
use counter_terrorist.Repository.Kv.{kv_repository}
use counter_terrorist.ApiKeys.{
  StoredKey, add_char, create_api_key, id_part, is_internal, key_id, raw_key_of, revoke_api_key,
  role_text, split_text, validate_api_key,
}
use counter_terrorist.ApiKeys.Lifetime.{create_api_key-lifetime}
use counter_terrorist.ApiKeys.Parts.{is_plain}

abbrev hashes : Store StoredKey
hashes = record { prefix = "api_keys_hash"; is_read_only = false; entries = [] }

abbrev ids : Store String
ids = record { prefix = "api_keys_id"; is_read_only = false; entries = ("a", "h") ∷ [] }

abbrev hash_repo : Repository StoredKey (Store StoredKey)
hash_repo = kv_repository

abbrev id_repo : Repository String (Store String)
id_repo = kv_repository

open_hashes : hash_repo.is_open hashes ≡ true
unfolding kv_repository is_permitted
open_hashes = refl

open_ids : id_repo.is_open ids ≡ true
unfolding kv_repository is_permitted
open_ids = refl

-- A hash that only joins its texts.
abbrev salted_text : String → String → String
salted_text key salt = texts (key ∷ "." ∷ salt ∷ [])

abbrev mark : String → List ℕ
mark t = 17 ∷ 255 ∷ []

viewer_key : raw_key_of viewer "b-1" "s3_x" ≡ "ct_viewer_b-1_s3_x"
unfolding raw_key_of role_text
viewer_key = refl

key_id_test : key_id "ct_viewer_b-1_s3_x" ≡ some "b-1"
unfolding key_id id_part split_text add_char
key_id_test = refl

short_key_test : key_id "ct_viewer_b-1" ≡ none
unfolding key_id id_part split_text add_char
short_key_test = refl

create_api_key-lifetime_example :
    (s : Store StoredKey × Store String) × (create_api_key hash_repo id_repo salted_text "ci" viewer
        "b-1" "pepper" "s3_x" 10
        (hashes, ids)
      ≡ (s, ok (raw_key_of viewer "b-1" "s3_x", "b-1")))
    × ((at : ℕ)
        → (validate_api_key hash_repo id_repo salted_text mark at
            (raw_key_of viewer "b-1" "s3_x")
            s).1
          ≡ some viewer)
    × ((at : ℕ) (other : String)
        → key_id other ≡ some "b-1"
        → secure_compare mark
            (some (salted_text other "pepper"))
            (some (salted_text (raw_key_of viewer "b-1" "s3_x") "pepper"))
          ≡ false
        → validate_api_key hash_repo id_repo salted_text mark at other s ≡ (s.0, none))
    × ((t : Store StoredKey × Store String) × (revoke_api_key hash_repo id_repo "b-1" s
          ≡ (t, ok tt))
        × ((at : ℕ) (other : String)
            → key_id other ≡ some "b-1"
            → validate_api_key hash_repo id_repo salted_text mark at other t ≡ (t.0, none)))
unfolding is_internal is_plain raw_key_of role_text
create_api_key-lifetime_example =
    create_api_key-lifetime hash_repo id_repo salted_text mark "ci" viewer "b-1" "pepper" "s3_x" 10
      hashes ids open_hashes open_ids refl refl
      (λ e. false≢true ((string_eq.same_iff "pepper" "").1 e))
      (λ e. false≢true ((string_eq.same_iff "ct_viewer_b-1_s3_x.pepper" "").1 e))
      (ground arith, (ground arith, tt))
