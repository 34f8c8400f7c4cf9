-- ===== src/Repository.antt =====
-- src/orchestrator/infrastructure/persistence/repositories/kv_repository.ts: `KvRepository`, and the
-- interface that the services take for it (domain/repositories/session_repository.ts and the
-- generic `Repository`). The store's writes are optimistic: between the read and the commit of an
-- attempt another writer can leave other entries.
pub mod Writes
pub mod Kv
mod Tests
use Prim.Native.String.{String}
use counter_terrorist.Common.{
  Bool, List, Map, Option, Result, [], err, if◌then◌else◌, map_get, map_set, none, not, ok, some,
  string_eq, suc, texts, true, zero, ℕ, ◌===◌, ◌||◌, ◌∷◌, ◌≡◌, ◌≢◌,
}

-- The interface: the operations on the state `S`, and what a client relies on while writes are open.
pub record Repository (A S : Type 0) : Type 0 where
  pub is_open : S → Bool
  pub get : String → S → Option A
  pub save : String → A → S → Result S String
  pub delete : String → S → Result S String
  pub list : S → List A
  pub save_lem :
      (k : String) (a : A) (s : S)
      → is_open s ≡ true
      → (t : S) × (save k a s ≡ ok t)
        × (is_open t ≡ true)
        × (get k t ≡ some a)
        × ((l : String) → k ≢ l → get l t ≡ get l s)
  pub delete_lem :
      (k : String) (s : S)
      → is_open s ≡ true
      → (t : S) × (delete k s ≡ ok t)
        × (is_open t ≡ true)
        × (get k t ≡ none)
        × ((l : String) → k ≢ l → get l t ≡ get l s)

pub record Store (A : Type 0) : Type 0 where
  pub prefix : String
  pub is_read_only : Bool
  pub entries : Map A

-- `checkWritePermission`.
unfoldable pub is_permitted : Bool → String → Bool
is_permitted is_read_only prefix = not is_read_only || prefix === "audit" || prefix === "incidents"

unfoldable pub denied : String → String
denied prefix = texts (
    "Permission Denied: System is in FORENSIC_RESTRICTED mode. Write/Delete blocked for prefix '"
    ∷ prefix ∷ "'" ∷ [])

-- Removes each entry of a key.
unfoldable pub remove_key {ℓ} : {A : Type ℓ} → String → Map A → Map A
remove_key k [] = []
remove_key k ((key, b) ∷ m) =
    let rest = remove_key k m in if key === k then rest else (key, b) ∷ rest

abbrev pub max_attempts : ℕ
max_attempts = 5

module _ {A : Type 0} where
  -- `get`.
  unfoldable pub kv_get : String → Store A → Option A
  kv_get id s = map_get id s.entries

  -- `list`.
  unfoldable pub kv_list : Map A → List A
  kv_list [] = []
  kv_list ((_, a) ∷ m) = a ∷ kv_list m

  -- The loop of `set` and `delete`: an attempt commits the change, or finds that another writer has
  -- left these entries.
  unfoldable pub write_attempts :
      ℕ → List (Map A) → String → (Map A → Map A) → Map A → Map A × Result (Unit {0}) String
  write_attempts zero others failure change m = (m, err failure)
  write_attempts (suc left) [] failure change m = (change m, ok tt)
  write_attempts (suc left) (other ∷ others) failure change m =
      write_attempts left others failure change other

  unfoldable pub write :
      List (Map A) → String → (Map A → Map A) → Store A → Store A × Result (Unit {0}) String
  unfolding is_permitted denied write_attempts
  write others failure change s =
      if is_permitted s.is_read_only s.prefix
      then (let (m, result) = write_attempts max_attempts others failure change s.entries in
          (record { prefix = s.prefix; is_read_only = s.is_read_only; entries = m }, result))
      else (s, err (denied s.prefix))

  -- `set`.
  unfoldable pub kv_set : List (Map A) → String → A → Store A → Store A × Result (Unit {0}) String
  unfolding write
  kv_set others id a s =
      write others
        (texts (
          "OCC Write Conflict: Failed to set [" ∷ s.prefix ∷ ", " ∷ id ∷ "] after 5 attempts."
          ∷ []))
        (map_set id a) s

  -- `delete`.
  unfoldable pub kv_delete : List (Map A) → String → Store A → Store A × Result (Unit {0}) String
  unfolding write remove_key
  kv_delete others id s =
      write others
        (texts (
          "OCC Write Conflict: Failed to delete [" ∷ s.prefix ∷ ", " ∷ id ∷ "] after 5 attempts."
          ∷ []))
        (remove_key id) s
