-- ===== src/Queue.antt =====
-- src/orchestrator/core/utils/persistent_queue.ts: `PersistentQueue`. Keys are written without the
-- queue's own prefix; the store is in the order of its keys. `process` reads one batch of at most a
-- hundred entries before it writes; the handler's answers are numbered by its calls.
pub mod Bounds
pub mod DeadLetters
mod Tests
use Prim.Native.Nat.{Ordering}
use Prim.Native.String.{String}
use Prim.Native.String
use counter_terrorist.Common.{
  Bool, List, Option, [], false, if◌then◌else◌, leb, none, some, string_eq, take, true, ℕ, ◌&&◌,
  ◌+◌, ◌===◌, ◌∷◌,
}

pub record Item (A : Type 0) : Type 0 where
  pub item : A
  pub attempts : ℕ
  pub timestamp : ℕ

abbrev pub Key : Type 0
Key = List String

unfoldable pub key_eq : Key → Key → Bool
key_eq [] [] = true
key_eq [] (_ ∷ _) = false
key_eq (_ ∷ _) [] = false
key_eq (a ∷ k) (b ∷ l) = a === b && key_eq k l

-- The order of keys: part by part, a prefix first.
unfoldable pub key_lt : Key → Key → Bool
key_lt k [] = false
key_lt [] (_ ∷ _) = true
key_lt (a ∷ k) (b ∷ l) =
    let rest = key_lt k l in
    elim (String.compare a b) [ Ordering.lt ↦ true | Ordering.eq ↦ rest | Ordering.gt ↦ false ]

-- `key[key.length - 1]`.
unfoldable pub last_part : Key → String
last_part [] = ""
last_part (s ∷ []) = s
last_part (s ∷ t ∷ k) = last_part (t ∷ k)

unfoldable pub dlq_key : Key → Key
unfolding last_part
dlq_key k = "dlq" ∷ last_part k ∷ []

module _ {A : Type 0} where
  unfoldable pub kv_set : Key → Item A → List (Key × Item A) → List (Key × Item A)
  unfolding key_eq key_lt
  kv_set k v [] = (k, v) ∷ []
  kv_set k v ((l, w) ∷ store) =
      let rest = kv_set k v store in
      if key_eq k l
      then (l, v) ∷ store
      else if key_lt k l
      then (k, v) ∷ (l, w) ∷ store
      else (l, w) ∷ rest

  unfoldable pub kv_delete : Key → List (Key × Item A) → List (Key × Item A)
  unfolding key_eq
  kv_delete k [] = []
  kv_delete k ((l, w) ∷ store) =
      let rest = kv_delete k store in if key_eq k l then rest else (l, w) ∷ rest

  -- `enqueue`.
  unfoldable pub enqueue : String → A → ℕ → List (Key × Item A) → List (Key × Item A)
  unfolding kv_set
  enqueue id item now store =
      kv_set (id ∷ []) (record { item = item; attempts = 0; timestamp = now }) store

  -- `handleFailure`.
  unfoldable pub handle_failure : Key → A → ℕ → ℕ → ℕ → List (Key × Item A) → List (Key × Item A)
  unfolding kv_set kv_delete dlq_key
  handle_failure k item attempts max_attempts now store =
      let failed : Item A = record { item = item; attempts = attempts; timestamp = now } in
      if leb max_attempts attempts
      then kv_set (dlq_key k) failed (kv_delete k store)
      else kv_set k failed store

  -- The body of the loop, for the handler's answer: a Boolean, or an exception.
  unfoldable pub settle_item :
      Option Bool → Key × Item A → ℕ → ℕ → List (Key × Item A) → List (Key × Item A)
  unfolding handle_failure kv_delete
  settle_item (some true) (k, e) max_attempts now store = kv_delete k store
  settle_item (some false) (k, e) max_attempts now store =
      handle_failure k e.item (e.attempts + 1) max_attempts now store
  settle_item none (k, e) max_attempts now store =
      handle_failure k e.item (e.attempts + 1) max_attempts now store

  unfoldable pub each_item :
      (ℕ → A → Option Bool)
      → ℕ
      → List (Key × Item A)
      → ℕ
      → ℕ
      → List (Key × Item A)
      → List (Key × Item A)
  unfolding settle_item
  each_item handler n [] max_attempts now store = store
  each_item handler n (e ∷ batch) max_attempts now store =
      each_item handler (n + 1) batch max_attempts now
        (settle_item (handler n e.1.item) e max_attempts now store)

  -- `process`, unless another run is under way.
  unfoldable pub process :
      Bool → (ℕ → A → Option Bool) → ℕ → ℕ → ℕ → List (Key × Item A) → List (Key × Item A)
  unfolding each_item
  process is_processing handler max_attempts batch_size now store =
      if is_processing
      then store
      else each_item handler 0 (take batch_size store) max_attempts now store
