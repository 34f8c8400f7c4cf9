-- ===== src/Queue/Bounds.antt =====
-- The attempts of the messages that are not dead letters.
use mathlib.Core.Path.{ap₂}
use Prim.Native.String.{String}
use counter_terrorist.Common.{
  All, Bool, Bool-cases, List, Option, [], arith, false, inl, inr, leb, none, refl, some, string_eq,
  take, true, ℕ, ◌+◌, ◌<◌, ◌===◌, ◌∷◌, ◌≡◌, ◌≤◌, ◌⊎◌,
}
use counter_terrorist.Queue.{
  Item, Key, dlq_key, each_item, enqueue, handle_failure, key_eq, key_lt, kv_delete, kv_set,
  last_part, process, settle_item,
}

dlq_again : (k : Key) → dlq_key k ≡ dlq_key (dlq_key k)
unfolding dlq_key last_part
dlq_again k = refl

key_eq→eq : (k l : Key) → key_eq k l ≡ true → k ≡ l
unfolding key_eq
key_eq→eq [] [] h = refl
key_eq→eq [] (_ ∷ _) h = absurd (cc)
key_eq→eq (_ ∷ _) [] h = absurd (cc)
key_eq→eq (a ∷ k) (b ∷ l) h =
    let (same, rest) : ((a === b) ≡ true) × (key_eq k l ≡ true) = ground arith in
    ap₂ (λ x y. x ∷ y) ((string_eq.same_iff a b).0 same) (key_eq→eq k l rest)

module _ {A : Type 0} (max_attempts : ℕ) where
  -- Below the bound, unless it is a dead letter.
  abbrev pub IsBounded : Key × Item A → Type 0
  IsBounded e = (e.0 ≡ dlq_key e.0) ⊎ (e.1.attempts < max_attempts)

  abbrev pub AllBounded : List (Key × Item A) → Type 0
  AllBounded store = All IsBounded store

  kv_set-AllBounded :
      (k : Key) (v : Item A) (store : List (Key × Item A))
      → IsBounded (k, v)
      → AllBounded store
      → AllBounded (kv_set k v store)
  unfolding kv_set
  kv_set-AllBounded k v [] b h = (b, tt)
  kv_set-AllBounded k v ((l, w) ∷ store) b (first, h) = elim (Bool-cases (key_eq k l)) [
    | inl same ↦ rw same (rw (key_eq→eq k l same) at b, h)
    | inr other ↦ rw other (elim (Bool-cases (key_lt k l)) [
      | inl before ↦ rw before (b, (first, h))
      | inr after ↦ rw after (first, kv_set-AllBounded k v store b h)
    ])
  ]

  kv_delete-AllBounded :
      (k : Key) (store : List (Key × Item A)) → AllBounded store → AllBounded (kv_delete k store)
  unfolding kv_delete
  kv_delete-AllBounded k [] h = tt
  kv_delete-AllBounded k ((l, w) ∷ store) (first, h) = elim (Bool-cases (key_eq k l)) [
    | inl same ↦ rw same (kv_delete-AllBounded k store h)
    | inr other ↦ rw other (first, kv_delete-AllBounded k store h)
  ]

  handle_failure-AllBounded :
      (k : Key) (a : A) (n now : ℕ) (store : List (Key × Item A))
      → AllBounded store
      → AllBounded (handle_failure k a n max_attempts now store)
  unfolding handle_failure
  handle_failure-AllBounded k a n now store h = elim (Bool-cases (leb max_attempts n)) [
    | inl e ↦
        rw e
          (kv_set-AllBounded (dlq_key k) _ _ (inl (dlq_again k)) (kv_delete-AllBounded k store h))
    | inr e ↦ rw e (kv_set-AllBounded k _ store (inr (ground arith)) h)
  ]

  settle-AllBounded :
      (answer : Option Bool) (e : Key × Item A) (now : ℕ) (store : List (Key × Item A))
      → AllBounded store
      → AllBounded (settle_item answer e max_attempts now store)
  unfolding settle_item
  settle-AllBounded (some true) (k, e) now store h = kv_delete-AllBounded k store h
  settle-AllBounded (some false) (k, e) now store h =
      handle_failure-AllBounded k e.item _ now store h
  settle-AllBounded none (k, e) now store h = handle_failure-AllBounded k e.item _ now store h

  each-AllBounded :
      (handler : ℕ → A → Option Bool) (n : ℕ) (batch : List (Key × Item A)) (now : ℕ)
      (store : List (Key × Item A))
      → AllBounded store
      → AllBounded (each_item handler n batch max_attempts now store)
  unfolding each_item
  each-AllBounded handler n [] now store h = h
  each-AllBounded handler n (e ∷ batch) now store h =
      each-AllBounded handler (n + 1) batch now _
        (settle-AllBounded (handler n e.1.item) e now store h)

  -- The stores that enqueuing and processing make of the empty one.
  pub data Reach : List (Key × Item A) → Type 0 where
    start : Reach []
    enqueued :
        {store : List (Key × Item A)} (id : String) (a : A) (now : ℕ)
        → Reach store
        → Reach (enqueue id a now store)
    processed :
        {store : List (Key × Item A)} (busy : Bool) (handler : ℕ → A → Option Bool)
        (batch_size now : ℕ)
        → Reach store
        → Reach (process busy handler max_attempts batch_size now store)

  -- Whatever the handler answers, and whatever was enqueued and processed before, each stored message
  -- has been tried less often than `maxAttempts` or stands under a dead letter key.
  pub Reach-AllBounded :
      {store : List (Key × Item A)} → 1 ≤ max_attempts → Reach store → AllBounded store
  unfolding enqueue process
  Reach-AllBounded one start = tt
  Reach-AllBounded one (enqueued {store} id a now prior) =
      kv_set-AllBounded (id ∷ []) _ store (inr one) (Reach-AllBounded one prior)
  Reach-AllBounded one (processed {store} true handler batch_size now prior) =
      Reach-AllBounded one prior
  Reach-AllBounded one (processed {store} false handler batch_size now prior) =
      each-AllBounded handler 0 (take batch_size store) now store (Reach-AllBounded one prior)
