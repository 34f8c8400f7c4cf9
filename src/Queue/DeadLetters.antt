-- ===== src/Queue/DeadLetters.antt =====
-- A message that the handler never accepts.
use native.Mathlib.Nat.{add-zero}
use Prim.Native.String.{String}
use counter_terrorist.Common.{
  ===_refl, Bool, Bool-cases, List, Option, [], arith, false, if◌then◌else◌, inl, inr, leb, length,
  none, refl, some, string_eq, suc, take-nil, true, zero, ℕ, ◌+◌, ◌∙◌, ◌∷◌, ◌≡◌, ◌≢◌, ◌≤◌,
}
use counter_terrorist.Queue.{
  Item, Key, dlq_key, each_item, enqueue, handle_failure, key_eq, kv_delete, kv_set, last_part,
  process, settle_item,
}

-- Where the message is after that many attempts.
abbrev pub place : String → ℕ → ℕ → Key
place id max_attempts attempts = if leb max_attempts attempts then "dlq" ∷ id ∷ [] else id ∷ []

abbrev pub last_time : ℕ → List ℕ → ℕ
last_time now [] = now
last_time now (t ∷ times) = last_time t times

key_eq_refl : (k : Key) → key_eq k k ≡ true
unfolding key_eq
key_eq_refl [] = refl
key_eq_refl (s ∷ k) = rw (===_refl s) (key_eq_refl k)

dlq_key-place :
    (id : String) (max_attempts attempts : ℕ)
    → dlq_key (place id max_attempts attempts) ≡ "dlq" ∷ id ∷ []
unfolding dlq_key last_part
dlq_key-place id max_attempts attempts = elim (Bool-cases (leb max_attempts attempts)) [
  | inl e ↦ rw e refl
  | inr e ↦ rw e refl
]

module _ {A : Type 0} where
  -- Some runs after one another, at these times.
  unfoldable pub runs :
      (ℕ → A → Option Bool) → ℕ → ℕ → List ℕ → List (Key × Item A) → List (Key × Item A)
  runs handler max_attempts batch_size [] store = store
  runs handler max_attempts batch_size (now ∷ times) store =
      runs handler max_attempts batch_size times
        (process false handler max_attempts batch_size now store)

  -- A store with one message.
  abbrev pub alone : Key → A → ℕ → ℕ → List (Key × Item A)
  alone k a attempts time = (k, record { item = a; attempts = attempts; timestamp = time }) ∷ []

  dead_alone :
      (k : Key) (a : A) (n max_attempts now attempts time : ℕ)
      → leb max_attempts n ≡ true
      → handle_failure k a n max_attempts now (alone k a attempts time) ≡ alone (dlq_key k) a n now
  unfolding handle_failure kv_delete kv_set
  dead_alone k a n max_attempts now attempts time e = rw e (rw (key_eq_refl k) refl)

  kept_alone :
      (k : Key) (a : A) (n max_attempts now attempts time : ℕ)
      → leb max_attempts n ≡ false
      → handle_failure k a n max_attempts now (alone k a attempts time) ≡ alone k a n now
  unfolding handle_failure kv_set
  kept_alone k a n max_attempts now attempts time e = rw e (rw (key_eq_refl k) refl)

  settle_failed :
      (answer : Option Bool) (k : Key) (e : Item A) (max_attempts now : ℕ)
      (store : List (Key × Item A))
      → answer ≢ some true
      → settle_item answer (k, e) max_attempts now store
        ≡ handle_failure k e.item (e.attempts + 1) max_attempts now store
  unfolding settle_item
  settle_failed none k e max_attempts now store h = refl
  settle_failed (some false) k e max_attempts now store h = refl
  settle_failed (some true) k e max_attempts now store h = absurd (h refl)

  fail_alone :
      (id : String) (a : A) (max_attempts now attempts time : ℕ)
      → handle_failure
          (place id max_attempts attempts)
          a
          (attempts + 1)
          max_attempts
          now
          (alone (place id max_attempts attempts) a attempts time)
        ≡ alone (place id max_attempts (attempts + 1)) a (attempts + 1) now
  fail_alone id a max_attempts now attempts time =
      elim (Bool-cases (leb max_attempts (attempts + 1))) [
        | inl e ↦
            rw
              (dead_alone (place id max_attempts attempts) a (attempts + 1) max_attempts now
                attempts time e)
              (rw (dlq_key-place id max_attempts attempts) (rw e refl))
        | inr e ↦
            let before : leb max_attempts attempts ≡ false = ground arith in
            rw
              (kept_alone (place id max_attempts attempts) a (attempts + 1) max_attempts now
                attempts time e)
              (rw before (rw e refl))
      ]

  -- One run with the message alone.
  run_alone :
      (handler : ℕ → A → Option Bool) (max_attempts batch_size now : ℕ) (id : String) (a : A)
      (attempts time : ℕ)
      → handler 0 a ≢ some true
      → 1 ≤ batch_size
      → process false handler max_attempts batch_size now
          (alone (place id max_attempts attempts) a attempts time)
        ≡ alone (place id max_attempts (attempts + 1)) a (attempts + 1) now
  unfolding process each_item
  run_alone handler max_attempts zero now id a attempts time never one = elim one [ ]
  run_alone handler max_attempts (suc b) now id a attempts time never one =
      rw (take-nil {A = Key × Item A} b) (
        settle_failed (handler 0 a) (place id max_attempts attempts)
          (record { item = a; attempts = attempts; timestamp = time }) max_attempts now
          (alone (place id max_attempts attempts) a attempts time) never
        ∙ fail_alone id a max_attempts now attempts time)

  runs-alone :
      (handler : ℕ → A → Option Bool) (max_attempts batch_size : ℕ) (times : List ℕ) (id : String)
      (a : A) (attempts time : ℕ)
      → handler 0 a ≢ some true
      → 1 ≤ batch_size
      → runs handler max_attempts batch_size times
          (alone (place id max_attempts attempts) a attempts time)
        ≡ alone
            (place id max_attempts (attempts + length times))
            a
            (attempts + length times)
            (last_time time times)
  unfolding runs
  runs-alone handler max_attempts batch_size [] id a attempts time never one =
      rw (add-zero attempts) refl
  runs-alone handler max_attempts batch_size (now ∷ times) id a attempts time never one =
      let shift : attempts + 1 + length times ≡ attempts + length (now ∷ times) = omega arith in
      rw (run_alone handler max_attempts batch_size now id a attempts time never one) (
        rw (← shift)
          (runs-alone handler max_attempts batch_size times id a (attempts + 1) now never one))

  -- A message alone in the queue that the handler does not accept is handed to the handler in every
  -- run, also after it has become a dead letter: after any number of runs its attempts are that
  -- number, under its own key below `maxAttempts`, from there on under the dead letter key. This for a
  -- batch of at least one entry and at least one attempt.
  pub runs-enqueue :
      (handler : ℕ → A → Option Bool) (max_attempts batch_size : ℕ) (times : List ℕ) (id : String)
      (a : A) (now : ℕ)
      → handler 0 a ≢ some true
      → 1 ≤ batch_size
      → 1 ≤ max_attempts
      → runs handler max_attempts batch_size times (enqueue id a now [])
        ≡ alone (place id max_attempts (length times)) a (length times) (last_time now times)
  unfolding enqueue kv_set
  runs-enqueue handler max_attempts batch_size times id a now never one some_attempts =
      let first : leb max_attempts 0 ≡ false = ground arith in
      let begins : place id max_attempts 0 ≡ id ∷ [] = rw first refl in
      let count : 0 + length times ≡ length times = omega arith in
      rw (begins, count) at (runs-alone handler max_attempts batch_size times id a 0 now never one)
