-- ===== src/Repository/Writes.antt =====
-- When a write succeeds.
use Prim.Native.String.{String}
use counter_terrorist.Common.{
  List, Map, [], arith, err, false, length, map_set, ok, refl, suc, take, true, zero, ℕ, ◌<◌, ◌∷◌,
  ◌≡◌, ◌≢◌, ◌≤◌,
}
use counter_terrorist.Repository.{Store, denied, is_permitted, kv_set, write, write_attempts}

module _ {A : Type 0} where
  -- The entries after these other writes.
  abbrev pub last_entries : List (Map A) → Map A → Map A
  last_entries [] m = m
  last_entries (other ∷ others) m = last_entries others other

  attempts_enough :
      (left : ℕ) (others : List (Map A)) (failure : String) (change : Map A → Map A) (m : Map A)
      → length others < left
      → write_attempts left others failure change m ≡ (change (last_entries others m), ok tt)
  unfolding write_attempts
  attempts_enough zero others failure change m h = absurd (omega (arith, h))
  attempts_enough (suc left) [] failure change m h = refl
  attempts_enough (suc left) (other ∷ others) failure change m h =
      attempts_enough left others failure change other (omega (arith, h))

  attempts_short :
      (left : ℕ) (others : List (Map A)) (failure : String) (change : Map A → Map A) (m : Map A)
      → left ≤ length others
      → write_attempts left others failure change m
        ≡ (last_entries (take left others) m, err failure)
  unfolding write_attempts
  attempts_short zero others failure change m h = refl
  attempts_short (suc left) [] failure change m h = absurd (omega (arith, h))
  attempts_short (suc left) (other ∷ others) failure change m h =
      attempts_short left others failure change other (omega (arith, h))

  -- A write that is permitted is applied to the entries that the other writers left, if they come
  -- between at most four times; the fifth time it fails and changes nothing of theirs. In the
  -- restricted mode a write fails at once, except of audit events and incidents.
  pub kv_set-outcomes :
      (others : List (Map A)) (id : String) (a : A) (s : Store A)
      → (is_permitted s.is_read_only s.prefix ≡ true
          → length others < 5
          → kv_set others id a s
            ≡ (record s { entries = map_set id a (last_entries others s.entries) }, ok tt))
        × (is_permitted s.is_read_only s.prefix ≡ true
            → 5 ≤ length others
            → ((kv_set others id a s).0
                ≡ record s { entries = last_entries (take 5 others) s.entries })
              × (kv_set others id a s).1 ≢ ok tt)
        × (is_permitted s.is_read_only s.prefix ≡ false
            → kv_set others id a s ≡ (s, err (denied s.prefix)))
  unfolding kv_set write
  kv_set-outcomes others id a s = (
    (λ p few. rw p (rw (attempts_enough 5 others _ (map_set id a) s.entries few) refl)),
    (λ p many.
        rw p
          (rw (attempts_short 5 others _ (map_set id a) s.entries many) (refl, λ e. absurd (cc)))),
    λ p. rw p refl,
  )
