-- ===== src/Timeline/Order.antt =====
-- The entries of a timeline are in the order of their times.
use counter_terrorist.Common.{
  All, All-mono, Bool, Bool-cases, List, [], arith, false, inl, inr, ltb, string_eq, true, ℕ, ◌&&◌,
  ◌==◌, ◌||◌, ◌∷◌, ◌≡◌, ◌≤◌,
}
use counter_terrorist.Timeline.{Entry, key_before, same_key, put}

before_le : (a b : ℕ) (q : Bool) → (ltb a b || (a == b && q)) ≡ true → a ≤ b
before_le a b q h = ground arith

not_before_le : (a b : ℕ) (q : Bool) → (ltb a b || (a == b && q)) ≡ false → b ≤ a
not_before_le a b q h = ground arith

same_le : (a b : ℕ) (q : Bool) → (a == b && q) ≡ true → b ≤ a
same_le a b q h = ground arith

module _ {A : Type 0} where
  abbrev IsNotBefore : ℕ → Entry A → Type 0
  IsNotBefore time e = time ≤ e.timestamp

  -- Each entry is no later than those after it.
  abbrev pub IsAscending : List (Entry A) → Type 0
  IsAscending [] = Unit
  IsAscending (e ∷ es) = All (IsNotBefore e.timestamp) es × IsAscending es

  IsNotBefore-mono :
      (a b : ℕ) (es : List (Entry A)) → a ≤ b → All (IsNotBefore b) es → All (IsNotBefore a) es
  IsNotBefore-mono a b es low h =
      All-mono (IsNotBefore b) (IsNotBefore a) (λ e p. omega (arith, low, p)) es h

  put-IsNotBefore :
      (time : ℕ) (e : Entry A) (es : List (Entry A))
      → time ≤ e.timestamp
      → All (IsNotBefore time) es
      → All (IsNotBefore time) (put e es)
  unfolding put
  put-IsNotBefore time e [] low all_low = (low, tt)
  put-IsNotBefore time e (x ∷ xs) low (here, all_low) = elim (Bool-cases (same_key x e)) [
    | inl same ↦ rw same (low, all_low)
    | inr other ↦ elim (Bool-cases (key_before x e)) [
      | inl before ↦ rw (other, before) (here, put-IsNotBefore time e xs low all_low)
      | inr after ↦ rw (other, after) (low, (here, all_low))
    ]
  ]

  -- A write keeps the entries in the order of their times.
  pub put-IsAscending :
      (e : Entry A) (es : List (Entry A)) → IsAscending es → IsAscending (put e es)
  unfolding put
  put-IsAscending e [] h = (tt, tt)
  put-IsAscending e (x ∷ xs) (low, h) = elim (Bool-cases (same_key x e)) [
    | inl same ↦ rw same (IsNotBefore-mono e.timestamp x.timestamp xs (same_time same) low, h)
    | inr other ↦ elim (Bool-cases (key_before x e)) [
      | inl before ↦
          rw (other, before)
            (put-IsNotBefore x.timestamp e xs (earlier before) low, put-IsAscending e xs h)
      | inr after ↦
          rw (other, after)
            ((later after, IsNotBefore-mono e.timestamp x.timestamp xs (later after) low), (low, h))
    ]
  ]
    where
      same_time : same_key x e ≡ true → e.timestamp ≤ x.timestamp
      same_time h = same_le x.timestamp e.timestamp _ h

      earlier : key_before x e ≡ true → x.timestamp ≤ e.timestamp
      earlier h = before_le x.timestamp e.timestamp _ h

      later : key_before x e ≡ false → e.timestamp ≤ x.timestamp
      later h = not_before_le x.timestamp e.timestamp _ h
