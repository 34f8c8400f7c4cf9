-- ===== src/Timeline/Writes.antt =====
-- `setMany` writes its items one after another, whatever the chunks.
use counter_terrorist.Common.{
  Bool, List, [], ap, arith, drop, false, if_true, length, length-append, ok, refl, some, string_eq,
  suc, sym, take, take-drop, true, zero, ℕ, ◌%◌, ◌++◌, ◌+◌, ◌<◌, ◌^◌, ◌∙◌, ◌∷◌, ◌≡◌, ◌≤◌,
}
use counter_terrorist.Timeline.{
  Entry, Timeline, put, put_all, add_count, commit_chunk, set_chunks, set_many,
}

length-drop_le {ℓ} : {A : Type ℓ} (n : ℕ) (xs : List A) → length (drop n xs) ≤ length xs
length-drop_le zero xs = omega arith
length-drop_le (suc n) [] = omega arith
length-drop_le (suc n) (x ∷ xs) = omega (arith, length-drop_le n xs)

-- The statistics wrap once for all chunks as for each of them.
wrap_twice : (c a b : ℕ) → ((c + a) % 2 ^ 64 + b) % 2 ^ 64 ≡ (c + (a + b)) % 2 ^ 64
wrap_twice c a b = omega arith

module _ {A : Type 0} where
  put_all-append : (es fs xs : List (Entry A)) → put_all (es ++ fs) xs ≡ put_all fs (put_all es xs)
  unfolding put_all
  put_all-append [] fs xs = refl
  put_all-append (e ∷ es) fs xs = put_all-append es fs (put e xs)

  -- What the committed chunks have made, with a count that was there.
  abbrev Written : List (Entry A) → ℕ → Timeline A → Timeline A
  Written es c t = record {
    entries = put_all es t.entries;
    events_count = some ((c + length es) % 2 ^ 64);
  }

  chunks_written :
      (es fs : List (Entry A)) (c : ℕ) (t : Timeline A)
      → Written fs ((c + length es) % 2 ^ 64) (Written es c t) ≡ Written (es ++ fs) c t
  chunks_written es fs c t =
      let entries = put_all-append es fs t.entries in
      let counted =
        wrap_twice c (length es) (length fs)
        ∙ ap (λ n. (c + n) % 2 ^ 64) (sym (length-append es fs)) in
      rw entries (
        ap (λ n. record { entries = put_all fs (put_all es t.entries); events_count = some n })
          counted)

  commit_chunk-Written :
      (es : List (Entry A)) (c : ℕ) (t : Timeline A)
      → t.events_count ≡ some c
      → commit_chunk es t ≡ Written es c t
  unfolding commit_chunk add_count
  commit_chunk-Written es c t counted = rw counted refl

  nothing_written :
      (c : ℕ) (t : Timeline A) → t.events_count ≡ some c → c < 2 ^ 64 → t ≡ Written [] c t
  unfolding put_all
  nothing_written c t counted low =
      let same : c ≡ (c + 0) % 2 ^ 64 = omega (arith, low) in
      ap (λ n. record { entries = t.entries; events_count = n }) (counted ∙ ap some same)

  set_chunks-Written :
      (fuel : ℕ) (commits : ℕ → Bool) (i c : ℕ) (es : List (Entry A)) (t : Timeline A)
      → length es ≤ fuel
      → ((j : ℕ) → commits j ≡ true)
      → t.events_count ≡ some c
      → c < 2 ^ 64
      → set_chunks fuel commits i es t ≡ (Written es c t, true)
  unfolding set_chunks
  set_chunks-Written zero commits i c [] t enough all_commit counted low =
      ap (λ u. (u, true)) (nothing_written c t counted low)
  set_chunks-Written zero commits i c (e ∷ es) t enough all_commit counted low =
      absurd (omega arith)
  set_chunks-Written (suc fuel) commits i c [] t enough all_commit counted low =
      ap (λ u. (u, true)) (nothing_written c t counted low)
  set_chunks-Written (suc fuel) commits i c (e ∷ es) t enough all_commit counted low =
      let chunk = take 100 (e ∷ es) in
      let left = drop 100 (e ∷ es) in
      let written = Written chunk c t in
      let next =
        set_chunks-Written fuel commits (i + 1) ((c + length chunk) % 2 ^ 64) left written
          (omega (arith, length-drop_le 99 es, enough)) all_commit refl (omega arith) in
      let joined = chunks_written chunk left c t in
      let whole = take-drop 100 (e ∷ es) in
      if_true (commits i) (set_chunks fuel commits (i + 1) left (commit_chunk chunk t)) (t, false)
        (all_commit i)
      ∙ (ap (λ u. set_chunks fuel commits (i + 1) left u) (commit_chunk-Written chunk c t counted)
          ∙ (next ∙ ap (λ u. (u, true)) (joined ∙ ap (λ l. Written l c t) whole)))

  -- Of a repository that may be written, whose commits succeed and that has a count of its events already,
  -- below 2^64, `setMany` returns, and is the writes of its items one after another: the chunks of a
  -- hundred leave no trace, and the count has grown by the number of the items, modulo 2^64.
  pub set_many-put_all :
      (commits : ℕ → Bool) (c : ℕ) (es : List (Entry A)) (t : Timeline A)
      → ((j : ℕ) → commits j ≡ true)
      → t.events_count ≡ some c
      → c < 2 ^ 64
      → set_many true commits es t ≡ (
        record { entries = put_all es t.entries; events_count = some ((c + length es) % 2 ^ 64) },
        ok tt,
      )
  unfolding set_many
  set_many-put_all commits c [] t all_commit counted low =
      ap (λ u. (u, ok tt)) (nothing_written c t counted low)
  set_many-put_all commits c (e ∷ es) t all_commit counted low =
      rw
        (set_chunks-Written (length (e ∷ es)) commits 0 c (e ∷ es) t (omega arith) all_commit
          counted low)
        refl
