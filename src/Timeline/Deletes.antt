-- ===== src/Timeline/Deletes.antt =====
-- `deleteBefore` never deletes: the negative number for its statistics is refused.
use Prim.Native.String.{String}
use counter_terrorist.Common.{
  Bool, List, Result, [], err, false, leb, length, ok, refl, string_eq, true, ℕ, ◌++◌, ◌+◌, ◌∷◌,
  ◌≡◌,
}
use counter_terrorist.Timeline.{
  Entry, Timeline, commit_deletes, delete_loop, negative_u64, delete_before, in_range,
}

module _ {A : Type 0} where
  commit_deletes-err :
      (e : Entry A) (batch : List (Entry A)) (t : Timeline A)
      → commit_deletes (batch ++ e ∷ []) t ≡ err "RangeError"
  unfolding commit_deletes negative_u64
  commit_deletes-err e [] t = refl
  commit_deletes-err e (b ∷ batch) t = refl

  delete_loop-err :
      (es batch : List (Entry A)) (e : Entry A) (deleted : ℕ) (t : Timeline A)
      → delete_loop es (batch ++ e ∷ []) deleted t ≡ (t, err "RangeError")
  unfolding delete_loop commit_deletes negative_u64
  delete_loop-err [] [] e deleted t = refl
  delete_loop-err [] (b ∷ batch) e deleted t = refl
  delete_loop-err (x ∷ es) batch e deleted t =
      either (leb 100 (length ((batch ++ e ∷ []) ++ x ∷ [])))
        (commit_deletes ((batch ++ e ∷ []) ++ x ∷ []) t) (commit_deletes-err x (batch ++ e ∷ []) t)
        (delete_loop-err es (batch ++ e ∷ []) x (deleted + 1) t)
    where
      either :
          (b : Bool) (r : Result (Timeline A) String)
          → r ≡ err "RangeError"
          → delete_loop es ((batch ++ e ∷ []) ++ x ∷ []) (deleted + 1) t ≡ (t, err "RangeError")
          → ◌≡◌ {A = Timeline A × Result ℕ String}
              (elim b [
                | true ↦ elim r [
                  | ok next ↦ delete_loop es [] (deleted + 1) next
                  | err x ↦ (t, err x)
                ]
                | false ↦ delete_loop es ((batch ++ e ∷ []) ++ x ∷ []) (deleted + 1) t
              ])
              (t, err "RangeError")
      either true r refused rest = rw refused refl
      either false r refused rest = rest

  loop_outcome :
      (es : List (Entry A)) (t : Timeline A)
      → delete_loop es [] 0 t ≡ (elim es [ [] ↦ (t, ok 0) | e ∷ rest ↦ (t, err "RangeError") ])
  unfolding delete_loop
  loop_outcome [] t = refl
  loop_outcome (e ∷ es) t = delete_loop-err es [] e 1 t

  -- Of a repository that may be written, `deleteBefore` returns, with nothing deleted, exactly where no
  -- entry is older than the time; where there is one it throws. In both cases the store is as it was.
  pub delete_before-outcome :
      (timestamp : ℕ) (t : Timeline A)
      → delete_before true timestamp t ≡ (elim (in_range 0 timestamp t.entries) [
        | [] ↦ (t, ok 0)
        | e ∷ rest ↦ (t, err "RangeError")
      ])
  unfolding delete_before
  delete_before-outcome timestamp t = loop_outcome (in_range 0 timestamp t.entries) t
