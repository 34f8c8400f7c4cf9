-- ===== src/Merkle/Tests.antt =====
-- The Merkle tree at concrete leaves.
use text.Mathlib.TextEquality.{eq_iff}
use Prim.Native.String.{String}
use Prim.Native.String.{count}
use counter_terrorist.Common.{
  Bool-cases, [], ap, arith, if◌then◌else◌, inl, inr, refl, string_eq, true, ◌===◌, ◌∷◌, ◌≡◌, ◌≢◌,
  ◌⊎◌,
}
use counter_terrorist.Merkle.{
  add_leaf, array_store, at, build_tree, climb, get_proof, get_root, grow, is_empty, levels,
  pair_up, parent, proof_from, replace_leaves, sibling, verify, verify_from,
}
use counter_terrorist.Merkle.Growth.{add_leaf-build_tree}
use counter_terrorist.Merkle.Inclusion.{verify-get_proof}
use counter_terrorist.Merkle.Soundness.{verify_sound, CollisionIn, path_texts}

-- A hash function of width 1.
abbrev toy : String → String
toy t = if t === "ab" then "p" else "q"

program : Unit {0}
unfolding get_root sibling proof_from get_proof pair_up levels build_tree parent climb grow is_empty
    replace_leaves add_leaf verify_from verify array_store
program = tt

built :
    (build_tree toy ("a" ∷ "b" ∷ "c" ∷ [])).tree
    ≡ ("a" ∷ "b" ∷ "c" ∷ []) ∷ ("p" ∷ "q" ∷ []) ∷ ("q" ∷ []) ∷ []
unfolding program
built = refl

toy-width : (t : String) → count (toy t) ≡ 1
toy-width t = elim (Bool-cases (t === "ab")) [ inl e ↦ rw e refl | inr e ↦ rw e refl ]

toy-ne-empty : (t : String) → toy t ≢ ""
toy-ne-empty t p = absurd (omega (arith, toy-width t, ap count p))

add_leaf-build_tree_example :
    (add_leaf toy (build_tree toy []) "c" ≡ (build_tree toy ("c" ∷ []), "c"))
    × (add_leaf toy (build_tree toy ("a" ∷ "b" ∷ [])) "c"
        ≡ (build_tree toy ("a" ∷ "b" ∷ "c" ∷ []), get_root (build_tree toy ("a" ∷ "b" ∷ "c" ∷ []))))
add_leaf-build_tree_example =
    add_leaf-build_tree toy "a" ("b" ∷ []) "c" (ground (arith, eq_iff "a" "EMPTY"))

verify-get_proof_example :
    verify toy
      (get_root (build_tree toy ("a" ∷ "b" ∷ "c" ∷ [])))
      "b"
      1
      (get_proof (build_tree toy ("a" ∷ "b" ∷ "c" ∷ [])) 1)
    ≡ true
verify-get_proof_example =
    verify-get_proof toy "a" ("b" ∷ "c" ∷ []) 1 toy-ne-empty
      (
        ground (arith, eq_iff "a" ""),
        (ground (arith, eq_iff "b" ""), (ground (arith, eq_iff "c" ""), tt)),
      )
      (omega arith)

verify_sound_example :
    ("b" ≡ at ("a" ∷ "b" ∷ "c" ∷ []) 1)
    ⊎ CollisionIn toy 1
        (path_texts toy 1 "b" 1 ("a" ∷ "q" ∷ []))
        (path_texts toy 1 "b" 1 (get_proof (build_tree toy ("a" ∷ "b" ∷ "c" ∷ [])) 1))
unfolding program
verify_sound_example =
    verify_sound toy 1 "a" ("b" ∷ "c" ∷ []) 1 "b" ("a" ∷ "q" ∷ []) (omega arith) toy-width
      (refl, (refl, (refl, tt))) (omega arith) refl (refl, (refl, tt)) refl refl
