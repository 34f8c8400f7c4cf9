-- ===== src/Merkle.antt =====
-- src/orchestrator/core/merkle.ts: the class `MerkleTree`. A method returns the new object beside its
-- result; the platform's SHA-256, as hexadecimal text, is the parameter `sha256_hex`.
mod Levels
pub mod Growth
pub mod Inclusion
pub mod Soundness
pub mod Size
mod Tests
use Prim.Native.String
use Prim.Native.String.{String}
use counter_terrorist.Common.{
  Bool, List, [], get_or, if◌then◌else◌, length, ltb, string_eq, suc, true, zero, ℕ, ◌%◌, ◌++◌, ◌+◌,
  ◌-◌, ◌/◌, ◌===◌, ◌==◌, ◌∷◌,
}

pub record MerkleTree : Type 0 where
  pub leaves : List String
  pub tree : List (List String)

-- `level[i]` where it is concatenated or pushed: past the end it is `undefined`, and
-- `undefined + s` spells the word out.
abbrev pub at : List String → ℕ → String
at level i = get_or level i "undefined"

-- `level[i] = v`: a write at the end extends the array, one further out leaves holes.
pub array_store : List String → ℕ → String → List String
array_store [] zero v = v ∷ []
array_store [] (suc i) v = "undefined" ∷ array_store [] i v
array_store (x ∷ xs) zero v = v ∷ xs
array_store (x ∷ xs) (suc i) v = x ∷ array_store xs i v

-- `s || "EMPTY"`.
abbrev pub or_empty : String → String
or_empty s = if s === "" then "EMPTY" else s

-- `tree[tree.length - 1][0]`; the text of an absent entry is falsy.
abbrev pub last_head : List (List String) → String
last_head [] = ""
last_head (level ∷ []) = get_or level 0 ""
last_head (level ∷ next ∷ rest) = last_head (next ∷ rest)

-- `getRoot`.
unfoldable pub get_root : MerkleTree → String
get_root t = or_empty (last_head t.tree)

unfoldable pub is_odd : ℕ → Bool
is_odd i = i % 2 == 1

-- The sibling that `getProof` pushes for one level.
unfoldable pub sibling : List String → ℕ → String
unfolding is_odd
sibling level i =
    let j = if is_odd i then i - 1 else i + 1 in
    if ltb j (length level) then at level j else at level i

unfoldable pub proof_from : List (List String) → ℕ → List String
proof_from [] i = []
proof_from (level ∷ []) i = []
proof_from (level ∷ next ∷ rest) i = sibling level i ∷ proof_from (next ∷ rest) (i / 2)

-- `getProof`.
unfoldable pub get_proof : MerkleTree → ℕ → List String
get_proof t i = proof_from t.tree i

module _ (sha256_hex : String → String) where
  -- `hashPair`.
  unfoldable pub hash_pair : String → String → String
  hash_pair a b = sha256_hex (String.◌++◌ a b)

  -- One round of the `while` loop of `buildTree`: the `for` loop that makes `nextLevel`.
  unfoldable pub pair_up : List String → List String
  unfolding hash_pair
  pair_up [] = []
  pair_up (x ∷ []) = hash_pair x x ∷ []
  pair_up (x ∷ y ∷ rest) = hash_pair x y ∷ pair_up rest

  -- `currentLevel` and the levels that the `while` loop pushes above it. A round at least halves a
  -- level that has two entries or more, so as many rounds as there are leaves are enough.
  unfoldable pub levels : ℕ → List String → List (List String)
  levels zero level = level ∷ []
  levels (suc fuel) level =
      let above = levels fuel (pair_up level) in
      if ltb 1 (length level) then level ∷ above else level ∷ []

  -- `constructor` and `buildTree`.
  unfoldable pub build_tree : List String → MerkleTree
  build_tree [] = record { leaves = []; tree = ("EMPTY" ∷ []) ∷ [] }
  build_tree (x ∷ xs) = record { leaves = x ∷ xs; tree = levels (length (x ∷ xs)) (x ∷ xs) }

  -- The parent of the entry at `i`, as one round of the loop of `addLeaf` computes it.
  pub parent : List String → ℕ → String → String
  unfolding is_odd hash_pair
  parent level i current =
      let left = if is_odd i then at level (i - 1) else current in
      let right = if is_odd i then current else left in hash_pair left right

  -- The loop of `addLeaf` over the levels below the root level: it overwrites, in the next level,
  -- the parent of the entry that changed.
  climb : List (List String) → ℕ → String → List (List String)
  unfolding parent array_store
  climb [] i current = []
  climb (level ∷ []) i current = level ∷ []
  climb (level ∷ next ∷ rest) i current =
      let above = parent level i current in
      level ∷ climb (array_store next (i / 2) above ∷ rest) (i / 2) above

  -- "Handle case where we need a new root level": the last two statements of `addLeaf`.
  grow : List (List String) → List (List String)
  unfolding hash_pair
  grow [] = []
  grow (level ∷ []) =
      if ltb 1 (length level)
      then level ∷ (hash_pair (at level 0) (at level 1) ∷ []) ∷ []
      else level ∷ []
  grow (level ∷ next ∷ rest) = level ∷ grow (next ∷ rest)

  -- `this.tree.length === 0 || this.tree[0][0] === "EMPTY"`.
  is_empty : List (List String) → Bool
  is_empty [] = true
  is_empty (level ∷ rest) = get_or level 0 "" === "EMPTY"

  replace_leaves : List (List String) → List String → List (List String)
  replace_leaves [] leaves = leaves ∷ []
  replace_leaves (_ ∷ rest) leaves = leaves ∷ rest

  -- `addLeaf`.
  pub add_leaf : MerkleTree → String → MerkleTree × String
  add_leaf t leaf =
      let leaves = t.leaves ++ leaf ∷ [] in
      let grown : MerkleTree = record {
        leaves = leaves;
        tree = grow (climb (replace_leaves t.tree leaves) (length leaves - 1) leaf);
      } in
      if is_empty t.tree
      then (record { leaves = leaves; tree = (leaf ∷ []) ∷ [] }, leaf)
      else (grown, get_root grown)

  -- The loop of `verify`.
  unfoldable pub verify_from : String → ℕ → List String → String
  unfolding is_odd hash_pair
  verify_from current i [] = current
  verify_from current i (s ∷ proof) =
      verify_from (if is_odd i then hash_pair s current else hash_pair current s) (i / 2) proof

  -- `verify`.
  unfoldable pub verify : String → String → ℕ → List String → Bool
  verify root leaf i proof = verify_from leaf i proof === root
