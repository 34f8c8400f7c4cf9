-- ===== src/BoundedMap.antt =====
-- src/orchestrator/core/utils/collections.ts: the class `BoundedMap`, with its `ListNode`s in a store
-- of nodes. A node is named by the number of its allocation; `cache` maps a key to such a number. Keys
-- are texts; the iterators, whose map does not change while they run, are the lists they yield.
pub mod Segments
pub mod Steps
pub mod Moves
pub mod Keys
pub mod Cells
pub mod Lru
pub mod Kept
pub mod Writes
pub mod Evict
pub mod Refinement
pub mod Runs
mod Tests
use Prim.Native.String.{String}
use mathlib.Core.Option
use counter_terrorist.Common.{
  Bool, List, Map, Option, [], false, has_key, if◌then◌else◌, keys, leb, length, map_delete,
  map_get, map_set, none, some, string_eq, suc, true, ℕ, ◌==◌, ◌∷◌,
}

abbrev pub Ref : Type 0
Ref = Option ℕ

pub record Node (V : Type 0) : Type 0 where
  pub key : String
  pub value : V
  pub prev : Ref
  pub next : Ref

-- The nodes by their numbers; `fresh` is the number of the next one.
pub record BoundedMap (V : Type 0) : Type 0 where
  pub nodes : ℕ → Option (Node V)
  pub fresh : ℕ
  pub cache : Map ℕ
  pub head : Ref
  pub tail : Ref
  pub max_capacity : ℕ

unfoldable pub new_map : {V : Type 0} → ℕ → BoundedMap V
new_map capacity = record {
  nodes = λ a. none;
  fresh = 0;
  cache = [];
  head = none;
  tail = none;
  max_capacity = capacity;
}

unfoldable pub or_ref : Ref → Ref → Ref
or_ref none b = b
or_ref (some a) b = some a

module _ {V : Type 0} where
  unfoldable pub write_node : ℕ → Node V → (ℕ → Option (Node V)) → ℕ → Option (Node V)
  write_node a node nodes b = if a == b then some node else nodes b

  unfoldable pub update_from :
      Option (Node V) → ℕ → (Node V → Node V) → (ℕ → Option (Node V)) → ℕ → Option (Node V)
  unfolding write_node
  update_from none a change nodes = nodes
  update_from (some node) a change nodes = write_node a (change node) nodes

  -- An assignment to a field of a node.
  unfoldable pub update_node : ℕ → (Node V → Node V) → (ℕ → Option (Node V)) → ℕ → Option (Node V)
  unfolding update_from
  update_node a change nodes = update_from (nodes a) a change nodes

  unfoldable pub set_prev : Ref → ℕ → (ℕ → Option (Node V)) → ℕ → Option (Node V)
  unfolding update_node
  set_prev p a = update_node a (λ (node : Node V). record node { prev = p })

  unfoldable pub set_next : Ref → ℕ → (ℕ → Option (Node V)) → ℕ → Option (Node V)
  unfolding update_node
  set_next n a = update_node a (λ (node : Node V). record node { next = n })

  -- `this.head.prev = node` where there is a head, and its like.
  unfoldable pub set_prev_at : Ref → Ref → (ℕ → Option (Node V)) → ℕ → Option (Node V)
  unfolding set_prev
  set_prev_at none p nodes = nodes
  set_prev_at (some a) p nodes = set_prev p a nodes

  unfoldable pub set_next_at : Ref → Ref → (ℕ → Option (Node V)) → ℕ → Option (Node V)
  unfolding set_next
  set_next_at none n nodes = nodes
  set_next_at (some a) n nodes = set_next n a nodes

  -- `addToHead`: the node's own fields, those of the old head, and the ends.
  unfoldable pub add_to_head : ℕ → BoundedMap V → BoundedMap V
  unfolding set_next set_prev set_prev_at or_ref
  add_to_head a m = record m {
    nodes = set_prev_at m.head (some a) (set_prev none a (set_next m.head a m.nodes));
    head = some a;
    tail = or_ref m.tail (some a);
  }

  -- `removeNode` of a node with these neighbours.
  unfoldable pub unlink : Ref → Ref → BoundedMap V → BoundedMap V
  unfolding set_next_at set_prev_at
  unlink none none m = record m { head = none; tail = none }
  unlink none (some n) m = record m { nodes = set_prev_at (some n) none m.nodes; head = some n }
  unlink (some p) none m = record m { nodes = set_next_at (some p) none m.nodes; tail = some p }
  unlink (some p) (some n) m = record m {
    nodes = set_prev_at (some n) (some p) (set_next_at (some p) (some n) m.nodes);
  }

  unfoldable pub unlink_node : Option (Node V) → BoundedMap V → BoundedMap V
  unfolding unlink
  unlink_node none m = m
  unlink_node (some node) m = unlink node.prev node.next m

  unfoldable pub remove_node : ℕ → BoundedMap V → BoundedMap V
  unfolding unlink_node
  remove_node a m = unlink_node (m.nodes a) m

  unfoldable pub move_to_head : ℕ → BoundedMap V → BoundedMap V
  unfolding remove_node add_to_head
  move_to_head a m = add_to_head a (remove_node a m)

  -- `evict`: the tail, if there is one; its key leaves the map.
  unfoldable pub forget_key : Option (Node V) → BoundedMap V → BoundedMap V
  forget_key none m = m
  forget_key (some node) m = record m { cache = map_delete node.key m.cache }

  unfoldable pub evict_from : Ref → BoundedMap V → BoundedMap V
  unfolding remove_node forget_key
  evict_from none m = m
  evict_from (some a) m = remove_node a (forget_key (m.nodes a) m)

  unfoldable pub evict : BoundedMap V → BoundedMap V
  unfolding evict_from
  evict m = evict_from m.tail m

  -- A new node, not yet linked.
  unfoldable pub allocate : String → V → BoundedMap V → BoundedMap V
  unfolding write_node
  allocate k v m = record m {
    nodes = write_node m.fresh (record { key = k; value = v; prev = none; next = none }) m.nodes;
    fresh = suc m.fresh;
    cache = map_set k m.fresh m.cache;
  }

  unfoldable pub write_value : ℕ → V → BoundedMap V → BoundedMap V
  unfolding update_node
  write_value a v m = record m {
    nodes = update_node a (λ (node : Node V). record node { value = v }) m.nodes;
  }

  unfoldable pub insert_new : String → V → BoundedMap V → BoundedMap V
  unfolding allocate add_to_head
  insert_new k v m = add_to_head m.fresh (allocate k v m)

  unfoldable pub set_at : Ref → String → V → BoundedMap V → BoundedMap V
  unfolding write_value move_to_head evict insert_new
  set_at (some a) k v m = move_to_head a (write_value a v m)
  set_at none k v m = insert_new k v (if leb m.max_capacity (length m.cache) then evict m else m)

  -- `set`.
  unfoldable pub set_value : String → V → BoundedMap V → BoundedMap V
  unfolding set_at
  set_value k v m = set_at (map_get k m.cache) k v m

  unfoldable pub value_of : Option (Node V) → Option V
  value_of none = none
  value_of (some node) = some node.value

  unfoldable pub get_at : Ref → BoundedMap V → BoundedMap V × Option V
  unfolding move_to_head value_of
  get_at none m = (m, none)
  get_at (some a) m = (move_to_head a m, value_of ((move_to_head a m).nodes a))

  -- `get`.
  unfoldable pub get_value : String → BoundedMap V → BoundedMap V × Option V
  unfolding get_at
  get_value k m = get_at (map_get k m.cache) m

  -- `has`.
  unfoldable pub has_value : String → BoundedMap V → Bool
  has_value k m = has_key k (keys m.cache)

  unfoldable pub delete_at : Ref → String → BoundedMap V → BoundedMap V × Bool
  unfolding remove_node
  delete_at none k m = (m, false)
  delete_at (some a) k m = (record (remove_node a m) { cache = map_delete k m.cache }, true)

  -- `delete`.
  unfoldable pub delete_value : String → BoundedMap V → BoundedMap V × Bool
  unfolding delete_at
  delete_value k m = delete_at (map_get k m.cache) k m

  -- `clear`.
  unfoldable pub clear_map : BoundedMap V → BoundedMap V
  clear_map m = record m { cache = []; head = none; tail = none }

  unfoldable pub yield_entry : String → Option (Node V) → List (String × V) → List (String × V)
  yield_entry k none rest = rest
  yield_entry k (some node) rest = (k, node.value) ∷ rest

  -- `entries`, with `keys` and `values` as its parts.
  unfoldable pub entries_of : Map ℕ → (ℕ → Option (Node V)) → List (String × V)
  unfolding yield_entry
  entries_of [] nodes = []
  entries_of ((k, a) ∷ rest) nodes = yield_entry k (nodes a) (entries_of rest nodes)
