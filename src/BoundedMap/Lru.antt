-- ===== src/BoundedMap/Lru.antt =====
-- What a bounded map promises: a map whose entries are in the order of their last use, of which the
-- last one leaves when there is no room.
use Prim.Native.String.{String}
use counter_terrorist.Common.{
  Bool, Map, Option, [], false, if◌then◌else◌, leb, length, map_delete, map_get, none, some,
  string_eq, true, ℕ, ◌∷◌,
}

module _ {V : Type 0} where
  unfoldable pub drop_last : Map V → Map V
  drop_last [] = []
  drop_last (x ∷ []) = []
  drop_last (x ∷ y ∷ rest) = x ∷ drop_last (y ∷ rest)

  unfoldable pub lru_set_at : Option V → ℕ → String → V → Map V → Map V
  unfolding drop_last
  lru_set_at (some old) capacity k v l = (k, v) ∷ map_delete k l
  lru_set_at none capacity k v l = (k, v) ∷ (if leb capacity (length l) then drop_last l else l)

  unfoldable pub lru_set : ℕ → String → V → Map V → Map V
  unfolding lru_set_at
  lru_set capacity k v l = lru_set_at (map_get k l) capacity k v l

  unfoldable pub lru_get_at : Option V → String → Map V → Map V × Option V
  lru_get_at none k l = (l, none)
  lru_get_at (some v) k l = ((k, v) ∷ map_delete k l, some v)

  unfoldable pub lru_get : String → Map V → Map V × Option V
  unfolding lru_get_at
  lru_get k l = lru_get_at (map_get k l) k l

  unfoldable pub lru_delete_at : Option V → String → Map V → Map V × Bool
  lru_delete_at none k l = (l, false)
  lru_delete_at (some v) k l = (map_delete k l, true)

  unfoldable pub lru_delete : String → Map V → Map V × Bool
  unfolding lru_delete_at
  lru_delete k l = lru_delete_at (map_get k l) k l
