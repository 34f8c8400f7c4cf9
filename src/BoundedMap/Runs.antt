-- ===== src/BoundedMap/Runs.antt =====
-- Whole runs of a `BoundedMap`, from an empty one: what its clients see, and how large it gets.
use counter_terrorist.BoundedMap.Keys.{length-map_delete}
use Prim.Native.String.{String}
use counter_terrorist.Common.{
  Bool, Bool-cases, List, Map, Option, [], ap, arith, false, if_cases, if_false, if_true, inl, inr,
  leb, length, map_delete, map_get, max, none, refl, some, string_eq, subst, suc, sym, ℕ, ◌===◌,
  ◌∙◌, ◌∷◌, ◌≡◌, ◌≤◌,
}
use counter_terrorist.BoundedMap.{
  BoundedMap, clear_map, delete_value, get_value, new_map, set_value,
}
use counter_terrorist.BoundedMap.Cells.{length-pairs}
use counter_terrorist.BoundedMap.Lru.{
  lru_set, lru_get, lru_delete, drop_last, lru_set_at, lru_delete_at, lru_get_at,
}
use counter_terrorist.BoundedMap.Refinement.{
  Represents, Agrees, delete_value-Agrees, get_value-Agrees, new_map-Represents,
  set_value-Represents,
}

-- The calls of a client, and what they return.
pub data Call (V : Type 0) : Type 0 where
  set_call : String → V → Call V
  get_call : String → Call V
  delete_call : String → Call V
  clear_call : Call V

pub data Reply (V : Type 0) : Type 0 where
  done : Reply V
  value : Option V → Reply V
  deleted : Bool → Reply V

module _ {V : Type 0} where
  abbrev pub call_map : Call V → BoundedMap V → BoundedMap V × Reply V
  call_map (set_call k v) m = (set_value k v m, done)
  call_map (get_call k) m = ((get_value k m).0, value (get_value k m).1)
  call_map (delete_call k) m = ((delete_value k m).0, deleted (delete_value k m).1)
  call_map clear_call m = (clear_map m, done)

  abbrev pub call_lru : ℕ → Call V → Map V → Map V × Reply V
  call_lru capacity (set_call k v) l = (lru_set capacity k v l, done)
  call_lru capacity (get_call k) l = ((lru_get k l).0, value (lru_get k l).1)
  call_lru capacity (delete_call k) l = ((lru_delete k l).0, deleted (lru_delete k l).1)
  call_lru capacity clear_call l = ([], done)

  abbrev pub run_map : List (Call V) → BoundedMap V → BoundedMap V × List (Reply V)
  run_map [] m = (m, [])
  run_map (c ∷ cs) m =
      let (next, answer) = call_map c m in
      let (last, answers) = run_map cs next in (last, answer ∷ answers)

  abbrev pub run_lru : ℕ → List (Call V) → Map V → Map V × List (Reply V)
  run_lru capacity [] l = (l, [])
  run_lru capacity (c ∷ cs) l =
      let (next, answer) = call_lru capacity c l in
      let (last, answers) = run_lru capacity cs next in (last, answer ∷ answers)

  clear_map-Represents :
      (capacity : ℕ) (m : BoundedMap V) (l : Map V)
      → Represents capacity m l
      → Represents capacity (clear_map m) []
  unfolding clear_map
  clear_map-Represents capacity m l (cs, h, same) = (
    [],
    record {
      listed = record { at_head = refl; at_tail = refl; linked = tt; apart = tt };
      below = tt;
      keys_apart = tt;
      found = λ k. refl;
      distinct = tt;
      counted = refl;
      bounded_by = h.bounded_by;
    },
    refl,
  )

  call-Agrees :
      (capacity : ℕ) (c : Call V) (m : BoundedMap V) (l : Map V)
      → Represents capacity m l
      → Agrees capacity (call_map c m) (call_lru capacity c l)
  call-Agrees capacity (set_call k v) m l h = (set_value-Represents capacity k v m l h, refl)
  call-Agrees capacity (get_call k) m l h =
      let (next, same) = get_value-Agrees capacity k m l h in (next, ap value same)
  call-Agrees capacity (delete_call k) m l h =
      let (next, same) = delete_value-Agrees capacity k m l h in (next, ap deleted same)
  call-Agrees capacity clear_call m l h = (clear_map-Represents capacity m l h, refl)

  run-Agrees :
      (capacity : ℕ) (cs : List (Call V)) (m : BoundedMap V) (l : Map V)
      → Represents capacity m l
      → Agrees capacity (run_map cs m) (run_lru capacity cs l)
  run-Agrees capacity [] m l h = (h, refl)
  run-Agrees capacity (c ∷ cs) m l h =
      let (next, same) = call-Agrees capacity c m l h in
      let (last, rest) = run-Agrees capacity cs (call_map c m).0 (call_lru capacity c l).0 next in
      (
        last,
        ap (λ a. a ∷ (run_map cs (call_map c m).0).1) same
            ∙ ap (λ as_list. (call_lru capacity c l).1 ∷ as_list) rest,
      )

  -- Whatever calls of `set`, `get`, `delete` and `clear` a client makes, from an empty map on: each returns
  -- what the same call returns on the entries in the order of their last use.
  pub run_map-answers :
      (capacity : ℕ) (cs : List (Call V))
      → (run_map cs (new_map capacity)).1 ≡ (run_lru capacity cs []).1
  run_map-answers capacity cs =
      (run-Agrees capacity cs (new_map capacity) [] (new_map-Represents capacity)).1

  length-drop_last : (x : String × V) (l : Map V) → length (drop_last (x ∷ l)) ≡ length l
  unfolding drop_last
  length-drop_last x [] = refl
  length-drop_last x (y ∷ l) = ap suc (length-drop_last y l)

  length-map_delete_le : (k : String) (l : Map V) → length (map_delete k l) ≤ length l
  length-map_delete_le k [] = omega arith
  length-map_delete_le k ((j, v) ∷ l) = elim (Bool-cases (j === k)) [
    | inl e ↦ rw e (omega arith)
    | inr e ↦ rw e (omega (arith, length-map_delete_le k l))
  ]

  abbrev Fits : ℕ → Map V → Type 0
  Fits capacity l = length l ≤ max 1 capacity

  lru_set_at-Fits :
      (capacity : ℕ) (k : String) (v : V) (l : Map V) (o : Option V)
      → map_get k l ≡ o
      → Fits capacity l
      → Fits capacity (lru_set_at o capacity k v l)
  unfolding lru_set_at
  lru_set_at-Fits capacity k v l (some old) there h =
      omega (arith, length-map_delete k old l there, h)
  lru_set_at-Fits capacity k v [] none there h =
      elim (if_cases {A = Map V} (leb capacity 0) [] []) [
        | inl e ↦ subst (λ r. Fits capacity ((k, v) ∷ r)) (sym e) (omega arith)
        | inr e ↦ subst (λ r. Fits capacity ((k, v) ∷ r)) (sym e) (omega arith)
      ]
  lru_set_at-Fits capacity k v (x ∷ l) none there h =
      elim (Bool-cases (leb capacity (suc (length l)))) [
        | inl full ↦
            subst (λ r. Fits capacity ((k, v) ∷ r))
              (sym (if_true (leb capacity (suc (length l))) (drop_last (x ∷ l)) (x ∷ l) full))
              (omega (arith, length-drop_last x l, h))
        | inr room ↦
            subst (λ r. Fits capacity ((k, v) ∷ r))
              (sym (if_false (leb capacity (suc (length l))) (drop_last (x ∷ l)) (x ∷ l) room))
              (has_room (length l) room)
      ]
    where
      has_room : (n : ℕ) → leb capacity (suc n) ≡ false → suc (suc n) ≤ max 1 capacity
      has_room n e = ground arith

  lru_get_at-Fits :
      (capacity : ℕ) (k : String) (l : Map V) (o : Option V)
      → map_get k l ≡ o
      → Fits capacity l
      → Fits capacity (lru_get_at o k l).0
  unfolding lru_get_at
  lru_get_at-Fits capacity k l none there h = h
  lru_get_at-Fits capacity k l (some v) there h = omega (arith, length-map_delete k v l there, h)

  lru_delete_at-Fits :
      (capacity : ℕ) (k : String) (l : Map V) (o : Option V)
      → Fits capacity l
      → Fits capacity (lru_delete_at o k l).0
  unfolding lru_delete_at
  lru_delete_at-Fits capacity k l none h = h
  lru_delete_at-Fits capacity k l (some v) h = omega (arith, length-map_delete_le k l, h)

  call_lru-Fits :
      (capacity : ℕ) (c : Call V) (l : Map V)
      → Fits capacity l
      → Fits capacity (call_lru capacity c l).0
  unfolding lru_set lru_get lru_delete
  call_lru-Fits capacity (set_call k v) l h = lru_set_at-Fits capacity k v l (map_get k l) refl h
  call_lru-Fits capacity (get_call k) l h = lru_get_at-Fits capacity k l (map_get k l) refl h
  call_lru-Fits capacity (delete_call k) l h = lru_delete_at-Fits capacity k l (map_get k l) h
  call_lru-Fits capacity clear_call l h = omega arith

  run_lru-Fits :
      (capacity : ℕ) (cs : List (Call V)) (l : Map V)
      → Fits capacity l
      → Fits capacity (run_lru capacity cs l).0
  run_lru-Fits capacity [] l h = h
  run_lru-Fits capacity (c ∷ cs) l h =
      run_lru-Fits capacity cs (call_lru capacity c l).0 (call_lru-Fits capacity c l h)

  -- Whatever calls of `set`, `get`, `delete` and `clear` a client makes, from an empty map on: it never holds
  -- more entries than its capacity, or than one where the capacity is zero.
  pub run_map-size :
      (capacity : ℕ) (cs : List (Call V))
      → length (run_map cs (new_map capacity)).0.cache ≤ max 1 capacity
  run_map-size capacity cs =
      let ((ds, h, same), _) =
        run-Agrees capacity cs (new_map capacity) [] (new_map-Represents capacity) in
      omega (
        arith,
        h.counted,
        length-pairs ds,
        ap length same,
        run_lru-Fits capacity cs [] (omega arith),
      )
