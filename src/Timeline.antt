-- ===== src/Timeline.antt =====
-- src/orchestrator/infrastructure/persistence/repositories/timeline_repository.ts: the class
-- `TimelineRepository`. The store is the list of its entries in the order of their keys, the time in
-- milliseconds and then the identity; the statistics are an entry of their own, a number below 2^64.
-- Whether the repository may be written, and which chunk of a batch a commit refuses, are arguments.
pub mod Order
pub mod Writes
pub mod Deletes
mod Tests
use Prim.Native.String.{String}
use Prim.Native.Nat.{Ordering}
use Prim.Native.String
use mathlib.Core.List.{reverse}
use counter_terrorist.Common.{
  Bool, List, Option, Result, [], any, drop, err, false, if◌then◌else◌, keys, leb, length, ltb, map,
  none, not, ok, some, string_eq, suc, take, texts, true, zero, ℕ, ◌%◌, ◌&&◌, ◌++◌, ◌+◌, ◌===◌,
  ◌==◌, ◌>>=◌, ◌^◌, ◌||◌, ◌∷◌,
}

-- An item with the two parts of its key; `contents` is the item itself.
pub record Entry (A : Type 0) : Type 0 where
  pub timestamp : ℕ
  pub id : String
  pub contents : A

pub record Timeline (A : Type 0) : Type 0 where
  pub entries : List (Entry A)
  pub events_count : Option ℕ

abbrev pub chunk_size : ℕ
chunk_size = 100

-- The mutation `sum`, which wraps at 2^64.
unfoldable pub add_count : ℕ → Option ℕ → Option ℕ
add_count n none = some n
add_count n (some m) = some ((m + n) % 2 ^ 64)

module _ {A : Type 0} where
  -- The order of the keys.
  unfoldable pub key_before : Entry A → Entry A → Bool
  key_before x y =
      ltb x.timestamp y.timestamp
      || (x.timestamp == y.timestamp
          && elim (String.compare x.id y.id) [ Ordering.lt ↦ true | _ ↦ false ])

  unfoldable pub same_key : Entry A → Entry A → Bool
  same_key x y = x.timestamp == y.timestamp && x.id === y.id

  -- A write to a key: an entry that has it is replaced.
  unfoldable pub put : Entry A → List (Entry A) → List (Entry A)
  unfolding key_before same_key
  put e [] = e ∷ []
  put e (x ∷ xs) =
      let rest = put e xs in
      if same_key x e then e ∷ xs else if key_before x e then x ∷ rest else e ∷ x ∷ xs

  unfoldable pub put_all : List (Entry A) → List (Entry A) → List (Entry A)
  unfolding put
  put_all [] xs = xs
  put_all (e ∷ es) xs = put_all es (put e xs)

  -- `set`.
  unfoldable pub set_entry : Bool → Bool → Entry A → Timeline A → Result (Timeline A) String
  unfolding put add_count
  set_entry writable committed e t =
      if not writable
      then err "restricted"
      else if committed
      then ok (record { entries = put e t.entries; events_count = add_count 1 t.events_count })
      else err (texts ("Failed to set timeline entry for " ∷ e.id ∷ []))

  -- A chunk of `setMany`.
  unfoldable pub commit_chunk : List (Entry A) → Timeline A → Timeline A
  unfolding put_all add_count
  commit_chunk chunk t = record {
    entries = put_all chunk t.entries;
    events_count = add_count (length chunk) t.events_count;
  }

  -- The loop of `setMany`, with as much fuel as there are items; `commits` says which chunks are
  -- committed. It ends with the state that the committed chunks made, and whether all were.
  unfoldable pub set_chunks : ℕ → (ℕ → Bool) → ℕ → List (Entry A) → Timeline A → Timeline A × Bool
  unfolding commit_chunk
  set_chunks zero commits i items t = (t, true)
  set_chunks (suc fuel) commits i [] t = (t, true)
  set_chunks (suc fuel) commits i (e ∷ es) t =
      let chunk = take chunk_size (e ∷ es) in
      let rest =
        set_chunks fuel commits (i + 1) (drop chunk_size (e ∷ es)) (commit_chunk chunk t) in
      if commits i then rest else (t, false)

  -- `setMany`.
  unfoldable pub set_many :
      Bool → (ℕ → Bool) → List (Entry A) → Timeline A → Timeline A × Result (Unit {0}) String
  unfolding set_chunks
  set_many writable commits [] t = (t, ok tt)
  set_many writable commits (e ∷ es) t =
      let (stored, all_stored) = set_chunks (length (e ∷ es)) commits 0 (e ∷ es) t in
      if not writable
      then (t, err "restricted")
      else if all_stored
      then (stored, ok tt)
      else (stored, err "Failed to set chunk")

  -- `getLatest`: newest first.
  unfoldable pub get_latest : ℕ → Timeline A → List A
  get_latest limit t = take limit (map (λ (e : Entry A). e.contents) (reverse t.entries))

  -- The entries of a range of times, from the first to before the second.
  unfoldable pub in_range : ℕ → ℕ → List (Entry A) → List (Entry A)
  in_range first_time end_time [] = []
  in_range first_time end_time (x ∷ xs) =
      let rest = in_range first_time end_time xs in
      if leb first_time x.timestamp && ltb x.timestamp end_time then x ∷ rest else rest

  -- `listRange`.
  unfoldable pub list_range : ℕ → ℕ → Timeline A → List A
  unfolding in_range
  list_range start_ts end_ts t =
      map (λ (e : Entry A). e.contents) (in_range start_ts end_ts t.entries)

  -- `getStream`.
  unfoldable pub get_stream : Option ℕ → Bool → Timeline A → List A
  get_stream limit backwards t =
      let ordered = if backwards then reverse t.entries else t.entries in
      let items = map (λ (e : Entry A). e.contents) ordered in
      elim limit [ none ↦ items | some n ↦ take n items ]

  -- `count`: the statistics, or a count that becomes them. (A second call while one counts gets 0.)
  unfoldable pub count_items : Timeline A → Timeline A × ℕ
  count_items t = elim t.events_count [
    | some n ↦ (t, n)
    | none ↦ (record t { events_count = some (length t.entries) }, length t.entries)
  ]

-- `new Deno.KvU64(BigInt(-batchSize))`: the constructor throws for a negative number.
unfoldable pub negative_u64 : ℕ → Result ℕ String
negative_u64 zero = ok 0
negative_u64 (suc n) = err "RangeError"

module _ {A : Type 0} where
  -- The loop of `deleteBefore` over the entries that are left to see, with `count`, `batchSize` and
  -- the entries of the open transaction; a commit removes those from the store.
  unfoldable pub remove_keys : List (Entry A) → List (Entry A) → List (Entry A)
  unfolding same_key
  remove_keys keys [] = []
  remove_keys keys (x ∷ xs) =
      let rest = remove_keys keys xs in if any (λ k. same_key x k) keys then rest else x ∷ rest

  unfoldable pub commit_deletes : List (Entry A) → Timeline A → Result (Timeline A) String
  unfolding negative_u64 remove_keys
  commit_deletes batch t =
      negative_u64 (length batch) >>= λ _. ok (record t { entries = remove_keys batch t.entries })

  unfoldable pub delete_loop :
      List (Entry A) → List (Entry A) → ℕ → Timeline A → Timeline A × Result ℕ String
  unfolding commit_deletes
  delete_loop [] [] deleted t = (t, ok deleted)
  delete_loop [] (b ∷ batch) deleted t = elim (commit_deletes (b ∷ batch) t) [
    | ok next ↦ (next, ok deleted)
    | err x ↦ (t, err x)
  ]
  delete_loop (e ∷ es) batch deleted t = elim (leb chunk_size (length (batch ++ e ∷ []))) [
    | true ↦ elim (commit_deletes (batch ++ e ∷ []) t) [
      | ok next ↦ delete_loop es [] (deleted + 1) next
      | err x ↦ (t, err x)
    ]
    | false ↦ delete_loop es (batch ++ e ∷ []) (deleted + 1) t
  ]

  -- `deleteBefore`.
  unfoldable pub delete_before : Bool → ℕ → Timeline A → Timeline A × Result ℕ String
  unfolding delete_loop in_range
  delete_before writable timestamp t =
      let deleted = delete_loop (in_range 0 timestamp t.entries) [] 0 t in
      if writable then deleted else (t, err "restricted")
