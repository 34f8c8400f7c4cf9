-- ===== src/Repository/Kv.antt =====
-- `KvRepository` fills the interface, where no other writer comes between.
use Prim.Native.String.{String}
use counter_terrorist.Common.{
  ===_other, Bool-cases, Map, Result, [], ap, err, false, if◌then◌else◌, inl, inr, map_get,
  map_get-map_set, map_get-map_set_other, map_set, none, ok, refl, some, string_eq, ◌===◌, ◌∷◌, ◌≡◌,
  ◌≢◌,
}
use counter_terrorist.Repository.{
  Store, Repository, is_permitted, kv_delete, kv_get, kv_set, remove_key, write, write_attempts,
  kv_list,
}

module _ {A : Type 0} where
  pub get-remove_key : (k : String) (m : Map A) → map_get k (remove_key k m) ≡ none
  unfolding remove_key
  get-remove_key k [] = refl
  get-remove_key k ((key, b) ∷ m) = elim (Bool-cases (key === k)) [
    | inl e ↦ rw e (get-remove_key k m)
    | inr n ↦ rw n (rw n (get-remove_key k m))
  ]

  pub get-remove_key_other :
      (k l : String) (m : Map A) → k ≢ l → map_get l (remove_key k m) ≡ map_get l m
  unfolding remove_key
  get-remove_key_other k l [] h = refl
  get-remove_key_other k l ((key, b) ∷ m) h = elim (Bool-cases (key === k)) [
    | inl e ↦
        let n : (key === l) ≡ false = rw ((string_eq.same_iff key k).0 e) (===_other k l h) in
        rw e (rw n (get-remove_key_other k l m h))
    | inr n ↦ rw n (ap (λ o. if key === l then some b else o) (get-remove_key_other k l m h))
  ]

  accepted : Store A × Result (Unit {0}) String → Result (Store A) String
  accepted (s, ok u) = ok s
  accepted (s, err e) = err e

  unfoldable pub kv_repository : Repository A (Store A)
  unfolding kv_get kv_set kv_delete write write_attempts accepted
  kv_repository = record {
    is_open = λ s. is_permitted s.is_read_only s.prefix;
    get = kv_get;
    save = λ k a s. accepted (kv_set [] k a s);
    delete = λ k s. accepted (kv_delete [] k s);
    list = λ s. kv_list s.entries;
    save_lem = λ k a s writable. (
      record s { entries = map_set k a s.entries },
      rw writable refl,
      writable,
      map_get-map_set k a s.entries,
      λ l n. map_get-map_set_other l k a s.entries n,
    );
    delete_lem = λ k s writable. (
      record s { entries = remove_key k s.entries },
      rw writable refl,
      writable,
      get-remove_key k s.entries,
      λ l n. get-remove_key_other k l s.entries n,
    );
  }
