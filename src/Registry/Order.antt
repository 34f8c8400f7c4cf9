-- ===== src/Registry/Order.antt =====
-- The order of registration, which the registry keeps twice.
use Prim.Native.String.{String}
use mathlib.Core.Bool.{false≢true}
use counter_terrorist.Common.{
  ===_refl, Bool-cases, IsDistinct, List, Map, Option, [], ap, arith, false, has_key, inl, inr,
  keys, map_get, map_set, none, refl, some, string_eq, sym, ◌++◌, ◌===◌, ◌∙◌, ◌∷◌, ◌≡◌,
}
use counter_terrorist.Registry.{
  Registry, Entry, Service, ShutdownPriority, empty_registry, order_with, register,
}

order_with-cons :
    (key k : String) (o : Option Entry) (l : List String)
    → order_with o k (key ∷ l) ≡ key ∷ order_with o k l
unfolding order_with
order_with-cons key k none l = refl
order_with-cons key k (some x) l = refl

keys-map_set :
    (k : String) (e : Entry) (m : Map Entry)
    → keys (map_set k e m) ≡ order_with (map_get k m) k (keys m)
unfolding order_with
keys-map_set k e [] = refl
keys-map_set k e ((key, b) ∷ m) = elim (Bool-cases (key === k)) [
  | inl same ↦ rw same refl
  | inr other ↦
      rw other (
        ap (λ l. key ∷ l) (keys-map_set k e m) ∙ sym (order_with-cons key k (map_get k m) (keys m)))
]

-- The registries that registrations make of the empty one.
pub data Reach : Registry → Type 0 where
  start : Reach empty_registry
  register_in :
      {r : Registry} (name : String) (service : Service) (priority : ShutdownPriority)
      → Reach r
      → Reach (register name service priority r).0

has_key-append_end :
    (k l : String) (ks : List String)
    → has_key k ks ≡ false
    → (l === k) ≡ false
    → has_key k (ks ++ l ∷ []) ≡ false
has_key-append_end k l [] h n = rw n refl
has_key-append_end k l (x ∷ ks) h n = let rest = has_key-append_end k l ks in ground arith

pub ===_sym_other : (a b : String) → (a === b) ≡ false → (b === a) ≡ false
===_sym_other a b h = elim (Bool-cases (b === a)) [
  | inl e ↦ absurd (false≢true (sym h ∙ (rw ((string_eq.same_iff b a).0 e) (===_refl a))))
  | inr e ↦ e
]

order_with-contains :
    (key k : String) (o : Option Entry) (l : List String)
    → has_key key l ≡ false
    → (k === key) ≡ false
    → has_key key (order_with o k l) ≡ false
unfolding order_with
order_with-contains key k none l h n = has_key-append_end key k l h n
order_with-contains key k (some x) l h n = h

-- A name that is registered anew is at the end, and was not there.
order_with-IsDistinct :
    (k : String) (m : Map Entry)
    → IsDistinct (keys m)
    → IsDistinct (order_with (map_get k m) k (keys m))
unfolding order_with
order_with-IsDistinct k [] h = (refl, tt)
order_with-IsDistinct k ((key, b) ∷ m) (new, h) = elim (Bool-cases (key === k)) [
  | inl same ↦ rw same (new, h)
  | inr other ↦ rw other (
      rw (order_with-cons key k (map_get k m) (keys m)) (
        order_with-contains key k (map_get k m) (keys m) new (===_sym_other key k other),
        order_with-IsDistinct k m h,
      ))
]

kept :
    (name : String) (e : Entry) (m : Map Entry) (order : List String)
    → order ≡ keys m
    → IsDistinct order
    → (order_with (map_get name m) name order ≡ keys (map_set name e m))
      × IsDistinct (order_with (map_get name m) name order)
kept name e m order same distinct =
    rw same (sym (keys-map_set name e m), order_with-IsDistinct name m (rw same at distinct))

-- The two orders are one, without repetition.
abbrev pub IsOrdered : Registry → Type 0
IsOrdered r = (r.init_order ≡ keys r.services) × IsDistinct r.init_order

pub Reach-IsOrdered : {r : Registry} → Reach r → IsOrdered r
unfolding register empty_registry
Reach-IsOrdered start = (refl, tt)
Reach-IsOrdered (register_in {r} name service priority prior) =
    let (same, distinct) = Reach-IsOrdered prior in
    kept name (record { service = service; priority = priority }) r.services r.init_order same
      distinct
