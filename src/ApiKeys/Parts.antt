-- ===== src/ApiKeys/Parts.antt =====
-- The parts of a raw key.
use Prim.Native.Char.{code}
use text.Mathlib.TextLemmas.{append-eq-nil_iff, append-nil, append_assoc, cons-append, nil-append}
use Prim.Native.String
use Prim.Native.String.{String}
use mathlib.Core.Bool.{false≢true}
use counter_terrorist.Common.{
  ===_other, Bool, Bool-cases, List, [], ap, arith, false, inl, inr, not, refl, some, string_eq,
  sym, true, ◌&&◌, ◌==◌, ◌∙◌, ◌∷◌, ◌≡◌, ◌≢◌,
}
use counter_terrorist.Session.{Role, admin, mesh_peer, operator, viewer}
use counter_terrorist.ApiKeys.{
  split_text, add_char, id_part, is_internal, key_id, raw_key_of, role_text,
}

-- Whether no character of the text is an underscore.
unfoldable pub is_plain : String → Bool
is_plain String.[] = true
is_plain (String.◌∷◌ c s) = not (code c == 95) && is_plain s

-- There is always a first part.
pub split_text-first :
    (s : String) → (d : String) × (rest : List String) × (split_text s ≡ d ∷ rest)
unfolding split_text add_char
split_text-first String.[] = (String.[], [], refl)
split_text-first (String.◌∷◌ c s) =
    let (d, rest, e) = split_text-first s in
    elim (Bool-cases (code c == 95)) [
      | inl u ↦ (String.[], split_text s, rw u refl)
      | inr u ↦ (String.◌∷◌ c d, rest, rw u (rw e refl))
    ]

abbrev pub joined : String → String → String
joined x y = String.◌++◌ x (String.◌++◌ "_" y)

joined-nil : (y : String) → split_text (joined "" y) ≡ "" ∷ split_text y
unfolding split_text
joined-nil y =
    ap split_text (nil-append (String.◌++◌ "_" y))
    ∙ ap split_text (cons-append "_" "" y ∙ ap (String.◌∷◌ "_") (nil-append y))

-- A text without underscores is the first part of what follows it.
pub split_text-append :
    (x y : String) → is_plain x ≡ true → split_text (joined x y) ≡ x ∷ split_text y
unfolding is_plain split_text add_char
split_text-append String.[] y h = joined-nil y
split_text-append (String.◌∷◌ c x) y h =
    ap split_text (cons-append c x (String.◌++◌ "_" y)) ∙ elim (Bool-cases (code c == 95)) [
      | inl e ↦ absurd (ground arith)
      | inr e ↦ rw e (rw (split_text-append x y (rw e at h)) refl)
    ]

role_is_plain : (r : Role) → is_internal r ≡ false → is_plain (role_text r) ≡ true
unfolding is_internal is_plain role_text
role_is_plain admin h = absurd (false≢true (sym h))
role_is_plain operator h = refl
role_is_plain viewer h = refl
role_is_plain mesh_peer h = absurd (false≢true (sym h))

raw_key-joined :
    (role : Role) (id secret : String)
    → raw_key_of role id secret ≡ joined "ct" (joined (role_text role) (joined id secret))
unfolding raw_key_of
raw_key-joined role id secret =
    ap
      (λ z.
        String.◌++◌ "ct_"
          (String.◌++◌ (role_text role) (String.◌++◌ "_" (String.◌++◌ id (String.◌++◌ "_" z)))))
      (append-nil secret)
    ∙ append_assoc "ct" "_"
        (String.◌++◌ (role_text role) (String.◌++◌ "_" (String.◌++◌ id (String.◌++◌ "_" secret))))

-- The id of a raw key is read back from it, where the id has no underscore.
pub key_id-raw_key_of :
    (role : Role) (id secret : String)
    → is_internal role ≡ false
    → is_plain id ≡ true
    → key_id (raw_key_of role id secret) ≡ some id
unfolding key_id id_part is_plain
key_id-raw_key_of role id secret external plain =
    let key = raw_key_of role id secret in
    let (d, rest, e) = split_text-first secret in
    let parts : split_text key ≡ "ct" ∷ role_text role ∷ id ∷ d ∷ rest =
      ap split_text (raw_key-joined role id secret)
      ∙ (split_text-append "ct" (joined (role_text role) (joined id secret)) ct_plain
          ∙ ap (λ l. "ct" ∷ l)
              (split_text-append (role_text role) (joined id secret) (role_is_plain role external)
                ∙ ap (λ l. role_text role ∷ l)
                    (split_text-append id secret plain ∙ ap (λ l. id ∷ l) e))) in
    rw
      (
        ===_other key "" (
            not_empty (joined (role_text role) (joined id secret)) key
              (raw_key-joined role id secret)),
        parts,
      )
      refl
  where
    ct_plain : is_plain "ct" ≡ true
    ct_plain = refl

    not_empty : (z k : String) → k ≡ joined "ct" z → k ≢ ""
    not_empty z k e h = false≢true (
        (string_eq.same_iff "ct" "").1
          ((append-eq-nil_iff {p = "ct"} {q = String.◌++◌ "_" z}).0 (sym e ∙ h)).0)
