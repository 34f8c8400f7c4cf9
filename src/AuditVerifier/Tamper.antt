-- ===== src/AuditVerifier/Tamper.antt =====
-- What two ledgers that both verify have in common.
use mathlib.Core.Path.{ap₂}
use Prim.Native.String.{String}
use counter_terrorist.Common.{
  All, Bool, Has, List, Option, [], ap, arith, inl, inr, length, map, none, ok, refl, some,
  some_inj, string_eq, sym, ◌∙◌, ◌∷◌, ◌≡◌, ◌≢◌, ◌⊎◌,
}
use counter_terrorist.Canonical.{compute_hash}
use counter_terrorist.Canonical.Equality.{Json-discrete}
use counter_terrorist.AuditVerifier.{AuditEvent, hash_input, intact, verify_chain}
use counter_terrorist.AuditVerifier.Sound.{IsSound, Chain, IsCheckpoint, verify_chain_iff}

-- Two events with different contents and one hash, one from each ledger.
pub record HashCollision (sha256_hex : String → String) (xs ys : List AuditEvent) : Type 0 where
  pub first : AuditEvent
  pub second : AuditEvent
  pub first_in : Has first xs
  pub second_in : Has second ys
  pub differ : hash_input first ≢ hash_input second
  pub of_first : compute_hash sha256_hex (hash_input first) ≡ ok first.hash
  pub of_second : compute_hash sha256_hex (hash_input second) ≡ ok first.hash

-- An event that is neither a checkpoint nor marked `TRUNCATED`.
abbrev pub IsPlain : AuditEvent → Type 0
IsPlain e = (¬ IsCheckpoint e) × (e.prev_hash ≢ "TRUNCATED")

-- The hash of the newest event.
abbrev pub head_hash : List AuditEvent → Option String
head_hash [] = none
head_hash (e ∷ older) = some e.hash

module _ (sha256_hex : String → String) (tpm : Option (String → String → Bool)) where
  sound_hash :
      (e : AuditEvent)
      → IsSound sha256_hex tpm e
      → IsPlain e
      → compute_hash sha256_hex (hash_input e) ≡ ok e.hash
  sound_hash e (inl s) h = absurd (h.0 s.0)
  sound_hash e (inr s) h = s.1

  prev_hash_of_input : (a b : AuditEvent) → hash_input a ≡ hash_input b → a.prev_hash ≡ b.prev_hash
  unfolding hash_input
  prev_hash_of_input a b e = cc

  older_hash :
      (e f : AuditEvent) (older : List AuditEvent)
      → IsPlain e
      → IsPlain f
      → Chain sha256_hex tpm (some e) (f ∷ older)
      → e.prev_hash ≡ f.hash
  older_hash e f older pe pf (inl c, rest) = absurd (pf.0 c)
  older_hash e f older pe pf (inr (inl h), rest) = h
  older_hash e f older pe pf (inr (inr t), rest) = absurd (pe.1 t)

  streams_agree :
      (xs ys : List AuditEvent)
      → length xs ≡ length ys
      → head_hash xs ≡ head_hash ys
      → All IsPlain xs
      → All IsPlain ys
      → All (IsSound sha256_hex tpm) xs
      → All (IsSound sha256_hex tpm) ys
      → Chain sha256_hex tpm none xs
      → Chain sha256_hex tpm none ys
      → (map hash_input xs ≡ map hash_input ys) ⊎ HashCollision sha256_hex xs ys
  streams_agree [] [] n h px py sx sy cx cy = inl refl
  streams_agree [] (y ∷ ys) n h px py sx sy cx cy = absurd (omega arith)
  streams_agree (x ∷ xs) [] n h px py sx sy cx cy = absurd (omega arith)
  streams_agree (x ∷ xs) (y ∷ ys) n h (px, pxs) (py, pys) (sx, sxs) (sy, sys) (_, cx) (_, cy) =
      elim (Json-discrete (hash_input x) (hash_input y)) [
        | no differ ↦ inr (record {
          first = x;
          second = y;
          first_in = inl refl;
          second_in = inl refl;
          differ = differ;
          of_first = sound_hash x sx px;
          of_second = sound_hash y sy py ∙ ap ok (sym (head_inj x y xs ys h));
        })
        | yes same ↦
            elim (streams_agree xs ys (omega arith)
              (next_hash x y xs ys (prev_hash_of_input x y same) (omega arith) px py pxs pys cx cy)
              pxs pys sxs sys (forget x xs cx) (forget y ys cy)) [
                | inr c ↦ inr (record {
                  first = c.first;
                  second = c.second;
                  first_in = inr c.first_in;
                  second_in = inr c.second_in;
                  differ = c.differ;
                  of_first = c.of_first;
                  of_second = c.of_second;
                })
                | inl rest ↦ inl (ap₂ (λ a l. a ∷ l) same rest)
              ]
      ]
    where
      head_inj :
          (e f : AuditEvent) (es fs : List AuditEvent)
          → head_hash (e ∷ es) ≡ head_hash (f ∷ fs)
          → e.hash ≡ f.hash
      head_inj e f es fs same = some_inj e.hash f.hash same

      forget :
          (e : AuditEvent) (older : List AuditEvent)
          → Chain sha256_hex tpm (some e) older
          → Chain sha256_hex tpm none older
      forget e [] c = tt
      forget e (f ∷ older) c = (tt, c.1)

      next_hash :
          (x y : AuditEvent) (xs ys : List AuditEvent)
          → x.prev_hash ≡ y.prev_hash
          → length xs ≡ length ys
          → IsPlain x
          → IsPlain y
          → All IsPlain xs
          → All IsPlain ys
          → Chain sha256_hex tpm (some x) xs
          → Chain sha256_hex tpm (some y) ys
          → head_hash xs ≡ head_hash ys
      next_hash x y [] [] e n px py pxs pys cx cy = refl
      next_hash x y [] (g ∷ ys) e n px py pxs pys cx cy = absurd (omega arith)
      next_hash x y (f ∷ xs) [] e n px py pxs pys cx cy = absurd (omega arith)
      next_hash x y (f ∷ xs) (g ∷ ys) e n px py pxs pys cx cy =
          ap some (sym (older_hash x f xs px pxs.0 cx) ∙ e ∙ older_hash y g ys py pys.0 cy)

  -- The hash of the newest event stands for the whole ledger: two ledgers of one length that both
  -- verify, without checkpoints or `TRUNCATED` marks, and that end in events with the same hash,
  -- have the same contents, event by event, or an event of one ledger has the hash of one of the other
  -- whose contents are different.
  pub verify_chain_unique :
      (xs ys : List AuditEvent)
      → verify_chain sha256_hex tpm xs ≡ ok (intact (length xs))
      → verify_chain sha256_hex tpm ys ≡ ok (intact (length ys))
      → length xs ≡ length ys
      → head_hash xs ≡ head_hash ys
      → All IsPlain xs
      → All IsPlain ys
      → (map hash_input xs ≡ map hash_input ys) ⊎ HashCollision sha256_hex xs ys
  verify_chain_unique xs ys vx vy n h px py =
      let (sx, cx) = (verify_chain_iff sha256_hex tpm xs).0 vx in
      let (sy, cy) = (verify_chain_iff sha256_hex tpm ys).0 vy in
      streams_agree xs ys n h px py sx sy cx cy
