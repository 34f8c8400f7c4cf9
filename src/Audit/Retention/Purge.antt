-- ===== src/Audit/Retention/Purge.antt =====
-- What `purgeExpired` does to a ledger with expired events.
use Prim.Native.String.{String}
use counter_terrorist.Common.{
  Bool, Bool-cases, Has, List, Option, Result, [], ap, arith, err, false, inl, inr, leb, ltb,
  ltb→lt, none, ok, refl, some, some_inj, some_not_none, string_eq, subst, suc, sym, take, true,
  zero, ℕ, ◌&&◌, ◌<◌, ◌==◌, ◌>>=◌, ◌∙◌, ◌∷◌, ◌≡◌, ◌≢◌, ◌≤◌, ◌⊎◌,
}
use counter_terrorist.AuditVerifier.{AuditEvent}
use counter_terrorist.Timeline.{
  Entry, in_range, key_before, put, same_key, delete_before, add_count, set_entry,
}
use counter_terrorist.Timeline.Deletes.{delete_before-outcome}
use counter_terrorist.Audit.Sync.{seal_checkpoint}
use counter_terrorist.Audit.Retention.{
  Ledger, last_expired, purge_before, after_delete, purge_at, purge_expired, retention_draft,
  store_and_purge,
}

last_expired-some :
    (cutoff : ℕ) (es : List (Entry AuditEvent)) (start : Option (Entry AuditEvent))
    (b : Entry AuditEvent)
    → last_expired cutoff es start ≡ some b
    → (start ≡ some b) ⊎ (Has b es × (b.timestamp < cutoff))
unfolding last_expired
last_expired-some cutoff [] start b h = inl h
last_expired-some cutoff (e ∷ es) start b h = elim (Bool-cases (ltb e.timestamp cutoff)) [
  | inr new ↦ inl (rw new at h)
  | inl old ↦ elim (last_expired-some cutoff es (some e) b (rw old at h)) [
    | inl same ↦
        let here : e ≡ b = some_inj e b same in
        inr (inl here, subst (λ x. x.timestamp < cutoff) here (ltb→lt e.timestamp cutoff old))
    | inr there ↦ inr (inr there.0, there.1)
  ]
]

Has-take : {A : Type 0} (a : A) (n : ℕ) (xs : List A) → Has a (take n xs) → Has a xs
Has-take a zero xs h = absurd h
Has-take a (suc n) [] h = absurd h
Has-take a (suc n) (x ∷ xs) (inl e) = inl e
Has-take a (suc n) (x ∷ xs) (inr h) = inr (Has-take a n xs h)

same_time : (a b : ℕ) (q : Bool) → (a == b && q) ≡ true → a ≡ b
same_time a b q h = ground arith

-- A write to another time keeps an entry.
put-Has :
    (x e : Entry AuditEvent) (es : List (Entry AuditEvent))
    → x.timestamp ≢ e.timestamp
    → Has x es
    → Has x (put e es)
unfolding put same_key
put-Has x e [] other h = absurd h
put-Has x e (y ∷ ys) other h = elim (Bool-cases (same_key y e)) [
  | inl same ↦ rw same (elsewhere (same_time y.timestamp e.timestamp _ same) h)
  | inr differ ↦ elim (Bool-cases (key_before y e)) [
    | inl before ↦ rw (differ, before) (further (put-Has x e ys other) h)
    | inr after ↦ rw (differ, after) (inr h)
  ]
]
  where
    elsewhere : y.timestamp ≡ e.timestamp → Has x (y ∷ ys) → Has x (e ∷ ys)
    elsewhere same (inl here) =
        absurd (other (ap (λ (z : Entry AuditEvent). z.timestamp) (sym here) ∙ same))
    elsewhere same (inr there) = inr there

    further : (Has x ys → Has x (put e ys)) → Has x (y ∷ ys) → Has x (y ∷ put e ys)
    further below (inl here) = inl here
    further below (inr there) = inr (below there)

within_range : (a b : ℕ) → a < b → (leb 0 a && ltb a b) ≡ true
within_range a b h = ground arith

in_range-Has :
    (x : Entry AuditEvent) (cutoff : ℕ) (es : List (Entry AuditEvent))
    → Has x es
    → x.timestamp < cutoff
    → (y : Entry AuditEvent) × (ys : List (Entry AuditEvent)) × (in_range 0 cutoff es ≡ y ∷ ys)
unfolding in_range
in_range-Has x cutoff [] h low = absurd h
in_range-Has x cutoff (e ∷ es) (inl here) low =
    let within : (leb 0 e.timestamp && ltb e.timestamp cutoff) ≡ true =
      within_range e.timestamp cutoff
        (subst (λ (z : Entry AuditEvent). z.timestamp < cutoff) (sym here) low) in
    (e, in_range 0 cutoff es, rw within refl)
in_range-Has x cutoff (e ∷ es) (inr there) low =
    let (y, ys, found) = in_range-Has x cutoff es there low in
    elim (Bool-cases (leb 0 e.timestamp && ltb e.timestamp cutoff)) [
      | inl within ↦ (e, in_range 0 cutoff es, rw within refl)
      | inr outside ↦ (y, ys, rw outside found)
    ]

abbrev outcome : Ledger → List (Entry AuditEvent) → Ledger × Result ℕ String
outcome t [] = (t, ok 0)
outcome t (e ∷ rest) = (t, err "RangeError")

delete_outcome :
    (cutoff : ℕ) (t : Ledger)
    → delete_before true cutoff t ≡ outcome t (in_range 0 cutoff t.entries)
delete_outcome cutoff t = delete_before-outcome cutoff t ∙ cases (in_range 0 cutoff t.entries)
  where
    cases :
        (old : List (Entry AuditEvent))
        → ◌≡◌ {A = Ledger × Result ℕ String}
            (elim old [ [] ↦ (t, ok 0) | e ∷ rest ↦ (t, err "RangeError") ])
            (outcome t old)
    cases [] = refl
    cases (e ∷ rest) = refl

-- Nothing is deleted, whatever the deletion returns.
purge_before-entries : (cutoff : ℕ) (t : Ledger) → (purge_before true cutoff t).0 ≡ t
unfolding purge_before after_delete
purge_before-entries cutoff t =
    ap (λ r. (after_delete r).0) (delete_outcome cutoff t) ∙ kept (in_range 0 cutoff t.entries)
  where
    kept : (old : List (Entry AuditEvent)) → (after_delete (outcome t old)).0 ≡ t
    kept [] = refl
    kept (e ∷ rest) = refl

-- Where an entry is expired, it throws.
purge_before-err :
    (cutoff : ℕ) (t : Ledger) (x : Entry AuditEvent)
    → Has x t.entries
    → x.timestamp < cutoff
    → (purge_before true cutoff t).1 ≡ err "RangeError"
unfolding purge_before after_delete
purge_before-err cutoff t x there low =
    let (y, ys, found) = in_range-Has x cutoff t.entries there low in
    ap (λ r. (after_delete r).1) (delete_outcome cutoff t ∙ ap (outcome t) found)

-- An operation on the ledger failed, and each entry of another time is as before.
abbrev pub FailsKeeping : ℕ → Ledger → Ledger × Result (Unit {0}) String → Type 0
FailsKeeping now_ms t r =
    ((x : Entry AuditEvent) → Has x t.entries → x.timestamp ≢ now_ms → Has x r.0.entries)
    × ((message : String) × (r.1 ≡ err message))

stored-FailsKeeping :
    (cutoff : ℕ) (t : Ledger) (c x : Entry AuditEvent) (counted : Option ℕ)
    → Has x t.entries
    → x.timestamp < cutoff
    → cutoff ≤ c.timestamp
    → FailsKeeping c.timestamp t
        (purge_before true cutoff (record { entries = put c t.entries; events_count = counted }))
stored-FailsKeeping cutoff t c x counted there low late =
    let stored : Ledger = record { entries = put c t.entries; events_count = counted } in
    let kept = purge_before-entries cutoff stored in
    (
      λ y y_there other.
          subst (λ (u : Ledger). Has y u.entries) (sym kept) (put-Has y c t.entries other y_there),
      (
        "RangeError",
        purge_before-err cutoff stored x
            (put-Has x c t.entries (λ same. absurd (omega (arith, same, low, late))) there) low,
      ),
    )

module _ (sha256_hex : String → String) (sign : Option (String → Option String)) where
  settled-FailsKeeping :
      (committed : Bool) (now_ms cutoff : ℕ) (t : Ledger) (x : Entry AuditEvent)
      (sealed : Result AuditEvent String)
      → Has x t.entries
      → x.timestamp < cutoff
      → cutoff ≤ now_ms
      → FailsKeeping now_ms t (
          store_and_purge true cutoff t (
            sealed >>= λ checkpoint.
            set_entry true committed
              (record { timestamp = now_ms; id = checkpoint.id; contents = checkpoint })
              t))
  unfolding store_and_purge set_entry
  settled-FailsKeeping committed now_ms cutoff t x (err message) there low late =
      (λ y y_there other. y_there, (message, refl))
  settled-FailsKeeping true now_ms cutoff t x (ok c) there low late =
      stored-FailsKeeping cutoff t (record { timestamp = now_ms; id = c.id; contents = c }) x
        (add_count 1 t.events_count) there low late
  settled-FailsKeeping false now_ms cutoff t x (ok c) there low late =
      (λ y y_there other. y_there, (_, refl))

  -- Where the scan finds an expired event, in a repository that may be written and at a time after
  -- the cut, `purgeExpired` fails, and removes no event: the expired ones stay as well. (An entry of
  -- the very millisecond of the checkpoint could be the checkpoint's.)
  pub purge_expired-FailsKeeping :
      (committed : Bool) (id now : String) (now_ms cutoff : ℕ) (t : Ledger) (b : Entry AuditEvent)
      → cutoff ≤ now_ms
      → last_expired cutoff (take 10000 t.entries) none ≡ some b
      → FailsKeeping now_ms t (purge_expired sha256_hex sign true committed id now now_ms cutoff t)
  unfolding purge_expired purge_at
  purge_expired-FailsKeeping committed id now now_ms cutoff t b late found =
      elim (last_expired-some cutoff (take 10000 t.entries) none b found) [
        | inl nothing_there ↦ absurd (some_not_none b (sym nothing_there))
        | inr expired ↦
            subst
              (λ o.
                FailsKeeping now_ms t
                  (purge_at sha256_hex sign true committed id now now_ms cutoff o t))
              (sym found)
              (settled-FailsKeeping committed now_ms cutoff t b
                (seal_checkpoint sha256_hex sign (retention_draft id now b.contents))
                (Has-take b 10000 t.entries expired.0) expired.1 late)
      ]
