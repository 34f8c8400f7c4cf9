-- ===== src/Audit/Retention/Archive.antt =====
-- The batches of the archive leave no trace.
use counter_terrorist.Common.{
  Bool, Bool-cases, List, [], all, ap, append_nil, append_snoc, false, if◌then◌else◌, inl, inr, leb,
  length, refl, string_eq, sym, take, true, ℕ, ◌++◌, ◌∙◌, ◌∷◌, ◌≡◌,
}
use counter_terrorist.AuditVerifier.{AuditEvent}
use counter_terrorist.Timeline.{Entry, Timeline}
use counter_terrorist.Audit.Retention.{archive_loop, process_archive_batch, archive_to_cold_storage}

-- The events before the first that is not older.
abbrev pub older_than : ℕ → List (Entry AuditEvent) → List AuditEvent
older_than threshold [] = []
older_than threshold (e ∷ es) =
    let rest = older_than threshold es in
    if leb threshold e.timestamp then [] else e.contents ∷ rest

module _ (threshold : ℕ) (appends : AuditEvent → Bool) where
  -- A batch after another one.
  abbrev after_batch : List AuditEvent → List AuditEvent × Bool → List AuditEvent × Bool
  after_batch ys (worm, false) = (worm, false)
  after_batch ys (worm, true) = process_archive_batch appends ys worm

  process_archive_batch-append :
      (xs ys worm : List AuditEvent)
      → process_archive_batch appends (xs ++ ys) worm
        ≡ after_batch ys (process_archive_batch appends xs worm)
  unfolding process_archive_batch
  process_archive_batch-append [] ys worm = refl
  process_archive_batch-append (x ∷ xs) ys worm = elim (Bool-cases (appends x)) [
    | inl e ↦ rw e (process_archive_batch-append xs ys (worm ++ x ∷ []))
    | inr e ↦ rw e refl
  ]

  full_batch :
      (es : List (Entry AuditEvent)) (older : List AuditEvent) (r : List AuditEvent × Bool)
      → ((w : List AuditEvent)
          → archive_loop threshold appends es [] w ≡ process_archive_batch appends older w)
      → (elim r.1 [ true ↦ archive_loop threshold appends es [] r.0 | false ↦ (r.0, false) ])
        ≡ after_batch older r
  full_batch es older (w, true) later = later w
  full_batch es older (w, false) later = refl

  archive_loop-batches :
      (es : List (Entry AuditEvent)) (batch worm : List AuditEvent)
      → archive_loop threshold appends es batch worm
        ≡ process_archive_batch appends (batch ++ older_than threshold es) worm
  unfolding archive_loop
  archive_loop-batches [] batch worm =
      ap (λ l. process_archive_batch appends l worm) (sym (append_nil batch))
  archive_loop-batches (e ∷ es) batch worm =
      step (leb threshold e.timestamp) (leb 100 (length (batch ++ e.contents ∷ [])))
        (λ w. archive_loop-batches es [] w)
        (archive_loop-batches es (batch ++ e.contents ∷ []) worm)
    where
      filled : List AuditEvent
      filled = batch ++ e.contents ∷ []

      older : List AuditEvent
      older = older_than threshold es

      whole : filled ++ older ≡ batch ++ e.contents ∷ older
      whole = append_snoc batch e.contents older

      step :
          (new full : Bool)
          → ((w : List AuditEvent)
              → archive_loop threshold appends es [] w ≡ process_archive_batch appends older w)
          → archive_loop threshold appends es filled worm
            ≡ process_archive_batch appends (filled ++ older) worm
          → (elim new [
            | true ↦ process_archive_batch appends batch worm
            | false ↦ elim full [
              | true ↦ elim (process_archive_batch appends filled worm).1 [
                | true ↦
                    archive_loop threshold appends es []
                      (process_archive_batch appends filled worm).0
                | false ↦ ((process_archive_batch appends filled worm).0, false)
              ]
              | false ↦ archive_loop threshold appends es filled worm
            ]
          ])
            ≡ process_archive_batch appends (batch ++ (if new then [] else e.contents ∷ older)) worm
      step true full later open_batch =
          ap (λ l. process_archive_batch appends l worm) (sym (append_nil batch))
      step false true later open_batch =
          full_batch es older (process_archive_batch appends filled worm) later
          ∙ (sym (process_archive_batch-append filled older worm)
              ∙ ap (λ l. process_archive_batch appends l worm) whole)
      step false false later open_batch =
          open_batch ∙ ap (λ l. process_archive_batch appends l worm) whole

  -- The events before the first that the repository refuses.
  unfoldable pub taken_by : List AuditEvent → List AuditEvent
  taken_by [] = []
  taken_by (e ∷ es) = let rest = taken_by es in if appends e then e ∷ rest else []

  process_archive_batch-taken :
      (es worm : List AuditEvent)
      → process_archive_batch appends es worm ≡ (worm ++ taken_by es, all appends es)
  unfolding process_archive_batch taken_by
  process_archive_batch-taken [] worm = ap (λ l. (l, true)) (sym (append_nil worm))
  process_archive_batch-taken (e ∷ es) worm = elim (Bool-cases (appends e)) [
    | inl f ↦ rw f (
        process_archive_batch-taken es (worm ++ e ∷ [])
        ∙ ap (λ l. (l, all appends es)) (append_snoc worm e (taken_by es)))
    | inr f ↦ rw f (ap (λ l. (l, false)) (sym (append_nil worm)))
  ]

  -- The archive's batches of a hundred leave no trace: of the first ten thousand events, those before the
  -- first that is not older than the threshold go to the WORM repository one after another, up to the
  -- first that it refuses, and the archive succeeds exactly if it refuses none.
  pub archive_to_cold_storage-batches :
      (t : Timeline AuditEvent) (worm : List AuditEvent)
      → archive_to_cold_storage threshold appends t worm ≡ (
        worm ++ taken_by (older_than threshold (take 10000 t.entries)),
        all appends (older_than threshold (take 10000 t.entries)),
      )
  unfolding archive_to_cold_storage
  archive_to_cold_storage-batches t worm =
      archive_loop-batches (take 10000 t.entries) [] worm
      ∙ process_archive_batch-taken (older_than threshold (take 10000 t.entries)) worm
