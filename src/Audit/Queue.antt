-- ===== src/Audit/Queue.antt =====
-- The queue of the service: entries are taken in their order, and an exception loses none.
use Prim.Native.String.{String}
use counter_terrorist.Common.{
  Bool, List, Option, [], err, false, none, ok, some, string_eq, true, ◌++◌, ◌∷◌, ◌≡◌, ◌⊎◌,
}
use counter_terrorist.AuditVerifier.{AuditEvent}
use counter_terrorist.Audit.{
  Audit, Entry, Turn, counting, mirroring, saving_batch, sealing, waiting,
}
use counter_terrorist.Audit.Process.{Answers, seal_entry}

-- The entries that are not yet events, first the next one.
abbrev pub pending : Audit → List Entry
pending s = s.current ++ s.log_queue

-- The two parts of the queue after an event is appended.
abbrev Queues : Type 0
Queues = List Entry × List Entry

abbrev queues : Audit → Queues
queues s = (s.current, s.log_queue)

abbrev pending_of : Queues → List Entry
pending_of q = q.0 ++ q.1

module _ (sha256_hex : String → String) where
  -- How far a step gets that makes no event: an entry's turn begins, or its hash or its signature failed
  -- and `processQueue` ends.
  abbrev pub Advances : Answers → Audit → Audit → Turn → List Entry → Type 0
  Advances a s t waiting (e ∷ es) = t.turn ≡ sealing s.last_hash
  Advances a s t (sealing prev_hash) (e ∷ es) =
      ((x : String) × (seal_entry sha256_hex a prev_hash e ≡ err x))
      × (t.turn ≡ waiting)
      × (t.is_processing_queue ≡ false)
  Advances a s t waiting [] = Unit
  Advances a s t (sealing prev_hash) [] = Unit
  Advances a s t (counting event) es = t.turn ≡ mirroring event
  Advances a s t (mirroring event) es = (t.turn ≡ waiting) ⊎ (t.turn ≡ saving_batch)
  Advances a s t saving_batch es = Unit

  -- What a step of the queue does to the entries that are not yet events.
  abbrev pub Takes : Answers → Audit → Audit → Option AuditEvent → Type 0
  Takes a s t none =
      (pending t ≡ pending s) × (s.is_processing_queue ≡ true → Advances a s t s.turn s.current)
  Takes a s t (some event) =
      (prev_hash : String) × (e : Entry) × (s.turn ≡ sealing prev_hash)
      × (pending s ≡ e ∷ pending t)
      × (seal_entry sha256_hex a prev_hash e ≡ ok event)
