-- ===== src/Batch/Account.antt =====
-- batch.go: a transaction knows of the batches that are queued and not sent.
use sequel.Base.{ℕ, Bool, List, [], ◌∷◌, if◌then◌else◌}
use sequel.Batch.{BatchItem, Batch}

-- 1 for a batch that is queued and not sent.
abbrev pub pending : Batch → ℕ
pending b = if b.sent then 0 else (elim b.items [ [] ↦ 0 | i ∷ is ↦ 1 ])

abbrev batch_of : List BatchItem → Bool → Batch
batch_of items sent = record { items = items; sent = sent }
