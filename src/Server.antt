-- ===== src/Server.antt =====
-- deployables/backend/cmd/server/main.go: one turn of each background loop, while the server's context
-- lives. A loop's ticker and its logging are left out.
pub mod Sweeping
use aime.Base.{ℕ, ltb, Bool, List, [], ◌∷◌, if◌then◌else◌}
use aime.Base.Lists.{exists}
use aime.Base.Int.{ℤ}
use aime.Base.Bytes.{Bytes, bytes, bytes_eq}
use aime.Base.Float.{Float64}
use aime.Billing.{Ledger, StorageBillingReport, bill_storage}
use aime.Store.Query.{Conn, Result, ok, err}
use aime.Store.Backups.{all_storage_paths}
use aime.Store.Maintenance.{Purged, TableCounts, total, purge_expired, table_counts}
use aime.Blobs.Disk.{Disk}
use aime.Blobs.Sweep.{Swept, sweep}

-- What the loops add to the counters, and the gauges that they set.
pub data LoopMetric : Type 0 where
  purged : Bytes → ℕ → LoopMetric
  tables : TableCounts → LoopMetric
  storage_billed : ℕ → ℤ → LoopMetric
  swept : ℕ → ℤ → LoopMetric

pub record Background : Type 0 where
  pub conn : Conn
  pub disk : Disk
  pub metrics : List LoopMetric

abbrev purge_metrics : Result Purged → List LoopMetric → List LoopMetric
purge_metrics (err e) ms = ms
purge_metrics (ok p) ms =
    if ltb 0 (total p)
    then purged (bytes "sessions") p.sessions
      ∷ (purged (bytes "enrollment_tokens") p.enrollment_tokens
          ∷ (purged (bytes "auth_challanges") p.challenges ∷ ms))
    else ms

abbrev count_metrics : Result TableCounts → List LoopMetric → List LoopMetric
count_metrics (err e) ms = ms
count_metrics (ok c) ms = tables c ∷ ms

-- A turn of `runJanitor`.
unfoldable pub run_janitor : Background → Background
run_janitor s =
    let (purge, c) = purge_expired s.conn in
    let (counts, c') = table_counts c in
    record s { conn = c'; metrics = count_metrics counts (purge_metrics purge s.metrics) }

-- A turn of `runStorageBilling`: what was billed before an error is counted as well.
unfoldable pub run_storage_billing : Float64 → Ledger → ℤ → Background → Background
run_storage_billing fl ledger clock s =
    let (r, rep, c) = bill_storage fl ledger clock s.conn in
    record s { conn = c; metrics = storage_billed rep.accounts rep.microcredits ∷ s.metrics }

abbrev pub is_known : List Bytes → Bytes → Bool
is_known known rel = exists (bytes_eq rel) known

abbrev pub swept_disk : Background → Swept → Background
swept_disk s r = record s {
  disk = r.disk;
  metrics =
      if ltb 0 (r.result.files)
      then swept (r.result.files) (r.result.bytes) ∷ s.metrics
      else s.metrics;
}

abbrev pub sweep_known : Bytes → Bool → ℤ → ℤ → Background → Result (List Bytes) × Conn → Background
sweep_known root listed min_age clock s (err e, c) = record s { conn = c }
sweep_known root listed min_age clock s (ok known, c) =
    swept_disk (record s { conn = c }) (sweep root listed (is_known known) min_age clock s.disk)

-- A turn of `runBackupSweep`.
unfoldable pub run_backup_sweep : Bytes → Bool → ℤ → ℤ → Background → Background
run_backup_sweep root listed min_age clock s =
    sweep_known root listed min_age clock s (all_storage_paths s.conn)
