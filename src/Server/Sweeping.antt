-- ===== src/Server/Sweeping.antt =====
-- deployables/backend/cmd/server/main.go: runBackupSweep over the store and the blobs.
use aime.Base.{
  Bool, true, false, List, [], ◌∷◌, map, ◌≡◌, ◌≢◌, ◌⊎◌, refl, inl, inr, Bool-cases, arith,
}
use aime.Base.Lists.{exists}
use aime.Base.Member.{In}
use aime.Base.Int.{ℤ, ltb_ℤ, ◌-ℤ◌}
use aime.Base.Bytes.{Bytes, bytes_eq_refl}
use aime.Store.Schema.{Db, Backup}
use aime.Store.Query.{head_fault, exec}
use aime.Store.Backups.{all_storage_paths}
use aime.Blobs.Disk.{directory, regular, Entry, is_at}
use aime.Blobs.Sweep.{rel_to, is_left, is_unreadable}
use aime.Blobs.Sweep.Kept.{IsDistinct, IsFree, sweep-Sweeps, sweep_ends}
use aime.Server.{Background, is_known, run_backup_sweep}

-- The paths of the rows.
abbrev pub paths : Db → List Bytes
paths db = map (λ b. b.storage_path) db.backups

known-row :
    (b : Backup) (rows : List Backup)
    → In b rows
    → is_known (map (λ x. x.storage_path) rows) b.storage_path ≡ true
known-row b [] i = absurd i
known-row b (x ∷ xs) (inl e) = rw (e, bytes_eq_refl x.storage_path) refl
known-row b (x ∷ xs) (inr i) = rw (known-row b xs i) (ground arith)

-- What a turn of the sweep may do.
pub record SweepEnd (root : Bytes) (min_age clock : ℤ) (s t : Background) : Type 0 where
  pub tables : t.conn.db ≡ s.conn.db
  pub unread : (head_fault s.conn.faults ≡ false) ⊎ (t.disk ≡ s.disk)
  pub rows :
      (b : Backup) (e : Entry)
      → In b s.conn.db.backups
      → In e s.disk.entries
      → e.kind ≢ directory
      → rel_to root e.path ≡ b.storage_path
      → In e t.disk.entries
  pub young :
      (e : Entry)
      → In e s.disk.entries
      → e.kind ≢ directory
      → ltb_ℤ (clock -ℤ min_age) e.mod_time ≡ true
      → In e t.disk.entries

known-left :
    (root : Bytes) (known : List Bytes) (cutoff : ℤ) (e : Entry)
    → is_known known (rel_to root e.path) ≡ true
    → is_left root (is_known known) cutoff e ≡ true
known-left root known cutoff e h = ground arith

young-left :
    (root : Bytes) (known : List Bytes) (cutoff : ℤ) (e : Entry)
    → ltb_ℤ cutoff e.mod_time ≡ true
    → is_left root (is_known known) cutoff e ≡ true
young-left root known cutoff e h = ground arith

module _ (root : Bytes) (listed : Bool) (min_age clock : ℤ) (s : Background)
    (distinct : IsDistinct s.disk.entries) where
  -- A turn of the sweep changes no table; no file (nothing but a directory) that a row names is removed,
  -- and none that is younger than `min_age`; when the rows cannot be read, the disk is as before.
  pub run_backup_sweep-SweepEnd :
      SweepEnd root min_age clock s (run_backup_sweep root listed min_age clock s)
  unfolding run_backup_sweep all_storage_paths exec
  run_backup_sweep-SweepEnd = elim (Bool-cases (head_fault s.conn.faults)) [
    | inl e ↦
        rw e (record {
          tables = refl;
          unread = inr refl;
          rows = λ b e i j n q. j;
          young = λ e i n q. i;
        })
    | inr e ↦
        let k =
          sweep-Sweeps root listed (is_known (paths s.conn.db)) min_age clock s.disk distinct in
        rw e (record {
          tables = refl;
          unread = inl e;
          rows = λ b e i j n q. k.left e j n (
              known-left root (paths s.conn.db) (clock -ℤ min_age) e
                (rw q (known-row b s.conn.db.backups i)));
          young =
              λ e i n q. k.left e i n (young-left root (paths s.conn.db) (clock -ℤ min_age) e q);
        })
  ]

  -- Where the rows and the directories can be read, a turn of the sweep removes every old file that no
  -- row names and that the system lets go.
  pub run_backup_sweep_clears :
      (e : Entry)
      → listed ≡ true
      → head_fault s.conn.faults ≡ false
      → ((x : Entry) → In x s.disk.entries → is_unreadable x ≡ false)
      → In e s.disk.entries
      → e.kind ≡ regular
      → ltb_ℤ (clock -ℤ min_age) e.mod_time ≡ false
      → is_known (paths s.conn.db) (rel_to root e.path) ≡ false
      → IsFree s.disk e
      → exists (is_at e.path) (run_backup_sweep root listed min_age clock s).disk.entries ≡ false
  unfolding run_backup_sweep all_storage_paths exec
  run_backup_sweep_clears e readable sound clear i kind old orphan free =
      rw (run_backup_sweep, sound)
        ((sweep-Sweeps root listed (is_known (paths s.conn.db)) min_age clock s.disk distinct).gone
          (sweep_ends root listed (is_known (paths s.conn.db)) min_age clock s.disk readable clear)
          e i (rw (kind, old, orphan) refl) free)
