-- ===== src/Http/Frame.antt =====
-- deployables/backend/internal/httpapi/backup.go: what an upload that is refused leaves as it was, and
-- what one that is recorded adds.
use aime.Base.{ℕ, ◌==◌, Option, ◌≡◌, refl, ◌⊎◌, ◌∷◌, [], List, Bool, false, arith}
use aime.Base.Lists.{delete, exists}
use aime.Base.Int.{ℤ, pos, ◌<ℤ◌}
use aime.Base.Bytes.{Bytes, bytes_eq}
use aime.Billing.{Ledger, precheck}
use aime.Store.Schema.{Backup, Db}
use aime.Store.Query.{Conn, Query, Statement, ok, exec}
use aime.Store.Query.Rules.{Ends, Ends-exec, Ends-bind, Ends-if}
use aime.Store.Billing.{storage_used, balance, scan_sum, read_account, owned_by}
use aime.Store.Backups.{NewBackup, Quota, count_backups}
use aime.Store.Backups.Created.{Created}
use aime.Http.World.{Response, respond, silent, World, uploaded}
use aime.Http.Rules.{Runs, goes_on, stops}
use aime.Http.Uploads.{
  parse_backup_meta, parse_backup_parent, Parsed, parsed_header, taken, bad, Upload, Written,
  too_big, write_failed, stored,
}

abbrev pub status_is_created : Response → Bool
status_is_created (respond status body) = status == 201
status_is_created silent = false

-- The world but for its counters and what the connection still fails.
pub record Frame (old new : World) : Type 0 where
  pub tables : new.conn.db ≡ old.conn.db
  pub files : new.files ≡ old.files
  pub stuck : new.stuck ≡ old.stuck
  pub slots : new.upload_slots ≡ old.upload_slots
  pub accounts : new.uploading ≡ old.uploading

pub Frame-refl : (w : World) → Frame w w
Frame-refl w = record { tables = refl; files = refl; stuck = refl; slots = refl; accounts = refl }

pub Frame-conn :
    (old w : World) (c : Conn)
    → Frame old w
    → c.db ≡ old.conn.db
    → Frame old (record w { conn = c })
Frame-conn old w c f e = record {
  tables = e;
  files = f.files;
  stuck = f.stuck;
  slots = f.slots;
  accounts = f.accounts;
}

-- A refusal of an upload: no 201, and everything as before.
abbrev pub Refused : World → Bytes × Response → World → Type 0
Refused old x w = (status_is_created x.1 ≡ false) × Frame old w

-- A query that only reads.
abbrev pub Reads : {A : Type 0} → Query A → Type 0
Reads q = (c : Conn) → Ends (λ db. db ≡ c.db) (λ _ db. db ≡ c.db) (q c)

pub read_only :
    {A : Type 0} (s : Statement A)
    → ((now : ℤ) (db db' : Db) (a : A) → s now db ≡ ok (a, db') → db' ≡ db)
    → Reads (exec s)
read_only s h c =
    Ends-exec (λ db. db ≡ c.db) (λ _ db. db ≡ c.db) s c refl λ a db e. h c.now c.db db a e

pub storage_used-Reads : (i : ℕ) → Reads (storage_used i)
unfolding storage_used scan_sum
storage_used-Reads i = read_only (scan_sum (owned_by i)) λ now db db' a e. ground arith

pub count_backups-Reads : (i : ℕ) → Reads (count_backups i)
unfolding count_backups
count_backups-Reads i = read_only _ λ now db db' a e. ground arith

pub balance-Reads : (i : ℕ) → Reads (balance i)
unfolding balance
balance-Reads i =
    read_only (read_account i (λ a. a.balance_microcredits)) λ now db db' a e. ground arith

pub precheck-Reads : (l : Ledger) (i : ℕ) → Reads (precheck l i)
unfolding precheck
precheck-Reads l i c =
    Ends-if (λ db. db ≡ c.db) (λ _ db. db ≡ c.db) l.enforce _ _ c
      (λ _.
        Ends-bind (λ db. db ≡ c.db) (λ _ db. db ≡ c.db) (λ _ db. db ≡ c.db) _ (balance i c)
          (balance-Reads i c) (λ _ _ h. h))
      (λ _. refl)

pub parsed_header-Refused :
    {A : Type 0} (p : Parsed A) (old w : World)
    → Frame old w
    → Runs (Refused old) (λ a w'. (p ≡ taken a) × Frame old w') (parsed_header p w)
parsed_header-Refused (taken a) old w h = goes_on (refl, h)
parsed_header-Refused (bad m) old w h = stops (refl, h)

pub delete-none : {A : Type 0} (p : A → Bool) (xs : List A) → exists p xs ≡ false → delete p xs ≡ xs
delete-none p [] h = refl
delete-none p (x ∷ xs) h = ground (arith, delete-none p xs)

-- The path of the new file is drawn from 128 random bits: no file has it, and the file system lets
-- the server remove what it wrote.
abbrev pub IsFresh : Written → World → Type 0
IsFresh too_big w = Unit
IsFresh write_failed w = Unit
IsFresh (stored rel size sum) w = (exists (bytes_eq rel) w.files ≡ false) × (w.stuck rel ≡ false)

-- An upload that was recorded: the row that `CreateBackup` made, under the file that came in full
-- and has the declared checksum, with the metadata and the parent of the headers.
abbrev pub Recorded :
    (Bytes → Option Bytes)
    → ℕ
    → Quota
    → Upload
    → Written
    → World
    → Bytes × Response
    → World
    → Type 0
Recorded compact i q up written old x new =
    (rel sum : Bytes) × (size : ℤ) × (nb : NewBackup) × (b : Backup) × (n : ℤ) × (written
      ≡ stored rel size sum)
    × (x.1 ≡ respond 201 (uploaded b n))
    × (nb.storage_path ≡ rel)
    × (nb.size_bytes ≡ size)
    × (nb.checksum ≡ sum)
    × (parse_backup_meta compact up.meta_header ≡ taken nb.meta)
    × (parse_backup_parent up.parent_header ≡ taken nb.parent_id)
    × (pos 0 <ℤ size)
    × ((up.checksum_header ≡ []) ⊎ (up.checksum_header ≡ sum))
    × Created i q nb old.conn.db b new.conn.db
    × (new.files ≡ rel ∷ old.files)
    × (new.upload_slots ≡ old.upload_slots)
    × (new.uploading ≡ old.uploading)
