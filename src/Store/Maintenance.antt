-- ===== src/Store/Maintenance.antt =====
-- deployables/backend/internal/store/janitor.go and stats.go: the purge of expired rows and the
-- table counts.
use aime.Base.{if◌then◌else◌, ℕ, ◌+◌}
use aime.Base.Lists.{length, select, delete}
use aime.Base.Int.{ℤ, ltb_ℤ, fits_bigint}
use aime.Store.Query.{out_of_range, pg, ok, err, Query, Statement, exec, pure, ◌>>=◌}
use aime.Store.Billing.{sum_sizes}

pub record Purged : Type 0 where
  pub challenges : ℕ
  pub enrollment_tokens : ℕ
  pub sessions : ℕ

unfoldable pub total : Purged → ℕ
total p = p.challenges + p.enrollment_tokens + p.sessions

-- `DELETE FROM … WHERE expires_at < now()`, one table after the other, each on its own.
unfoldable pub purge_challenges : Statement ℕ
purge_challenges now db = ok (
  length (select (λ c. ltb_ℤ c.expires_at now) db.auth_challanges),
  record db { auth_challanges = delete (λ c. ltb_ℤ c.expires_at now) db.auth_challanges },
)

unfoldable pub purge_enrollments : Statement ℕ
purge_enrollments now db = ok (
  length (select (λ t. ltb_ℤ t.expires_at now) db.enrollment_tokens),
  record db { enrollment_tokens = delete (λ t. ltb_ℤ t.expires_at now) db.enrollment_tokens },
)

unfoldable pub purge_sessions : Statement ℕ
purge_sessions now db = ok (
  length (select (λ s. ltb_ℤ s.expires_at now) db.sessions),
  record db { sessions = delete (λ s. ltb_ℤ s.expires_at now) db.sessions },
)

unfoldable pub purge_expired : Query Purged
purge_expired = do
  challenges ← exec purge_challenges
  enrollment_tokens ← exec purge_enrollments
  sessions ← exec purge_sessions
  pure (record {
    challenges = challenges;
    enrollment_tokens = enrollment_tokens;
    sessions = sessions;
  })

pub record TableCounts : Type 0 where
  pub accounts : ℕ
  pub devices : ℕ
  pub active_sessions : ℕ
  pub backups : ℕ
  pub backup_bytes : ℤ

unfoldable pub table_counts : Query TableCounts
table_counts = exec λ now db.
    let bytes = sum_sizes db.backups in
    if fits_bigint bytes
    then ok (
      record {
        accounts = length db.accounts;
        devices = length db.devices;
        active_sessions = length (select (λ s. ltb_ℤ now s.expires_at) db.sessions);
        backups = length db.backups;
        backup_bytes = bytes;
      },
      db,
    )
    else err (pg out_of_range)
