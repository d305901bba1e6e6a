-- ===== src/Store/Calls/History.antt =====
-- Every history of store calls keeps the version chain.
use aime.Base.{ℕ, ◌≡◌, sym, subst, false, Bool, none, List, [], ◌∷◌}
use aime.Base.Int.{ℤ, pos}
use aime.Base.Float.{Float64}
use aime.Store.Schema.{Db}
use aime.Store.Query.{Conn}
use aime.Store.Query.Rules.{Ends-bind, Ends-weaken}
use aime.Store.Billing.{StoragePricer, charge, settle_storage}
use aime.Store.Backups.Chain.{IsChained, Quiet}
use aime.Store.Backups.Created.{Created, create_backup-Created}
use aime.Store.Backups.Removed.{Deleted, Pruned, delete_backup-Deleted, prune_backups-Pruned}
use aime.Store.Calls.{
  Call, creates_account, updates_password, deletes_account, charges, adds_credits, settles,
  creates_backup, deletes_backup, prunes, creates_device, touches_device, renames_device,
  deletes_device, creates_challenge, consumes_challenge, creates_enrollment, consumes_enrollment,
  creates_session, deletes_session, deletes_sessions, purges, tables, step, run, empty,
}
use aime.Store.Calls.Chain.{IsChained-tables, accounts-IsChained}
use aime.Store.Query.Rules.{Ends-transaction}
use aime.Store.Billing.Settle.{lock_account-Then}
use aime.Store.Backups.Chain.{Quiet-refl, charge_tx-Quiet, IsChained-Quiet}
use aime.Store.Backups.Removed.{settled-Then}
use aime.Store.Schema.{UsageEvent}
use aime.Store.Backups.{NewBackup, Quota}
use aime.Store.Backups.Transactions.{create_backup, delete_backup, prune_backups}
use aime.Store.Calls.Untouched.{
  devices-IsChained, challenges-IsChained, tokens-IsChained, purge_expired-IsChained,
}

U : Db → Type 0
U _ = Unit {0}

charge-IsChained :
    (i : ℕ) (ev : UsageEvent) (c : Conn) → IsChained c.db → IsChained (tables (charge i ev c))
unfolding charge U
charge-IsChained i ev c h = IsChained-tables _ (
    Ends-transaction IsChained (λ _. IsChained) _ c h
      λ c₀ t.
        Ends-weaken U (λ _. IsChained) U (λ _. Quiet c.db) _
          (charge_tx-Quiet c.db i ev c₀ (subst (Quiet c.db) (sym t) (Quiet-refl c.db))) (λ _ _. tt)
          (λ _ new q. IsChained-Quiet c.db new q h))

abbrev no_quota : Quota
no_quota = record { max_versions = 0; free_bytes = pos 0; enforce = false; total_cap_bytes = pos 0 }

abbrev no_backup : NewBackup
no_backup = record {
  parent_id = none;
  storage_path = [];
  size_bytes = pos 0;
  checksum = [];
  meta = [];
}

module _ (fl : Float64) (pricer : StoragePricer) where
  settle_storage-IsChained :
      (i : ℕ) (clock : ℤ) (c : Conn)
      → IsChained c.db
      → IsChained (tables (settle_storage fl i pricer clock c))
  unfolding settle_storage U
  settle_storage-IsChained i clock c h = IsChained-tables _ (
      Ends-transaction IsChained (λ _. IsChained) _ c h
        λ c₀ t.
          Ends-bind U (λ _ db. db ≡ c.db) (λ _. IsChained) _ _
            (lock_account-Then (λ db. db ≡ c.db) i c₀ t)
            λ _ c₁ t₁.
              Ends-bind U (λ _ db. IsChained db × (db.backups ≡ c.db.backups)) (λ _. IsChained) _ _
                (settled-Then fl i pricer clock c.db c₁ h t₁) (λ _ _ g. g.0))

  backups-IsChained :
      (i id n : ℕ) (q : Quota) (nb : NewBackup) (clock : ℤ) (c : Conn)
      → IsChained c.db
      → IsChained (tables (create_backup fl i q pricer clock nb c))
        × IsChained (tables (delete_backup fl i id pricer clock c))
        × IsChained (tables (prune_backups fl i n pricer clock c))
  backups-IsChained i id n q nb clock c h = (
    IsChained-tables (create_backup fl i q pricer clock nb c) (
        Ends-weaken IsChained (λ _. IsChained) (λ db. db ≡ c.db) (Created i q nb c.db)
          (create_backup fl i q pricer clock nb c)
          (create_backup-Created fl i q pricer clock nb c h) rolled_back
          (λ b new made. made.2.chained)),
    IsChained-tables (delete_backup fl i id pricer clock c) (
        Ends-weaken IsChained (λ _. IsChained) (λ db. db ≡ c.db) (Deleted fl i pricer clock id c.db)
          (delete_backup fl i id pricer clock c) (delete_backup-Deleted fl i pricer clock id c h)
          rolled_back (λ b new gone. gone.0)),
    IsChained-tables (prune_backups fl i n pricer clock c) (
        Ends-weaken IsChained (λ _. IsChained) (λ db. db ≡ c.db) (Pruned fl i pricer clock n c.db)
          (prune_backups fl i n pricer clock c) (prune_backups-Pruned fl i pricer clock n c h)
          rolled_back (λ b new gone. gone.1)),
  )
    where
      rolled_back : (db : Db) → db ≡ c.db → IsChained db
      rolled_back db e = subst IsChained (sym e) h

  -- Every store call that writes keeps the chain, whether it succeeds or fails.
  pub step-IsChained : (call : Call) (c : Conn) → IsChained c.db → IsChained (step fl pricer call c)
  unfolding step
  step-IsChained (creates_account email hash salt) c h =
      (accounts-IsChained email hash salt 0 (pos 0) c h).0
  step-IsChained (updates_password id hash salt) c h =
      (accounts-IsChained [] hash salt id (pos 0) c h).1
  step-IsChained (deletes_account id) c h = (accounts-IsChained [] [] [] id (pos 0) c h).2
  step-IsChained (charges id ev) c h = charge-IsChained id ev c h
  step-IsChained (adds_credits id amount) c h = (accounts-IsChained [] [] [] id amount c h).3
  step-IsChained (settles id clock) c h = settle_storage-IsChained id clock c h
  step-IsChained (creates_backup id q clock nb) c h = (backups-IsChained id 0 0 q nb clock c h).0
  step-IsChained (deletes_backup i id clock) c h =
      (backups-IsChained i id 0 no_quota no_backup clock c h).1
  step-IsChained (prunes i n clock) c h = (backups-IsChained i 0 n no_quota no_backup clock c h).2
  step-IsChained (creates_device i name alg key) c h = (devices-IsChained i 0 name alg key c h).0
  step-IsChained (touches_device id) c h = (devices-IsChained 0 id [] [] [] c h).1
  step-IsChained (renames_device i id name) c h = (devices-IsChained i id name [] [] c h).2
  step-IsChained (deletes_device i id) c h = (devices-IsChained i id [] [] [] c h).3
  step-IsChained (creates_challenge d nonce ttl) c h = (challenges-IsChained d nonce ttl c h).0
  step-IsChained (consumes_challenge id nonce) c h = (challenges-IsChained id nonce (pos 0) c h).1
  step-IsChained (creates_enrollment i hash source ttl) c h =
      (tokens-IsChained i 0 hash source ttl none c h).0
  step-IsChained (consumes_enrollment hash) c h = (tokens-IsChained 0 0 hash [] (pos 0) none c h).1
  step-IsChained (creates_session i d hash ttl) c h = (tokens-IsChained i d hash [] ttl none c h).2
  step-IsChained (deletes_session hash) c h = (tokens-IsChained 0 0 hash [] (pos 0) none c h).3
  step-IsChained (deletes_sessions i keep) c h = (tokens-IsChained i 0 [] [] (pos 0) keep c h).4
  step-IsChained purges c h = purge_expired-IsChained c h

  run-IsChained :
      (calls : List (ℤ × List Bool × Call)) (db : Db)
      → IsChained db
      → IsChained (run fl pricer calls db)
  unfolding run
  run-IsChained [] db h = h
  run-IsChained ((now, faults, call) ∷ rest) db h =
      run-IsChained rest _ (step-IsChained call (record { db = db; now = now; faults = faults }) h)

  -- After any history of store calls on fresh tables, at any times and under any faults, the
  -- backups are chained: versions of an account are distinct and at most its counter, and every
  -- delta stands on a present row of its account with no version in between.
  pub run-empty-IsChained :
      (calls : List (ℤ × List Bool × Call)) → IsChained (run fl pricer calls empty)
  run-empty-IsChained calls = run-IsChained calls empty (record {
    known = λ a m. absurd m;
    one_counter = λ a a' m. absurd m;
    owned = λ b m. absurd m;
    fresh = λ b m. absurd m;
    id_unique = λ b c m. absurd m;
    version_unique = λ b c m. absurd m;
    counted = λ a b m. absurd m;
    kinds = λ b m. absurd m;
    linked = λ b p m. absurd m;
  })
