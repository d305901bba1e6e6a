-- ===== src/Store/Calls/Chain.antt =====
-- The version chain of the backups through every history of store calls.
use aime.Base.{ℕ, suc, ◌≡◌, refl, sym, subst, Bool, true, false, none, List, ◌∷◌, arith}
use aime.Base.Lists.{update, delete}
use aime.Base.Member.{In, In-delete}
use aime.Base.Int.{ℤ, pos}
use aime.Base.Bytes.{Bytes}
use aime.Store.Schema.{Account, Backup, Db}
use aime.Store.Query.{
  Conn, Result, Statement, ok, err, exec, translate, PgError, StoreError, unique_violation,
  email_taken, ◌>>=◌,
}
use aime.Store.Query.Rules.{
  Ends, Ends-exec, Ends-bind, Ends-rename, Ends-transaction, Ends-weaken, ok-tables,
}
use aime.Store.Billing.{has_id, owned_by, add_credits}
use aime.Store.Backups.Chain.{IsChained, IsChained-Quiet, Quiet-accounts, set_balance-Quiet}
use aime.Store.Backups.Remove.{kept-IsChained}
use aime.Store.Accounts.{
  insert_account, create_account, set_password, update_password, cascade_account, delete_account,
  require_affected,
}
use aime.Store.Calls.{tables}

-- A statement that keeps the chain.
abbrev pub Calm : {A : Type 0} → Statement A → Type 0
Calm {A} s = (now : ℤ) (db new : Db) (a : A) → s now db ≡ ok (a, new) → IsChained db → IsChained new

-- Tables with the same accounts, backups and counters.
pub untouched :
    (db new : Db)
    → (new.accounts ≡ db.accounts)
      × (new.backups ≡ db.backups)
      × (new.next_account ≡ db.next_account)
      × (new.next_backup ≡ db.next_backup)
    → IsChained db
    → IsChained new
untouched db new (accounts, rows, owners, serial) h =
    IsChained-Quiet db new
      (record {
        rows = rows;
        serial = serial;
        owners = owners;
        accounts = λ a m. (a, subst (In a) accounts m, refl, refl);
      })
      h

module _ {A : Type 0} where
  pub IsChained-tables :
      (r : Result A × Conn) → Ends IsChained (λ _. IsChained) r → IsChained (tables r)
  IsChained-tables (ok a, c) h = h
  IsChained-tables (err e, c) h = h

  pub exec-IsChained :
      (s : Statement A) (c : Conn)
      → Calm s
      → IsChained c.db
      → Ends IsChained (λ _. IsChained) (exec s c)
  exec-IsChained s c calm h =
      Ends-exec IsChained (λ _. IsChained) s c h (λ a db e. calm c.now c.db db a e h)

  pub translate-IsChained :
      (p : PgError) (x : StoreError) (s : Statement A) (c : Conn)
      → Calm s
      → IsChained c.db
      → Ends IsChained (λ _. IsChained) (translate p x (exec s) c)
  translate-IsChained p x s c calm h =
      Ends-rename IsChained (λ _. IsChained) p x (exec s c) (exec-IsChained s c calm h)

pub require-IsChained :
    (b : Bool) (c : Conn) → IsChained c.db → Ends IsChained (λ _. IsChained) (require_affected b c)
require-IsChained true c h = h
require-IsChained false c h = h

pub affected-IsChained :
    (s : Statement Bool) (c : Conn)
    → Calm s
    → IsChained c.db
    → Ends IsChained (λ _. IsChained) ((exec s >>= require_affected) c)
affected-IsChained s c calm h =
    Ends-bind IsChained (λ _. IsChained) (λ _. IsChained) require_affected _
      (exec-IsChained s c calm h) require-IsChained

-- A new account with the next id.
joined-IsChained :
    (a : Account) (db : Db)
    → a.id ≡ db.next_account
    → IsChained db
    → IsChained (record db { accounts = a ∷ db.accounts; next_account = suc db.next_account })
joined-IsChained a db at h = record {
  known = λ x m. ground (arith, h.known x);
  one_counter = λ x y m n same. ground (arith, h.one_counter x y, h.known x, h.known y);
  owned = λ b m. omega (arith, h.owned b m);
  fresh = h.fresh;
  id_unique = h.id_unique;
  version_unique = h.version_unique;
  counted = λ x b m n same. ground (arith, h.counted x b, h.owned b n);
  kinds = h.kinds;
  linked = h.linked;
}

insert_account-Calm : (email hash salt : Bytes) → Calm (insert_account email hash salt)
unfolding insert_account
insert_account-Calm email hash salt now db new id e h =
    let made : record db { accounts = row ∷ db.accounts; next_account = suc db.next_account }
        ≡ new =
      ground arith in
    subst IsChained made (joined-IsChained row db refl h)
  where
    row : Account
    row = record {
      id = db.next_account;
      email = email;
      password_hash = hash;
      password_salt = salt;
      balance_microcredits = pos 0;
      created_at = now;
      storage_billed_at = none;
      backup_version_seq = 0;
    }

set_password-Calm : (id : ℕ) (hash salt : Bytes) → Calm (set_password id hash salt)
unfolding set_password
set_password-Calm id hash salt now db new b e h =
    let made : record db { accounts = update (has_id id) f db.accounts } ≡ new = ground arith in
    subst IsChained made (IsChained-Quiet db _ (Quiet-accounts db id f (λ _. refl) (λ _. refl)) h)
  where
    f : Account → Account
    f a = record a { password_hash = hash; password_salt = salt }

-- The account and all that names it go; the rest keeps its chain.
cascade_account-Calm : (id : ℕ) → Calm (cascade_account id)
unfolding cascade_account
cascade_account-Calm id now db new b e h =
    IsChained-Quiet (record db { backups = rest }) new
      (record {
        rows = ground arith;
        serial = ground arith;
        owners = ground arith;
        accounts = λ a m.
            let accounts : new.accounts ≡ delete (has_id id) db.accounts = ground arith in
            (a, (In-delete (has_id id) a db.accounts (subst (In a) accounts m)).0, refl, refl);
      })
      (kept-IsChained (owned_by id) db h (ground arith))
  where
    rest : List Backup
    rest = delete (owned_by id) db.backups

delete_account-IsChained :
    (id : ℕ) (c : Conn) → IsChained c.db → Ends IsChained (λ _. IsChained) (delete_account id c)
unfolding delete_account
delete_account-IsChained id c h =
    Ends-transaction IsChained (λ _. IsChained) _ c h
      λ c₀ t.
        Ends-bind U (λ _. IsChained) (λ _. IsChained) _ _
          (Ends-exec U (λ _. IsChained) _ c₀ tt
            λ paths db e. subst IsChained (ok-tables e).1 (subst IsChained (sym t) h))
          λ paths c₁ h₁.
            Ends-bind U (λ _. IsChained) (λ _. IsChained) _ _
              (Ends-exec U (λ _. IsChained) (cascade_account id) c₁ tt
                λ b db e. cascade_account-Calm id c₁.now c₁.db db b e h₁)
              λ b c₂ h₂.
                Ends-bind U (λ _. IsChained) (λ _. IsChained) _ _
                  (Ends-weaken U (λ _. IsChained) IsChained (λ _. IsChained) _
                    (require-IsChained b c₂ h₂) (λ _ _. tt) (λ _ _ g. g))
                  (λ _ _ g. g)
  where
    U : Db → Type 0
    U _ = Unit {0}

-- The calls on accounts and their balances.
pub accounts-IsChained :
    (email hash salt : Bytes) (id : ℕ) (amount : ℤ) (c : Conn)
    → IsChained c.db
    → IsChained (tables (create_account email hash salt c))
      × IsChained (tables (update_password id hash salt c))
      × IsChained (tables (delete_account id c))
      × IsChained (tables (add_credits id amount c))
unfolding create_account update_password add_credits
accounts-IsChained email hash salt id amount c h = (
  IsChained-tables _ (
      translate-IsChained unique_violation email_taken _ c (insert_account-Calm email hash salt) h),
  IsChained-tables _ (affected-IsChained _ c (set_password-Calm id hash salt) h),
  IsChained-tables _ (delete_account-IsChained id c h),
  IsChained-tables _ (
      exec-IsChained _ c
        (λ now db new b e. IsChained-Quiet db new (set_balance-Quiet id _ now db new b e)) h),
)
