-- ===== src/Http/Gone.antt =====
-- deployables/backend/internal/store/accounts.go: what DeleteAccount leaves in the tables.
use aime.Base.{
  ℕ, ◌==◌, ◌≡◌, refl, ap, ◌∙◌, inl, inr, [], ◌∷◌, List, Bool, true, false, Bool-cases, Option-cases,
  none, some, arith,
}
use aime.Base.Lists.{select, delete, first, exists}
use aime.Base.Int.{ℤ}
use aime.Base.Bytes.{Bytes}
use aime.Auth.{Crypto, verify_password}
use aime.Store.Schema.{Account, Backup, Db}
use aime.Store.Query.{Conn, ok, no_rows, not_found}
use aime.Store.Query.Rules.{Ends, Ends-exec, Ends-bind, Ends-translate, Ends-transaction}
use aime.Store.Billing.{has_id, owned_by, read_account}
use aime.Store.Backups.{is_orphan}
use aime.Store.Accounts.{
  account_auth, delete_account, cascade_account, require_affected, is_among, device_of, session_of,
}
use aime.Http.World.{Response, respond, silent, World}

abbrev pub status_is_no_content : Response → Bool
status_is_no_content (respond status body) = status == 204
status_is_no_content silent = false

-- The tables and the files are as before.
abbrev pub Untouched : World → World → Type 0
Untouched old new = (new.conn.db ≡ old.conn.db) × (new.files ≡ old.files)

-- The password opens the account.
abbrev pub Opens : Crypto → ℕ → Bytes → Db → Type 0
Opens crypto i password db =
    (a : Account) × (first (has_id i) db.accounts ≡ some a)
    × (verify_password crypto password a.password_hash a.password_salt ≡ true)

-- Nothing of the account is left in these tables.
pub record Gone (i : ℕ) (db : Db) : Type 0 where
  pub account : first (has_id i) db.accounts ≡ none
  pub backups : select (owned_by i) db.backups ≡ []
  pub sessions : select (session_of i) db.sessions ≡ []
  pub devices : select (device_of i) db.devices ≡ []

pub first-delete : {A : Type 0} (p : A → Bool) (xs : List A) → first p (delete p xs) ≡ none
first-delete p [] = refl
first-delete p (x ∷ xs) = ground (arith, first-delete p xs, Bool-cases (p x))

pub select-delete : {A : Type 0} (p : A → Bool) (xs : List A) → select p (delete p xs) ≡ []
select-delete p [] = refl
select-delete p (x ∷ xs) = ground (arith, select-delete p xs, Bool-cases (p x))

pub select-delete_more :
    {A : Type 0} (p q : A → Bool) (xs : List A) → select p xs ≡ [] → select p (delete q xs) ≡ []
select-delete_more p q [] h = refl
select-delete_more p q (x ∷ xs) h =
    ground (arith, select-delete_more p q xs, Bool-cases (p x), Bool-cases (q x))

pub cascade_account-Gone :
    (i : ℕ) (now : ℤ) (db new : Db) (found : Bool)
    → cascade_account i now db ≡ ok (found, new)
    → Gone i new
unfolding cascade_account
cascade_account-Gone i now db new found h = elim (Bool-cases (exists (is_orphan rest) rest)) [
  | inl orphaned ↦ absurd (ground arith)
  | inr whole ↦ record {
    account = ap (first (has_id i)) accounts ∙ first-delete (has_id i) db.accounts;
    backups = ap (select (owned_by i)) backups ∙ select-delete (owned_by i) db.backups;
    sessions =
        ap (select (session_of i)) sessions
        ∙ select-delete_more (session_of i) _ (delete (session_of i) db.sessions)
            (select-delete (session_of i) db.sessions);
    devices = ap (select (device_of i)) devices ∙ select-delete (device_of i) db.devices;
  }
]
  where
    rest : List Backup
    rest = delete (owned_by i) db.backups

    accounts : new.accounts ≡ delete (has_id i) db.accounts
    accounts = ground (arith, Bool-cases (exists (is_orphan rest) rest))

    backups : new.backups ≡ rest
    backups = ground (arith, Bool-cases (exists (is_orphan rest) rest))

    devices : new.devices ≡ delete (device_of i) db.devices
    devices = ground (arith, Bool-cases (exists (is_orphan rest) rest))

    sessions :
        new.sessions
        ≡ delete
            (λ s. is_among (select (device_of i) db.devices) s.device_id)
            (delete (session_of i) db.sessions)
    sessions = ground (arith, Bool-cases (exists (is_orphan rest) rest))

pub delete_account-Gone :
    (i : ℕ) (c : Conn) → Ends (λ db. db ≡ c.db) (λ _ db. Gone i db) (delete_account i c)
unfolding delete_account
delete_account-Gone i c =
    Ends-transaction (λ db. db ≡ c.db) (λ _ db. Gone i db) _ c refl
      λ c₀ t.
        Ends-bind (λ _. Unit {0}) (λ _ _. Unit {0}) (λ _ db. Gone i db) _ _
          (Ends-exec (λ _. Unit {0}) (λ _ _. Unit {0}) _ c₀ tt λ _ _ _. tt)
          λ paths c₁ _.
            Ends-bind (λ _. Unit {0}) (λ _ db. Gone i db) (λ _ db. Gone i db) _ _
              (Ends-exec (λ _. Unit {0}) (λ _ db. Gone i db) (cascade_account i) c₁ tt
                λ found db e. cascade_account-Gone i c₁.now c₁.db db found e)
              λ found c₂ gone.
                Ends-bind (λ _. Unit {0}) (λ _ db. Gone i db) (λ _ db. Gone i db) _ _
                  (affected found c₂ gone) (λ _ c₃ g. g)
  where
    affected :
        (b : Bool) (c₂ : Conn)
        → Gone i c₂.db
        → Ends (λ _. Unit {0}) (λ _ db. Gone i db) (require_affected b c₂)
    affected true c₂ g = g
    affected false c₂ g = tt

pub account_auth-value :
    (i : ℕ) (c : Conn)
    → Ends
        (λ db. db ≡ c.db)
        (λ p db.
          (db ≡ c.db)
          × ((a : Account) × (first (has_id i) c.db.accounts ≡ some a)
              × (p ≡ (a.password_hash, a.password_salt))))
        (account_auth i c)
unfolding account_auth
account_auth-value i c =
    Ends-translate (λ db. db ≡ c.db) _ no_rows not_found
      (read_account i (λ a. (a.password_hash, a.password_salt))) c refl
      λ p db e. elim (Option-cases (first (has_id i) c.db.accounts)) [
        | inl none_found ↦ absurd (ground arith)
        | inr (a, found) ↦ (ground arith, (a, found, ground arith))
      ]
