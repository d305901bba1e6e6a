-- ===== src/Http/Guarded.antt =====
-- deployables/backend/internal/httpapi/account.go: the deletion of an account behind its password.
use aime.Base.{
  ℕ, ◌==◌, ◌≡◌, refl, sym, ap, subst, ◌∙◌, inl, inr, ◌⊎◌, [], ◌∷◌, List, Bool, true, false, not,
  Option-cases, Option, none, some, arith,
}
use aime.Base.Lists.{first}
use aime.Base.Bytes.{Bytes}
use aime.Auth.{Crypto, verify_password}
use aime.Store.Schema.{Account}
use aime.Store.Query.{
  StoreError, not_found, email_taken, challenge_invalid, enrollment_invalid, backup_limit,
  backup_in_use, backup_stale, backup_boundary, storage_quota, storage_full, pg,
}
use aime.Store.Billing.{has_id}
use aime.Http.World.{Response, World, Identity, if_missing, fail_with, unauthorized, remove_files}
use aime.Http.Rules.{Runs, goes_on, stops, Runs-bind, Runs-next, Runs-store, Runs-when}
use aime.Http.Login.{ArgonSlot, acquired, timed_out, client_gone, with_argon}
use aime.Http.Account.{verify_account_password, handle_delete_account}
use aime.Http.Gone.{
  status_is_no_content, Untouched, Opens, Gone, delete_account-Gone, account_auth-value,
}

module _ (crypto : Crypto) (i : ℕ) (old : World) (Done : World → Type 0) where
  -- A 204 comes with what was to be done, any other response with nothing changed.
  abbrev pub GuardEnd : Response → World → Type 0
  GuardEnd r new =
      ((status_is_no_content r ≡ true) × Done new)
      ⊎ ((status_is_no_content r ≡ false) × Untouched old new)

  refused :
      {A : Type 0} {Q : A → World → Type 0} {n : ℕ} {m : Bytes} (w : World)
      → (n == 204) ≡ false
      → Untouched old w
      → Runs GuardEnd Q (fail_with n m w)
  refused w h f = stops (inr (h, f))

  if_missing-refused :
      {A : Type 0} {Q : A → World → Type 0} (e : StoreError) (w : World)
      → Untouched old w
      → Runs GuardEnd Q (if_missing unauthorized e w)
  if_missing-refused not_found w f = refused w refl f
  if_missing-refused email_taken w f = refused w refl f
  if_missing-refused challenge_invalid w f = refused w refl f
  if_missing-refused enrollment_invalid w f = refused w refl f
  if_missing-refused backup_limit w f = refused w refl f
  if_missing-refused backup_in_use w f = refused w refl f
  if_missing-refused backup_stale w f = refused w refl f
  if_missing-refused backup_boundary w f = refused w refl f
  if_missing-refused storage_quota w f = refused w refl f
  if_missing-refused storage_full w f = refused w refl f
  if_missing-refused (pg p) w f = refused w refl f

  with_argon-Untouched :
      (slot : ArgonSlot) (w : World)
      → Untouched old w
      → Runs GuardEnd (λ _. Untouched old) (with_argon slot w)
  unfolding with_argon
  with_argon-Untouched acquired w f = goes_on f
  with_argon-Untouched timed_out w f = refused w refl f
  with_argon-Untouched client_gone w f = stops (inr (refl, f))

  -- Behind `verifyAccountPassword` the password is the account's.
  verify_account_password-Opens :
      (password : Bytes) (slot : ArgonSlot) (w : World)
      → Untouched old w
      → Runs GuardEnd
          (λ _ w'. Untouched old w' × Opens crypto i password old.conn.db)
          (verify_account_password crypto i password slot w)
  unfolding verify_account_password
  verify_account_password-Opens password slot w (t, fs) =
      Runs-bind GuardEnd Read Q _ _
        (Runs-store GuardEnd Read Read (λ db. db ≡ w.conn.db)
          (λ p db.
            (db ≡ w.conn.db)
            × ((a : Account) × (first (has_id i) w.conn.db.accounts ≡ some a)
                × (p ≡ (a.password_hash, a.password_salt))))
          w _ _ _ (account_auth-value i w.conn)
          (λ p c (d, (a, found, e)).
            goes_on ((d ∙ t, fs), (a, ap (λ db. first (has_id i) db.accounts) (sym t) ∙ found, e)))
          (λ e c d. if_missing-refused e (record w { conn = c }) (d ∙ t, fs)))
        λ p w₁ (same, (a, found, e)).
          Runs-bind GuardEnd (λ _. Untouched old) Q _ _ (with_argon-Untouched slot w₁ same)
            λ _ w₂ same₂.
              Runs-when GuardEnd Q _ _ w₂
                (λ _.
                  Runs-bind GuardEnd (λ _. Untouched old) Q _ _ (goes_on same₂)
                    λ _ w₃ same₃. refused w₃ refl same₃)
                (λ valid. (
                  same₂,
                  (
                    a,
                    found,
                    subst (λ x. verify_password crypto password x.0 x.1 ≡ true) e (is_true _ valid),
                  ),
                ))
    where
      is_true : (b : Bool) → not b ≡ false → b ≡ true
      is_true b h = ground arith

      Read : Bytes × Bytes → World → Type 0
      Read p w' =
          Untouched old w'
          × ((a : Account) × (first (has_id i) old.conn.db.accounts ≡ some a)
              × (p ≡ (a.password_hash, a.password_salt)))

      Q : Unit {0} → World → Type 0
      Q _ w' = Untouched old w' × Opens crypto i password old.conn.db

  remove_files-keeps :
      (paths : List Bytes) (w : World)
      → Runs GuardEnd (λ (_ : Unit {0}) w'. w'.conn.db ≡ w.conn.db) (remove_files paths w)
  remove_files-keeps [] w = goes_on refl
  remove_files-keeps (p ∷ ps) w =
      Runs-bind GuardEnd (λ _ w'. w'.conn.db ≡ w.conn.db) (λ _ w'. w'.conn.db ≡ w.conn.db) _ _
        (goes_on refl)
        λ _ w₁ e.
          subst (λ d. Runs GuardEnd (λ (_ : Unit {0}) w'. w'.conn.db ≡ d) (remove_files ps w₁)) e
            (remove_files-keeps ps w₁)

module _ (crypto : Crypto) (me : Identity) (req : Option Bytes) (slot : ArgonSlot)
    (old : World) where
  -- The request carries the account's password, and nothing of the account is left.
  abbrev pub Erased : World → Type 0
  Erased new =
      (password : Bytes) × (req ≡ some password)
      × Opens crypto me.account_id password old.conn.db
      × Gone me.account_id new.conn.db

  abbrev End : Response → World → Type 0
  End = GuardEnd crypto me.account_id old Erased

  delete_with :
      (password : Bytes)
      → req ≡ some password
      → Runs End (λ _ _. ⊥) (handle_delete_account crypto (some me) (some password) slot old)
  unfolding handle_delete_account
  delete_with password asked = Runs-next End Q₀ _ me old (
      Runs-next End Q₀ _ password old (
        Runs-bind End (λ _ w. Untouched old w × Opens crypto i password old.conn.db) Q₀ _ _
          (verify_account_password-Opens crypto i old Erased password slot old (refl, refl))
          λ _ w₁ (same, opens).
            Runs-bind End (λ _ w. Gone i w.conn.db) Q₀ _ _
              (Runs-store End (λ _ w. Gone i w.conn.db) (λ _ w. Gone i w.conn.db)
                (λ db. db ≡ w₁.conn.db) (λ _ db. Gone i db) w₁ _ _ _ (delete_account-Gone i w₁.conn)
                (λ _ c g. goes_on g)
                λ e c t.
                  if_missing-refused crypto i old Erased e (record w₁ { conn = c })
                    (t ∙ same.0, same.1))
              λ paths w₂ gone.
                Runs-bind End (λ _ w. w.conn.db ≡ w₂.conn.db) Q₀ _ _
                  (remove_files-keeps crypto i old Erased paths w₂)
                  λ _ w₃ e₃.
                    Runs-bind End (λ _ w. w.conn.db ≡ w₂.conn.db) Q₀ _ _ (goes_on e₃)
                      λ _ w₄ e₄.
                        stops (inl (refl, (password, asked, opens, subst (Gone i) (sym e₄) gone)))))
    where
      i : ℕ
      i = me.account_id

      Q₀ : Unit {0} → World → Type 0
      Q₀ _ _ = ⊥

  undecoded : Runs End (λ _ _. ⊥) (handle_delete_account crypto (some me) none slot old)
  unfolding handle_delete_account
  undecoded =
      Runs-next End (λ _ _. ⊥) _ me old
        (Runs-bind End (λ _ _. ⊥) (λ _ _. ⊥) _ _
          (refused crypto me.account_id old Erased old refl (refl, refl)) λ _ _ h. absurd h)

  -- A request of a session to delete its account always ends with a response, or with none to a
  -- client that is gone. After a 204 the request carried a password that opens the account, and
  -- neither the account nor any backup, session or device of it is left in the tables. After anything
  -- else tables and files are as before.
  pub handle_delete_account-GuardEnd :
      Runs
        (GuardEnd crypto me.account_id old Erased)
        (λ _ _. ⊥)
        (handle_delete_account crypto (some me) req slot old)
  handle_delete_account-GuardEnd = elim (Option-cases req) [
    | inl e ↦
        subst (λ r. Runs End (λ _ _. ⊥) (handle_delete_account crypto (some me) r slot old)) (sym e)
          undecoded
    | inr (password, e) ↦
        subst (λ r. Runs End (λ _ _. ⊥) (handle_delete_account crypto (some me) r slot old)) (sym e)
          (delete_with password e)
  ]
