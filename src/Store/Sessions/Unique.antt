-- ===== src/Store/Sessions/Unique.antt =====
-- deployables/backend/migrations: `token_hash BYTEA UNIQUE` in the table of sessions, and what it says
-- of a lookup.
use aime.Base.{
  Bool, true, false, ◌&&◌, Option, none, some, List, [], ◌∷◌, ◌≡◌, refl, inl, inr, Bool-cases,
  if◌then◌else◌, arith,
}
use aime.Base.Lists.{first, exists, delete}
use aime.Base.Bytes.{Bytes, eq_of_bytes_eq}
use aime.Store.Schema.{SessionRow}
use aime.Store.Auth.{has_token}

-- No two rows have the same token.
abbrev pub IsUnique : List SessionRow → Type 0
IsUnique [] = Unit
IsUnique (s ∷ ss) = (exists (has_token s.token_hash) ss ≡ false) × IsUnique ss

abbrev pub only_if : (SessionRow → Bool) → Option SessionRow → Option SessionRow
only_if q none = none
only_if q (some s) = if q s then some s else none

abbrev pub unless : (SessionRow → Bool) → Option SessionRow → Option SessionRow
unless q none = none
unless q (some s) = if q s then none else some s

module _ (q : SessionRow → Bool) where
  delete-exists :
      (h : Bytes) (ss : List SessionRow)
      → exists (has_token h) ss ≡ false
      → exists (has_token h) (delete q ss) ≡ false
  delete-exists h [] e = refl
  delete-exists h (s ∷ ss) e =
      ground (arith, delete-exists h ss, Bool-cases (q s), Bool-cases (has_token h s))

  pub delete-IsUnique : (ss : List SessionRow) → IsUnique ss → IsUnique (delete q ss)
  delete-IsUnique [] u = tt
  delete-IsUnique (s ∷ ss) (fresh, u) = elim (Bool-cases (q s)) [
    | inl e ↦ rw e (delete-IsUnique ss u)
    | inr e ↦ rw e (delete-exists s.token_hash ss fresh, delete-IsUnique ss u)
  ]

  none-both :
      (h : Bytes) (ss : List SessionRow)
      → exists (has_token h) ss ≡ false
      → first (λ s. has_token h s && q s) ss ≡ none
  none-both h [] e = refl
  none-both h (s ∷ ss) e =
      ground (arith, none-both h ss, Bool-cases (q s), Bool-cases (has_token h s))

  none-delete :
      (h : Bytes) (ss : List SessionRow)
      → exists (has_token h) ss ≡ false
      → first (has_token h) (delete q ss) ≡ none
  none-delete h [] e = refl
  none-delete h (s ∷ ss) e =
      ground (arith, none-delete h ss, Bool-cases (q s), Bool-cases (has_token h s))

  alone :
      (h : Bytes) (s : SessionRow) (ss : List SessionRow)
      → has_token h s ≡ true
      → exists (has_token s.token_hash) ss ≡ false
      → exists (has_token h) ss ≡ false
  alone h s ss e fresh = rw (eq_of_bytes_eq s.token_hash h e) at fresh

  pub first-both :
      (h : Bytes) (ss : List SessionRow)
      → IsUnique ss
      → first (λ s. has_token h s && q s) ss ≡ only_if q (first (has_token h) ss)
  first-both h [] u = refl
  first-both h (s ∷ ss) (fresh, u) = elim (Bool-cases (has_token h s)) [
    | inl e ↦ rw (e, none-both h ss (alone h s ss e fresh)) refl
    | inr e ↦ rw e (first-both h ss u)
  ]

  pub first-delete :
      (h : Bytes) (ss : List SessionRow)
      → IsUnique ss
      → first (has_token h) (delete q ss) ≡ unless q (first (has_token h) ss)
  first-delete h [] u = refl
  first-delete h (s ∷ ss) (fresh, u) = elim (Bool-cases (has_token h s)) [
    | inl e ↦ elim (Bool-cases (q s)) [
      | inl d ↦ rw (e, d) (none-delete h ss (alone h s ss e fresh))
      | inr d ↦ rw (e, d, e) refl
    ]
    | inr e ↦ elim (Bool-cases (q s)) [
      | inl d ↦ rw (e, d) (first-delete h ss u)
      | inr d ↦ rw (e, d, e) (first-delete h ss u)
    ]
  ]
