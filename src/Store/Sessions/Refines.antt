-- ===== src/Store/Sessions/Refines.antt =====
-- deployables/backend/internal/store/auth.go: the table of sessions refines the map.
use aime.Base.{
  ℕ, Bool, true, false, ◌&&◌, Option, none, some, List, [], ◌∷◌, ◌≡◌, refl, sym, ◌∙◌, inl, inr,
  Bool-cases, Option-cases, if◌then◌else◌, arith,
}
use aime.Base.Lists.{first, exists, delete}
use aime.Base.Int.{ℤ, ltb_ℤ}
use aime.Base.Member.{first-some, In-exists}
use aime.Base.Bytes.{Bytes, bytes_eq, eq_of_bytes_eq}
use aime.Store.Schema.{Db, SessionRow}
use aime.Store.Query.{
  Conn, apply_statement, rename_error, no_rows, not_found, head_fault, tail_faults, pg, outage,
  exec,
}
use aime.Store.Auth.{Session}
use aime.Store.Billing.{account_exists}
use aime.Store.Accounts.{has_device}
use aime.Store.Auth.{
  create_session, delete_session, delete_sessions, session_by_token_hash, has_token, read_session,
  insert_session, is_revoked,
}
use aime.Store.Sessions.{
  SessionOp, open_session, close_session, close_sessions, find_session, Answer, refused, Event,
  Sessions, session_in, answered, opened, found, view, map_session, dropped, on_map, replay,
  on_store, run_events,
}
use aime.Store.Sessions.Unique.{IsUnique, unless, delete-IsUnique, first-both, first-delete}

-- `m` is the map that the rows stand for.
abbrev pub Shows : Sessions → List SessionRow → Type 0
Shows m rows = (h : Bytes) → m h ≡ view rows h

-- The accounts and devices that the foreign keys find.
abbrev pub Owns : (ℕ → ℕ → Bool) → Db → Type 0
Owns owns db = (a d : ℕ) → owns a d ≡ (account_exists a db && exists (has_device d) db.devices)

-- The answers are the same, and the tables behind them stand for the map behind it.
record Agrees (owns : ℕ → ℕ → Bool) (faults : List Bool) (spec : Answer × Sessions)
    (run : Answer × Conn) : Type 0 where
  answers : run.0 ≡ spec.0
  shows : Shows spec.1 run.1.db.sessions
  unique : IsUnique run.1.db.sessions
  owned : Owns owns run.1.db
  left : run.1.faults ≡ faults

first-no_row :
    (p : SessionRow → Bool) (ss : List SessionRow) → first p ss ≡ none → exists p ss ≡ false
first-no_row p [] e = refl
first-no_row p (s ∷ ss) e = ground (arith, first-no_row p ss, Bool-cases (p s))

module _ (owns : ℕ → ℕ → Bool) (m : Sessions) (c : Conn) (shows : Shows m c.db.sessions)
    (unique : IsUnique c.db.sessions) (owned : Owns owns c.db) where
  -- The tables are as they were.
  same :
      {a b : Answer}
      → a ≡ b
      → Agrees owns (tail_faults c.faults) (b, m) (a, record c { faults = tail_faults c.faults })
  same e = record { answers = e; shows = shows; unique = unique; owned = owned; left = refl }

  faulty :
      (op : SessionOp)
      → head_fault c.faults ≡ true
      → Agrees owns (tail_faults c.faults) (refused (pg outage), m) (on_store op c)
  unfolding on_store create_session delete_session delete_sessions session_by_token_hash exec
  faulty (open_session a d h ttl) e = rw e (same refl)
  faulty (close_session h) e = rw e (same refl)
  faulty (close_sessions a keep) e = rw e (same refl)
  faulty (find_session h) e = rw e (same refl)

  -- A lookup behind a DELETE, from the lookup before it.
  delete-Shows :
      (q : SessionRow → Bool) (f : Bytes → Option Session → Option Session)
      → ((h : Bytes) → f h none ≡ none)
      → ((h : Bytes) (s : SessionRow)
          → s.token_hash ≡ h
          → f h (some (session_in s)) ≡ map_session (unless q (some s)))
      → Shows (λ h. f h (m h)) (delete q c.db.sessions)
  delete-Shows q f none_lem some_lem h =
      rw (shows h, first-delete q h c.db.sessions unique)
        (elim (Option-cases (first (has_token h) c.db.sessions)) [
          | inl e ↦ rw e (none_lem h)
          | inr (s, e) ↦ rw e (
              some_lem h s
                (eq_of_bytes_eq s.token_hash h (first-some (has_token h) s c.db.sessions e).1))
        ])

  insert-Agrees :
      (a d : ℕ) (h : Bytes) (ttl : ℤ)
      → Agrees owns (tail_faults c.faults) (on_map owns c.now (open_session a d h ttl) m) (
          answered
            (λ _. opened)
            (apply_statement
              (record c { faults = tail_faults c.faults })
              (insert_session a d h ttl c.now c.db)))
  unfolding on_map insert_session
  insert-Agrees a d h ttl = elim (Option-cases (first (has_token h) c.db.sessions)) [
    | inr (s, e) ↦
        let (i, q) = first-some (has_token h) s c.db.sessions e in
        rw (shows h, e, In-exists (has_token h) s c.db.sessions i q) (same refl)
    | inl e ↦
        rw (shows h, e, first-no_row (has_token h) c.db.sessions e)
          (elim (Bool-cases (owns a d)) [
            | inl o ↦
                rw (o, sym (owned a d) ∙ o)
                  (record {
                    answers = refl;
                    shows = λ k. elim (Bool-cases (bytes_eq h k)) [
                      | inl b ↦ rw b refl
                      | inr b ↦ rw (b, shows k) refl
                    ];
                    unique = (first-no_row (has_token h) c.db.sessions e, unique);
                    owned = owned;
                    left = refl;
                  })
            | inr o ↦ rw (o, sym (owned a d) ∙ o) (same refl)
          ])
  ]

  find-Agrees :
      (h : Bytes)
      → Agrees owns (tail_faults c.faults) (on_map owns c.now (find_session h) m) (
          answered found (
            rename_error no_rows not_found (
              apply_statement
                (record c { faults = tail_faults c.faults })
                (read_session h c.now c.db))))
  unfolding on_map read_session
  find-Agrees h =
      rw (read_session, shows h, first-both (λ s. ltb_ℤ c.now s.expires_at) h c.db.sessions unique)
        (elim (Option-cases (first (has_token h) c.db.sessions)) [
          | inl e ↦ rw e (same refl)
          | inr (s, e) ↦ rw e (elim (Bool-cases (ltb_ℤ c.now s.expires_at)) [
            | inl l ↦ rw l (same refl)
            | inr l ↦ rw l (same refl)
          ])
        ])

  healthy :
      (op : SessionOp)
      → head_fault c.faults ≡ false
      → Agrees owns (tail_faults c.faults) (on_map owns c.now op m) (on_store op c)
  unfolding on_store on_map create_session delete_session delete_sessions session_by_token_hash exec
      insert_session
  healthy (open_session a d h ttl) e = rw e (insert-Agrees a d h ttl)
  healthy (close_session h) e = rw e (record {
    answers = refl;
    shows =
        delete-Shows (has_token h) (λ k x. if bytes_eq k h then none else x) (λ k. ground arith)
          (λ k s same. rw same (ground arith));
    unique = delete-IsUnique (has_token h) _ unique;
    owned = owned;
    left = refl;
  })
  healthy (close_sessions a keep) e = rw e (record {
    answers = refl;
    shows =
        delete-Shows (is_revoked a keep) (dropped a keep) (λ k. refl) (λ k s same. ground arith);
    unique = delete-IsUnique (is_revoked a keep) _ unique;
    owned = owned;
    left = refl;
  })
  healthy (find_session h) e = rw e (find-Agrees h)

-- Answers in step, and the same from there on.
follows :
    (owns : ℕ → ℕ → Bool) (faults : List Bool) (r : Answer × Sessions) (x : Answer × Conn)
    (es : List Event)
    → Agrees owns faults r x
    → run_events es x.1 ≡ replay owns es x.1.faults r.1
    → ◌≡◌ {A = List Answer} (x.0 ∷ run_events es x.1) (r.0 ∷ replay owns es faults r.1)
follows owns faults r x es k e = rw (k.answers, e, k.left) refl

-- The store's sessions refine the map: whatever the connection fails and whenever the calls come, a
-- sequence of calls on a table without a repeated token answers as the map does.
pub run_events-refines :
    (owns : ℕ → ℕ → Bool) (es : List Event) (m : Sessions) (c : Conn)
    → Shows m c.db.sessions
    → IsUnique c.db.sessions
    → Owns owns c.db
    → run_events es c ≡ replay owns es c.faults m
unfolding run_events replay
run_events-refines owns [] m c shows unique owned = refl
run_events-refines owns (e ∷ es) m c shows unique owned = elim (Bool-cases (head_fault c.faults)) [
  | inl f ↦ rw f (
      let k = faulty owns m c' shows unique owned e.op f in
      follows _ _ _ _ es k (run_events-refines owns es _ _ k.shows k.unique k.owned))
  | inr f ↦ rw f (
      let k = healthy owns m c' shows unique owned e.op f in
      follows _ _ _ _ es k (run_events-refines owns es _ _ k.shows k.unique k.owned))
]
  where
    c' : Conn
    c' = record c { now = e.time }
