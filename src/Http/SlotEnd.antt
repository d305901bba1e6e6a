-- ===== src/Http/SlotEnd.antt =====
-- deployables/backend/internal/httpapi/backup.go: what ends while an upload holds its slot.
use aime.Base.{
  Option, ℕ, suc, ◌-◌, ◌==◌, ◌≡◌, refl, sym, ap, subst, ◌∙◌, inl, inr, ◌⊎◌, ◌∷◌, false, none, some,
  Bool-cases, arith, ==-refl, ltb,
}
use aime.Base.Lists.{delete, exists}
use aime.Base.Bytes.{Bytes}
use aime.Store.Backups.{Quota}
use aime.Store.Backups.Created.{Created}
use aime.Http.World.{Response, World, Step, next, stop}
use aime.Http.Rules.{Runs, stops}
use aime.Http.Backups.{Operation}
use aime.Http.Uploads.{Upload, Written, in_slot, while_uploading, acquire_upload, release_upload}
use aime.Http.Frame.{Frame, Frame-refl, delete-none, Refused, Recorded}

module _ (compact : Bytes → Option Bytes) (i : ℕ) (q : Quota) (up : Upload)
    (written : Written) where
  abbrev pub Ended : World → Bytes × Response → World → Type 0
  Ended old x w = Recorded compact i q up written old x w ⊎ Refused old x w

  -- What holds from a world holds from one with the same tables, files and slots.
  pub Ended-Frame :
      (old mid : World) (x : Bytes × Response) (w : World)
      → Frame old mid
      → Ended mid x w
      → Ended old x w
  Ended-Frame old mid x w f (inr (status, g)) = inr (
    status,
    record {
      tables = g.tables ∙ f.tables;
      files = g.files ∙ f.files;
      stuck = g.stuck ∙ f.stuck;
      slots = g.slots ∙ f.slots;
      accounts = g.accounts ∙ f.accounts;
    },
  )
  Ended-Frame old mid x w f
        (inl (
          rel, sum, size, nb, b, n, wr, st, p, s, c, mt, pr, po, d, made, files, slots, accounts,
        )) =
      inl (
        rel,
        sum,
        size,
        nb,
        b,
        n,
        wr,
        st,
        p,
        s,
        c,
        mt,
        pr,
        po,
        d,
        subst (λ db. Created i q nb db b w.conn.db) f.tables made,
        files ∙ ap (λ fs. rel ∷ fs) f.files,
        slots ∙ f.slots,
        accounts ∙ f.accounts,
      )

  -- Inside the slot: what ended there ends, after the release, as from before it.
  abbrev pub inside : World → World
  inside w = record w { upload_slots = suc w.upload_slots; uploading = i ∷ w.uploading }

  released :
      (w : World)
      → exists (λ a. a == i) w.uploading ≡ false
      → delete (λ a. a == i) (i ∷ w.uploading) ≡ w.uploading
  released w h = rw (==-refl i, delete-none (λ a. a == i) w.uploading h)

  Ended-release :
      (w : World) (x : Bytes × Response) (new : World)
      → exists (λ a. a == i) w.uploading ≡ false
      → Ended (inside w) x new
      → Ended w x (release_upload i new)
  unfolding release_upload
  Ended-release w x new h (inr (status, g)) = inr (
    status,
    record {
      tables = g.tables;
      files = g.files;
      stuck = g.stuck;
      slots = ap (λ n. n - 1) g.slots ∙ omega arith;
      accounts = ap (delete (λ a. a == i)) g.accounts ∙ released w h;
    },
  )
  Ended-release w x new h
        (inl (
          rel, sum, size, nb, b, n, wr, st, p, s, c, mt, pr, po, d, made, files, slots, accounts,
        )) =
      inl (
        rel,
        sum,
        size,
        nb,
        b,
        n,
        wr,
        st,
        p,
        s,
        c,
        mt,
        pr,
        po,
        d,
        made,
        files,
        ap (λ n. n - 1) slots ∙ omega arith,
        ap (delete (λ a. a == i)) accounts ∙ released w h,
      )

  -- A slot is refused, or given to an account that holds none.
  acquire_upload-cases :
      (concurrency : ℕ) (w : World)
      → (acquire_upload concurrency i w ≡ none)
        ⊎ ((acquire_upload concurrency i w ≡ some (inside w))
            × (exists (λ a. a == i) w.uploading ≡ false))
  unfolding acquire_upload
  acquire_upload-cases concurrency w = elim (Bool-cases (ltb w.upload_slots concurrency)) [
    | inl room ↦ elim (Bool-cases (exists (λ a. a == i) w.uploading)) [
      | inl busy ↦ inl (rw (room, busy) refl)
      | inr free ↦ inr (rw (room, free) refl, free)
    ]
    | inr full ↦ inl (rw full refl)
  ]

  in_slot-Ended :
      (m : Operation (Unit {0})) (w : World)
      → exists (λ a. a == i) w.uploading ≡ false
      → (r : Step (Bytes × Response) (Unit {0}) × World) → Runs (Ended (inside w)) (λ _ _. ⊥) r
      → Runs (Ended w) (λ (_ : Unit {0}) _. ⊥) (r.0, release_upload i r.1)
  in_slot-Ended m w free (next u, new) h = absurd h.meets
  in_slot-Ended m w free (stop x, new) h = stops (Ended-release w x new free h.meets)

  pub while_uploading-Ended :
      (concurrency : ℕ) (m : Operation (Unit {0})) (w : World)
      → Runs (Ended (inside w)) (λ _ _. ⊥) (m (inside w))
      → Runs (Ended w) (λ _ _. ⊥) (while_uploading concurrency i m w)
  unfolding while_uploading
  while_uploading-Ended concurrency m w h = elim (acquire_upload-cases concurrency w) [
    | inl none_left ↦
        subst (λ o. Runs (Ended w) (λ _ _. ⊥) (in_slot i m w o)) (sym none_left)
          (stops (inr (refl, Frame-refl w)))
    | inr (taken, free) ↦
        subst (λ o. Runs (Ended w) (λ _ _. ⊥) (in_slot i m w o)) (sym taken)
          (in_slot-Ended m w free (m (inside w)) h)
  ]
