-- ===== src/Http/SlotsKept.antt =====
-- deployables/backend/internal/httpapi/backup.go: what every interleaving of uploads keeps.
use aime.Http.World.{World}
use aime.Http.Uploads.{acquire_upload, release_upload}
use aime.Base.{
  ℕ, suc, ◌+◌, ◌-◌, ◌==◌, ltb, Bool, true, false, List, [], ◌∷◌, ◌++◌, ◌≡◌, refl, subst,
  if◌then◌else◌, arith, Bool-cases, inl, inr, eq_of_==,
}
use aime.Base.Lists.{delete, exists, count, count-append}
use aime.Http.Slots.{
  Phase, holding, backing_out, uploading, leaving, gone, Request, Slots, is_account, advance,
  arrived, placed, Turn, arrive, move, Reachable, start, later, has_slot, uploads_for, Kept, Turns,
  turn, done, slots_of, request, CallTurns,
}

count-none : (a : ℕ) (xs : List ℕ) → exists (is_account a) xs ≡ false → count (is_account a) xs ≡ 0
count-none a [] h = refl
count-none a (x ∷ xs) h = ground (arith, count-none a xs, Bool-cases (is_account a x))

count-delete : (a : ℕ) (xs : List ℕ) → count (is_account a) (delete (is_account a) xs) ≡ 0
count-delete a [] = refl
count-delete a (x ∷ xs) = ground (arith, count-delete a xs, Bool-cases (is_account a x))

count-delete-other :
    (a b : ℕ) (xs : List ℕ)
    → (a == b) ≡ false
    → count (is_account b) (delete (is_account a) xs) ≡ count (is_account b) xs
count-delete-other a b [] h = refl
count-delete-other a b (x ∷ xs) h =
    ground (arith, count-delete-other a b xs h, Bool-cases (is_account a x))

module _ (concurrency a taken : ℕ) (before after : List Request) (busy : List ℕ) where
  abbrev at : Phase → Request
  at phase = record { account_id = a; phase = phase }

  abbrev state : Phase → Slots
  state phase = record { taken = taken; busy = busy; requests = before ++ at phase ∷ after }

  -- The other requests.
  abbrev others : (Request → Bool) → ℕ
  others p = count p before + count p after

  count-at :
      (p : Request → Bool) (r : Request)
      → count p (before ++ r ∷ after) ≡ (if p r then suc (others p) else others p)
  count-at p r = ground (arith, count-append p before (r ∷ after), Bool-cases (p r))

  move-Kept :
      (phase : Phase)
      → Kept concurrency (state phase)
      → Kept concurrency (placed before after (advance (at phase) taken busy))
  unfolding advance
  move-Kept holding k = elim (Bool-cases (exists (is_account a) busy)) [
    | inl e ↦ rw e (record {
      bounded = k.bounded;
      counted =
          ground
            (arith, k.counted, count-at has_slot (at holding), count-at has_slot (at backing_out));
      keys = λ b. ground (
        arith,
        k.keys b,
        count-at (uploads_for b) (at holding),
        count-at (uploads_for b) (at backing_out),
      );
      single = k.single;
    })
    | inr e ↦ rw e (record {
      bounded = k.bounded;
      counted =
          ground
            (arith, k.counted, count-at has_slot (at holding), count-at has_slot (at uploading));
      keys = λ b. ground (
        arith,
        k.keys b,
        count-at (uploads_for b) (at holding),
        count-at (uploads_for b) (at uploading),
        Bool-cases (is_account b a),
      );
      single = λ b.
          ground
            (arith, k.single b, count-none a busy e, Bool-cases (is_account b a), eq_of_== a b);
    })
  ]
  move-Kept backing_out k = record {
    bounded = omega (arith, k.bounded);
    counted =
        ground (arith, k.counted, count-at has_slot (at backing_out), count-at has_slot (at gone));
    keys = λ b. ground (
      arith,
      k.keys b,
      count-at (uploads_for b) (at backing_out),
      count-at (uploads_for b) (at gone),
    );
    single = k.single;
  }
  move-Kept uploading k = record {
    bounded = k.bounded;
    counted =
        ground (arith, k.counted, count-at has_slot (at uploading), count-at has_slot (at leaving));
    keys = λ b. ground (
      arith,
      k.keys b,
      k.single b,
      count-at (uploads_for b) (at uploading),
      count-at (uploads_for b) (at leaving),
      count-delete a busy,
      count-delete-other a b busy,
      Bool-cases (is_account b a),
      eq_of_== a b,
    );
    single = λ b. ground (
      arith,
      k.single b,
      count-delete a busy,
      count-delete-other a b busy,
      Bool-cases (a == b),
      eq_of_== a b,
    );
  }
  move-Kept leaving k = record {
    bounded = omega (arith, k.bounded);
    counted =
        ground (arith, k.counted, count-at has_slot (at leaving), count-at has_slot (at gone));
    keys = λ b. ground (
      arith,
      k.keys b,
      count-at (uploads_for b) (at leaving),
      count-at (uploads_for b) (at gone),
    );
    single = k.single;
  }
  move-Kept gone k = k

-- Every state that interleaved requests reach keeps the channel within its capacity, the channel
-- counts the requests that hold a slot, and an account has one upload in flight at most, behind one
-- key of the map.
pub Reachable-Kept : (concurrency : ℕ) (s : Slots) → Reachable concurrency s → Kept concurrency s
unfolding arrived
Reachable-Kept concurrency _ start = record {
  bounded = omega arith;
  counted = refl;
  keys = λ b. refl;
  single = λ b. omega arith;
}
Reachable-Kept concurrency _ (later r (arrive a s room)) =
    let k = Reachable-Kept concurrency s r in
    record {
      bounded = ground (arith, k.bounded);
      counted = ground (arith, k.counted);
      keys = k.keys;
      single = k.single;
    }
Reachable-Kept concurrency _ (later h (move before after r taken busy)) =
    move-Kept concurrency r.account_id taken before after busy r.phase
      (Reachable-Kept concurrency _ h)

abbrev with_newest : Request → ℕ → List ℕ → List Request → Slots
with_newest r taken busy requests = record { taken = taken; busy = busy; requests = r ∷ requests }

-- The newest request has the turn.
turn_newest :
    {concurrency : ℕ} {t : Slots} (r r' : Request) (n n' : ℕ) (b b' : List ℕ)
    (requests : List Request)
    → advance r n b ≡ (r', n', b')
    → Turns concurrency (with_newest r' n' b' requests) t
    → Turns concurrency (with_newest r n b requests) t
turn_newest {concurrency} r r' n n' b b' requests e d =
    turn
      (subst (λ x. Turn concurrency (with_newest r n b requests) (placed [] requests x)) e
        (move [] requests r n b))
      d

module _ (concurrency a : ℕ) (w : World) (requests : List Request) where
  abbrev n : ℕ
  n = w.upload_slots

  enter :
      {t : Slots}
      → ltb n concurrency ≡ true
      → Turns concurrency (with_newest (request a holding) (suc n) w.uploading requests) t
      → Turns concurrency (slots_of w requests) t
  unfolding arrived
  enter room d = turn (arrive a (slots_of w requests) room) d

  refused_turns :
      ltb n concurrency ≡ true
      → exists (is_account a) w.uploading ≡ true
      → Turns concurrency (slots_of w requests) (slots_of w (request a gone ∷ requests))
  unfolding advance
  refused_turns room e = enter room (
      turn_newest _ (request a backing_out) (suc n) (suc n) w.uploading w.uploading requests
        (rw e refl)
        (turn_newest _ (request a gone) (suc n) n w.uploading w.uploading requests (ground arith)
          (done _)))

  admitted_turns :
      ltb n concurrency ≡ true
      → exists (is_account a) w.uploading ≡ false
      → Turns concurrency
          (slots_of w requests)
          (with_newest (request a uploading) (suc n) (a ∷ w.uploading) requests)
  unfolding advance
  admitted_turns room e =
      enter room (
        turn_newest _ _ (suc n) (suc n) w.uploading (a ∷ w.uploading) requests (rw e refl) (done _))

  released_turns :
      (k : ℕ) (busy : List ℕ)
      → Turns concurrency
          (with_newest (request a uploading) k busy requests)
          (with_newest (request a gone) (k - 1) (delete (is_account a) busy) requests)
  unfolding advance
  released_turns k busy =
      turn_newest _ (request a leaving) k k busy (delete (is_account a) busy) requests refl
        (turn_newest _ _ k (k - 1) _ _ requests refl (done _))

  -- A call of `acquireUpload` that no other request interrupts is turns of the interleaved system:
  -- refused, it finds no room or leaves the channel and the map as they were; admitted, it leaves the
  -- account's request in the map, and the deferred release takes the request out of both again.
  pub acquire_upload-Turns : CallTurns concurrency a w requests (acquire_upload concurrency a w)
  unfolding acquire_upload release_upload
  acquire_upload-Turns = elim (Bool-cases (ltb n concurrency)) [
    | inr e ↦ rw e (inl e)
    | inl e ↦ elim (Bool-cases (exists (is_account a) w.uploading)) [
      | inl f ↦ rw (e, f) (inr (refused_turns e f))
      | inr f ↦ rw (e, f) (admitted_turns e f, released_turns (suc n) (a ∷ w.uploading))
    ]
  ]
