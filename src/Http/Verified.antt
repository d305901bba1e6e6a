-- ===== src/Http/Verified.antt =====
-- deployables/backend/internal/httpapi/auth.go: what handleVerify has checked before it opens a
-- session, and what it leaves behind.
use aime.Base.{
  ℕ, ◌==◌, ◌≡◌, refl, sym, ap, subst, ◌∙◌, inl, inr, ◌⊎◌, Bool, true, false, not, Option, none,
  some, Option-cases, arith,
}
use aime.Base.Lists.{length, first}
use aime.Base.Int.{ℤ, ◌≤ℤ◌}
use aime.Base.Bytes.{Bytes}
use aime.Auth.{Crypto, accepted, verify_device_signature, hash_token}
use aime.Store.Schema.{ChallengeRow, Device, Db}
use aime.Store.Accounts.{has_device}
use aime.Store.Auth.{is_open_challenge}
use aime.Http.World.{error, Response, respond, silent, World}
use aime.Http.Rules.{Runs, goes_on, stops, Runs-bind, Runs-next, Runs-gate}
use aime.Http.Login.{Text, handle_verify}
use aime.Http.Handshake.{Closed, refused, redeem, find, require_accepted-Runs, open_session, touch}
use aime.Http.Redeemed.{Redeemed, Opened}

double_negation : (b : Bool) → not b ≡ false → b ≡ true
double_negation b h = ground arith

abbrev pub status_is_ok : Response → Bool
status_is_ok (respond status body) = status == 200
status_is_ok silent = false

module _ (crypto : Crypto) (text : Text) (req : Option (ℕ × Bytes × Bytes)) (token : Bytes)
    (clock : ℤ) (old : World) where
  -- A session that a device has earned.
  pub record Earned (new : Db) : Type 0 where
    pub id : ℕ
    pub nonce : Bytes
    pub signature : Bytes
    pub device : Device
    pub request : req ≡ some (id, nonce, signature)
    pub full_nonce : (length nonce == 32) ≡ true
    pub was_open :
        (c : ChallengeRow) × (first
            (is_open_challenge id nonce old.conn.now)
            old.conn.db.auth_challanges
          ≡ some c)
        × (first (has_device c.device_id) old.conn.db.devices ≡ some device)
    pub closed :
        (t : ℤ)
        → old.conn.now ≤ℤ t
        → first (is_open_challenge id nonce t) new.auth_challanges ≡ none
    pub signed : verify_device_signature crypto device.public_key nonce signature ≡ accepted
    pub opened :
        Opened device.account_id device.id (hash_token crypto token) old.conn.db.sessions new

  abbrev pub VerifyEnd : Response → World → Type 0
  VerifyEnd r new =
      ((status_is_ok r ≡ true) × Earned new.conn.db)
      ⊎ ((status_is_ok r ≡ false) × (new.conn.db.sessions ≡ old.conn.db.sessions))

  abbrev V : Response → World → Type 0
  V = VerifyEnd

  abbrev hash : Bytes
  hash = hash_token crypto token

  refusal :
      (n : ℕ) (m : Bytes) (w : World)
      → (n == 200) ≡ false
      → Closed old w
      → V (respond n (error m)) w
  refusal n m w h f = inr (h, f)

  undecoded : Runs VerifyEnd (λ _ _. ⊥) (handle_verify crypto text none token clock old)
  unfolding handle_verify
  undecoded =
      Runs-bind VerifyEnd (λ _ _. ⊥) (λ _ _. ⊥) _ _ (refused hash old V refusal old refl refl)
        λ _ _ h. absurd h

  challenged_device :
      (id : ℕ) (nonce : Bytes) {new : Db} {d : Device} {i : ℕ}
      → Redeemed id nonce old.conn.now old.conn.db new i
      → first (has_device i) new.devices ≡ some d
      → (c : ChallengeRow) × (first
            (is_open_challenge id nonce old.conn.now)
            old.conn.db.auth_challanges
          ≡ some c)
        × (first (has_device c.device_id) old.conn.db.devices ≡ some d)
  challenged_device id nonce {d} r found =
      let (c, found_open, same) = r.was_open in
      (
        c,
        found_open,
        subst (λ j. first (has_device j) old.conn.db.devices ≡ some d) (sym same)
            (ap (first (has_device _)) (sym r.devices) ∙ found),
      )

  -- What the tables hold after the redemption, the session and the touch.
  earned :
      {id i : ℕ} {nonce signature seen : Bytes} {d : Device} (redeemed opened touched : Db)
      → req ≡ some (id, nonce, signature)
      → (length nonce == 32) ≡ true
      → Redeemed id nonce old.conn.now old.conn.db redeemed i × (seen ≡ nonce)
      → first (has_device i) redeemed.devices ≡ some d
      → verify_device_signature crypto d.public_key seen signature ≡ accepted
      → Opened d.account_id d.id (hash_token crypto token) old.conn.db.sessions opened
        × (opened.auth_challanges ≡ redeemed.auth_challanges)
      → (touched.sessions ≡ opened.sessions) × (touched.auth_challanges ≡ opened.auth_challanges)
      → Earned touched
  earned {id} {nonce} {signature} {d} redeemed opened touched asked full (r, same_nonce) found
        signed (o, c₅) (s₆, c₆) =
      record {
        id = id;
        nonce = nonce;
        signature = signature;
        device = d;
        request = asked;
        full_nonce = full;
        was_open = challenged_device id nonce r found;
        closed = λ t later. ap (first (is_open_challenge id nonce t)) (c₆ ∙ c₅) ∙ r.closed t later;
        signed =
            subst (λ n. verify_device_signature crypto d.public_key n signature ≡ accepted)
              same_nonce signed;
        opened = let (s, e, a, b, h) = o in (s, s₆ ∙ e, a, b, h);
      }

  -- The handler behind the decoded request.
  verify_request :
      (id : ℕ) (nonce signature : Bytes)
      → req ≡ some (id, nonce, signature)
      → Runs VerifyEnd
          (λ _ _. ⊥)
          (handle_verify crypto text (some (id, nonce, signature)) token clock old)
  unfolding handle_verify
  verify_request id nonce signature asked =
      Runs-next V Q₀ _ (id, nonce, signature) old
        (Runs-gate V Q₀ _ _ _ old (λ _. refused hash old V refusal old refl refl)
          λ full.
            Runs-bind V
              (λ ch w.
                Redeemed id nonce old.conn.now old.conn.db w.conn.db ch.device_id
                × (ch.nonce ≡ nonce))
              Q₀ _ _ (redeem hash old V refusal id nonce)
              λ ch w₁ (redeemed, same_nonce).
                Runs-bind V
                  (λ d w.
                    (first (has_device ch.device_id) w₁.conn.db.devices ≡ some d)
                    × (w.conn.db ≡ w₁.conn.db))
                  Q₀ _ _ (find hash old V refusal ch.device_id w₁ redeemed.sessions)
                  λ d w₂ (found, t₂).
                    Runs-bind V
                      (λ _ w.
                        (verify_device_signature crypto d.public_key ch.nonce signature ≡ accepted)
                        × (w.conn.db ≡ w₂.conn.db))
                      Q₀ _ _
                      (require_accepted-Runs hash old V refusal _ w₂
                        (ap (λ db. db.sessions) t₂ ∙ redeemed.sessions))
                      λ _ w₃ (signed, t₃).
                        Runs-bind V (λ _ w. w.conn.db ≡ w₁.conn.db) Q₀ _ _ (goes_on (t₃ ∙ t₂))
                          λ _ w₄ t₄.
                            Runs-bind V
                              (λ _ w.
                                Opened d.account_id d.id (hash_token crypto token)
                                  old.conn.db.sessions w.conn.db
                                × (w.conn.db.auth_challanges ≡ w₁.conn.db.auth_challanges))
                              Q₀ _ _
                              (open_session hash old V refusal d w₄
                                (ap (λ db. db.sessions) t₄ ∙ redeemed.sessions)
                                (ap (λ db. db.auth_challanges) t₄))
                              λ _ w₅ (opened, c₅).
                                Runs-bind V
                                  (λ _ w.
                                    (w.conn.db.sessions ≡ w₅.conn.db.sessions)
                                    × (w.conn.db.auth_challanges ≡ w₅.conn.db.auth_challanges))
                                  Q₀ _ _ (touch hash old V refusal d w₅)
                                  λ _ w₆ (s₆, c₆). stops (
                                    inl (
                                      refl,
                                      earned w₁.conn.db w₅.conn.db w₆.conn.db asked
                                          (double_negation _ full) (redeemed, same_nonce) found
                                          signed (opened, c₅) (s₆, c₆),
                                    )))
    where
      Q₀ : Unit {0} → World → Type 0
      Q₀ _ _ = ⊥

  -- A request to verify a challenge always ends with a response. After a 200 the sessions have one
  -- row more, for the device that the challenge was made for and the device's account, with the hash
  -- of the new token; the challenge with the given nonce was open, and is not open at that time or
  -- any later one; and the device's key accepts the signature over the nonce. After any other
  -- response the sessions are as before.
  pub handle_verify-VerifyEnd :
      Runs VerifyEnd (λ _ _. ⊥) (handle_verify crypto text req token clock old)
  handle_verify-VerifyEnd = elim (Option-cases req) [
    | inl e ↦
        subst (λ r. Runs VerifyEnd (λ _ _. ⊥) (handle_verify crypto text r token clock old)) (sym e)
          undecoded
    | inr ((id, nonce, signature), e) ↦
        subst (λ r. Runs VerifyEnd (λ _ _. ⊥) (handle_verify crypto text r token clock old)) (sym e)
          (verify_request id nonce signature e)
  ]
