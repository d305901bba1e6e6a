-- ===== src/Billing/Prices.antt =====
-- deployables/backend/internal/billing/billing.go: what the prices come to.
use aime.Base.{
  ℕ, suc, zero, ◌+◌, ◌*◌, ◌/◌, ◌^◌, ◌≤◌, ◌<◌, ◌≡◌, sym, subst, ap, ◌∙◌, true, false, arith,
}
use aime.Base.Int.{ℤ, pos, ◌+ℤ◌, ◌-ℤ◌, ◌*ℤ◌, ltb_ℤ, leb_ℤ, int64, int64_id, quot}
use aime.Base.Float.{Float64}
use aime.Billing.{Pricing, Kind, per_1k, cost, free_storage_bytes, storage_billable, storage_cost}

*ℤ_pos : (a b : ℕ) → pos a *ℤ pos b ≡ pos (a * b)
unfolding ◌*ℤ◌
*ℤ_pos a b = ground arith

+ℤ_pos : (a b : ℕ) → pos a +ℤ pos b ≡ pos (a + b)
unfolding ◌+ℤ◌
+ℤ_pos a b = ground arith

int64_pos : (n : ℕ) → n < 2 ^ 63 → int64 (pos n) ≡ pos n
int64_pos n h = int64_id (pos n) (ground arith)

cost-value :
    (p : Pricing) (kind : Kind) (t n : ℕ)
    → per_1k p kind ≡ pos n
    → t * n + 999 < 2 ^ 63
    → cost p kind (pos t) ≡ pos ((t * n + 999) / 1000)
unfolding cost quot
cost-value p kind zero n h fits = ground arith
cost-value p kind (suc t) n h fits =
    rw
      (
        h,
        *ℤ_pos (suc t) n,
        int64_pos (suc t * n) (omega arith),
        +ℤ_pos (suc t * n) 999,
        int64_pos (suc t * n + 999) fits,
      )
      (ground arith)

-- Where the product fits an int64, the cost of a call is the price of its tokens rounded up: the
-- least number of microcredits whose thousandfold is at least tokens times the price of a thousand.
pub cost_rounds_up :
    (p : Pricing) (kind : Kind) (t n : ℕ)
    → per_1k p kind ≡ pos n
    → t * n + 999 < 2 ^ 63
    → (c : ℕ) × (cost p kind (pos t) ≡ pos c) × (t * n ≤ c * 1000) × (c * 1000 < t * n + 1000)
cost_rounds_up p kind t n h fits =
    ((t * n + 999) / 1000, cost-value p kind t n h fits, ground arith, ground arith)

free_storage_bytes-value :
    (p : Pricing) (f : ℕ)
    → p.free_storage_mb ≡ pos f
    → f * 2 ^ 20 < 2 ^ 63
    → free_storage_bytes p ≡ pos (f * 2 ^ 20)
unfolding free_storage_bytes
free_storage_bytes-value p f h fits = rw (h, *ℤ_pos f (2 ^ 20), int64_pos (f * 2 ^ 20) fits)

not_over : (n f : ℕ) → n ≤ f → f < 2 ^ 63 → leb_ℤ (int64 (pos n -ℤ pos f)) (pos 0) ≡ true
unfolding ◌-ℤ◌
not_over n f h fits =
    subst (λ x. leb_ℤ x (pos 0) ≡ true) (sym (int64_id (pos n -ℤ pos f) (ground arith)))
      (ground arith)

at_most_free : (n f : ℕ) → ltb_ℤ (pos f) (pos n) ≡ false → n ≤ f
at_most_free n f h = ground arith

module _ (fl : Float64) where
  -- Storage costs nothing where `StorageBillable` answers no: up to the free bytes, which are taken
  -- not to wrap around, whatever the time, which may be negative.
  pub storage_cost-free :
      (p : Pricing) (n f : ℕ) (d : ℤ)
      → p.free_storage_mb ≡ pos f
      → f * 2 ^ 20 < 2 ^ 63
      → storage_billable p (pos n) ≡ false
      → storage_cost fl p (pos n) d ≡ pos 0
  unfolding storage_cost storage_billable
  storage_cost-free p n f d h fits free =
      let value = free_storage_bytes-value p f h fits in
      let at_most : n ≤ f * 2 ^ 20 =
        at_most_free n (f * 2 ^ 20) (sym (ap (λ b. ltb_ℤ b (pos n)) value) ∙ free) in
      rw (value, not_over n (f * 2 ^ 20) at_most fits)
