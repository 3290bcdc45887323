-- ===== src/Disputes/Payout/Shares.antt =====
-- The shares of a verdict are exact and never negative, and the platform keeps its fifth.
use campusgig_backend.Prelude.{
  ℕ, ℤ, pos, negsuc, pos_part, ◌+◌, ◌*◌, ap, ◌⊎◌, ◌+ℤ◌, ◌-ℤ◌, ◌≤ℤ◌, ◌≤◌, ◌≡◌, refl, ◌↔◌, ◌≢◌, subst,
  Option, none, some, arith, int_laws, inl, inr, Bool-cases, false,
}
use campusgig_backend.Db.Types.{DisputeVerdict, refund_buyer, complete_for_seller, split_funds}
use campusgig_backend.Db.Tx.{ok, err, invalid_split_percent}
use campusgig_backend.Wallet.Escrow.{DisputePayoutShares}
use campusgig_backend.Disputes.Payout.{
  compute_dispute_payout, is_invalid_percent, split_shares, percent_or_zero, percent_of,
  full_refund, seller_payout,
}

-- What a payout promises of a price: the shares add up to it, and none is negative.
pub record IsPayout (price : ℕ) (s : DisputePayoutShares) : Type 0 where
  pub exact : s.buyer_refund_vnd +ℤ s.seller_earning_vnd +ℤ s.platform_fee_vnd ≡ pos price
  pub refund_nonneg : pos 0 ≤ℤ s.buyer_refund_vnd
  pub earning_nonneg : pos 0 ≤ℤ s.seller_earning_vnd
  pub fee_nonneg : pos 0 ≤ℤ s.platform_fee_vnd

-- Two floors of percentages that make up eighty leave the platform its fifth.
floors : (p b k : ℕ) → b + k ≡ 80 → percent_of p b + percent_of p k + percent_of p 20 ≤ p
floors p b k e = omega (arith, ap (λ (t : ℕ). p * t) e)

-- The percentage that is left to the seller.
rest_percent : (b : ℕ) → b ≤ 80 → b + pos_part (pos 80 -ℤ pos b) ≡ 80
unfolding ◌-ℤ◌
rest_percent b h = ground arith

-- The fifth of the price, which the platform always keeps.
abbrev pub IsKept : ℕ → DisputePayoutShares → Type 0
IsKept price s = pos (percent_of price 20) ≤ℤ s.platform_fee_vnd

split_shares-IsPayout :
    (price b : ℕ)
    → b ≤ 80
    → IsPayout price (split_shares price (pos b)) × IsKept price (split_shares price (pos b))
unfolding split_shares
split_shares-IsPayout price b h =
    let whole = floors price b (pos_part (pos 80 -ℤ pos b)) (rest_percent b h) in
    (
      record {
        exact = omega int_laws;
        refund_nonneg = omega arith;
        earning_nonneg = omega arith;
        fee_nonneg = omega (int_laws, whole);
      },
      omega (int_laws, whole),
    )

-- A percentage that passes the test is a natural number up to eighty.
valid_percent :
    (pct : Option ℤ)
    → is_invalid_percent pct ≡ false
    → (b : ℕ) × (percent_or_zero pct ≡ pos b) × (b ≤ 80)
unfolding is_invalid_percent
valid_percent none h = absurd (ground (arith, h))
valid_percent (some (pos b)) h = (b, refl, ground (arith, h))
valid_percent (some (negsuc b)) h = absurd (ground (arith, h))

full_refund-IsPayout : (price : ℕ) → IsPayout price (full_refund price)
full_refund-IsPayout price = record {
  exact = omega int_laws;
  refund_nonneg = omega arith;
  earning_nonneg = omega arith;
  fee_nonneg = omega arith;
}

seller_payout-IsPayout : (price : ℕ) → IsPayout price (seller_payout price)
seller_payout-IsPayout price = record {
  exact = omega int_laws;
  refund_nonneg = omega arith;
  earning_nonneg = omega int_laws;
  fee_nonneg = omega arith;
}

pub ok-injective : {A : Type 0} {a b : A} → ok a ≡ ok b → a ≡ b
ok-injective h = cc h

-- What the payout of a verdict is held to.
abbrev pub PayoutSpec : ℕ → DisputeVerdict → DisputePayoutShares → Type 0
PayoutSpec price verdict s = IsPayout price s × ((verdict ≡ refund_buyer) ⊎ IsKept price s)

-- The shares of every verdict add up to the price exactly, none is negative, and whenever the buyer
-- is not refunded in full the platform keeps at least its fifth of the price, rounded down.
pub compute_dispute_payout-IsPayout :
    (price : ℕ) (verdict : DisputeVerdict) (pct : Option ℤ) (s : DisputePayoutShares)
    → compute_dispute_payout price verdict pct ≡ ok s
    → PayoutSpec price verdict s
unfolding compute_dispute_payout
compute_dispute_payout-IsPayout price refund_buyer pct s h =
    subst (PayoutSpec price refund_buyer) (ok-injective h) (full_refund-IsPayout price, inl refl)
compute_dispute_payout-IsPayout price complete_for_seller pct s h =
    subst (PayoutSpec price complete_for_seller) (ok-injective h)
      (seller_payout-IsPayout price, inr (omega arith))
compute_dispute_payout-IsPayout price split_funds pct s h =
    elim (Bool-cases (is_invalid_percent pct)) [
      | inl bad ↦ absurd (ground (arith, bad, h))
      | inr good ↦
          let (b, e, small) = valid_percent pct good in
          let (payout, kept) = split_shares-IsPayout price b small in
          let same : split_shares price (pos b) ≡ s = ground (arith, good, e, h) in
          subst (PayoutSpec price split_funds) same (payout, inr kept)
    ]

-- A split is refused exactly when its percentage is missing or outside zero to eighty; the other
-- verdicts are never refused.
pub compute_dispute_payout-refused :
    (price : ℕ) (verdict : DisputeVerdict) (pct : Option ℤ)
    → (compute_dispute_payout price verdict pct ≡ err (invalid_split_percent pct))
      ↔ ((verdict ≡ split_funds) × ((b : ℕ) → b ≤ 80 → pct ≢ some (pos b)))
unfolding compute_dispute_payout is_invalid_percent
compute_dispute_payout-refused price refund_buyer pct =
    (λ h. absurd (ground (arith, h)), λ h. absurd (ground (arith, h.0)))
compute_dispute_payout-refused price complete_for_seller pct =
    (λ h. absurd (ground (arith, h)), λ h. absurd (ground (arith, h.0)))
compute_dispute_payout-refused price split_funds none = (λ h. (refl, λ b small e. cc), λ h. refl)
compute_dispute_payout-refused price split_funds (some (negsuc n)) =
    (λ h. (refl, λ b small e. cc), λ h. ground arith)
compute_dispute_payout-refused price split_funds (some (pos n)) =
    (λ h. (refl, λ b small e. ground (arith, h, e)), λ h. ground (arith, h.1 n))
