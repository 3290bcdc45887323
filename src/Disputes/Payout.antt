-- ===== src/Disputes/Payout.antt =====
-- src/modules/disputes/domain/services/compute-dispute-payout.ts: how a verdict divides the price.
pub mod Shares
use campusgig_backend.Prelude.{
  ℕ, ℤ, pos, pos_part, ◌*◌, ◌/◌, ◌-ℤ◌, ltb_ℤ, ◌||◌, Option, none, some, Bool, true, false,
  if◌then◌else◌,
}
use campusgig_backend.Db.Types.{DisputeVerdict, refund_buyer, complete_for_seller, split_funds}
use campusgig_backend.Db.Tx.{Result, ok, err, invalid_split_percent}
use campusgig_backend.Wallet.Escrow.{DisputePayoutShares}

abbrev pub platform_fee_pct : ℕ
platform_fee_pct = 20

abbrev pub max_buyer_refund_pct : ℕ
max_buyer_refund_pct = 80

-- `Math.floor((priceVnd * pct) / 100)` of a price and a percentage that are not negative
abbrev pub percent_of : ℕ → ℕ → ℕ
percent_of price pct = price * pct / 100

-- The shares of a split whose percentage has been tested.
unfoldable pub split_shares : ℕ → ℤ → DisputePayoutShares
split_shares price pct =
    let refund = pos (percent_of price (pos_part pct)) in
    let earning = pos (percent_of price (pos_part (pos max_buyer_refund_pct -ℤ pct))) in
    record {
      buyer_refund_vnd = refund;
      seller_earning_vnd = earning;
      platform_fee_vnd = pos price -ℤ refund -ℤ earning;
    }

-- The type of the percentage leaves only `null` and the range to test.
unfoldable pub is_invalid_percent : Option ℤ → Bool
is_invalid_percent none = true
is_invalid_percent (some b) = ltb_ℤ b (pos 0) || ltb_ℤ (pos max_buyer_refund_pct) b

abbrev pub percent_or_zero : Option ℤ → ℤ
percent_or_zero none = pos 0
percent_or_zero (some b) = b

-- The shares of a full refund.
abbrev pub full_refund : ℕ → DisputePayoutShares
full_refund price = record {
  buyer_refund_vnd = pos price;
  seller_earning_vnd = pos 0;
  platform_fee_vnd = pos 0;
}

-- The shares of an order completed for the seller.
abbrev pub seller_payout : ℕ → DisputePayoutShares
seller_payout price = record {
  buyer_refund_vnd = pos 0;
  seller_earning_vnd = pos price -ℤ pos (percent_of price platform_fee_pct);
  platform_fee_vnd = pos (percent_of price platform_fee_pct);
}

unfoldable pub compute_dispute_payout : ℕ → DisputeVerdict → Option ℤ → Result DisputePayoutShares
unfolding split_shares is_invalid_percent
compute_dispute_payout price refund_buyer pct = ok (full_refund price)
compute_dispute_payout price complete_for_seller pct = ok (seller_payout price)
compute_dispute_payout price split_funds pct =
    if is_invalid_percent pct
    then err (invalid_split_percent pct)
    else ok (split_shares price (percent_or_zero pct))
