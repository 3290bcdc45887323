-- ===== src/Tests/Verdicts.antt =====
-- Verdicts, shares and disputes on concrete values.
use campusgig_backend.Prelude.{ℕ, pos, ◌-ℤ◌, ◌≤◌, ◌≡◌, ◌≢◌, refl, none, some, [], ◌∷◌, text}
use campusgig_backend.Db.Types.{OrderStatus, Party, DisputeReasonCode, split_funds}
use campusgig_backend.Db.Rows.{DisputeEvidence}
use campusgig_backend.Db.Table.{find, user_keyed, order_keyed}
use campusgig_backend.Orders.Returns.{Returns}
use campusgig_backend.Wallet.Escrow.{DisputePayoutShares}
use campusgig_backend.Disputes.Payout.{compute_dispute_payout}
use campusgig_backend.Disputes.Payout.Shares.{
  PayoutSpec, compute_dispute_payout-IsPayout, compute_dispute_payout-refused,
}
use campusgig_backend.Disputes.File.{DisputeInput, file_dispute_tx, find_dispute, claim_row}
use campusgig_backend.Disputes.Guarded.{file_dispute-Returns}
use campusgig_backend.Tests.Fixtures.{test_env, test_db, test_order}

-- A third of 1001 for the buyer, and what the floors leave.
abbrev uneven : DisputePayoutShares
uneven = record {
  buyer_refund_vnd = pos 330;
  seller_earning_vnd = pos 470;
  platform_fee_vnd = pos 201;
}

compute_dispute_payout-IsPayout_example : PayoutSpec 1001 split_funds uneven
unfolding compute_dispute_payout ◌-ℤ◌
compute_dispute_payout-IsPayout_example =
    compute_dispute_payout-IsPayout 1001 split_funds (some (pos 33)) uneven refl

compute_dispute_payout-refused_example :
    (split_funds ≡ split_funds) × ((b : ℕ) → b ≤ 80 → some (pos 81) ≢ some (pos b))
unfolding compute_dispute_payout
compute_dispute_payout-refused_example =
    (compute_dispute_payout-refused 1001 split_funds (some (pos 81))).0 refl

abbrev halves : DisputePayoutShares
halves = record {
  buyer_refund_vnd = pos 80;
  seller_earning_vnd = pos 80;
  platform_fee_vnd = pos 40;
}

abbrev complaint : DisputeInput
complaint = record {
  order_id = 400;
  viewer_id = 10;
  reason_code = DisputeReasonCode.work_not_as_described;
  statement = text "No";
  evidence_file_ids = 950 ∷ [];
}

file_dispute-Returns_example :
    Returns (file_dispute_tx (test_env 500) complaint) (test_db OrderStatus.delivered)
unfolding find campusgig_backend.Disputes.File.is_disputable find_dispute
file_dispute-Returns_example =
    (file_dispute-Returns (test_env 500) complaint (test_db OrderStatus.delivered)).1
      (test_order OrderStatus.delivered, refl, refl, refl, refl)

abbrev photo : DisputeEvidence
photo = record {
  id = 950;
  dispute_id = none;
  order_id = 400;
  side = Party.buyer;
  uploaded_by_user_id = 10;
  file_key = text "k";
  name = text "n";
  size = 1;
  mime = text "m";
}
