-- ===== src/Tests/Payments.antt =====
-- Deposits and withdrawals on the test tables.
use campusgig_backend.Prelude.{
  inr, ℕ, pos, ◌+ℤ◌, ◌-ℤ◌, ◌≤ℤ◌, ◌≡◌, refl, arith, none, some, true, int_laws, ◌∷◌, text,
}
use campusgig_backend.Db.Types.{
  OrderStatus, PaymentStatus, payment_is_pending, WithdrawalRejectionReason,
}
use campusgig_backend.Db.Rows.{User, WithdrawalRequest, Db}
use campusgig_backend.Db.Tx.{ok, err, update_balances, bad_request, already_processed}
use campusgig_backend.Db.Table.{find, user_keyed, withdrawal_request_keyed}
use campusgig_backend.Ledger.Balances.{Adjust, total_money}
use campusgig_backend.Wallet.Funds.{
  deposit, request_withdrawal, approve_withdrawal, reject_withdrawal, finish_approval,
  finish_rejection,
}
use campusgig_backend.Wallet.Pending.{PendingBacked, pending_of, requested, requested_by}
use campusgig_backend.Wallet.Withdraw.{
  request_withdrawal_lem, request_withdrawal-PendingBacked, request_delta,
}
use campusgig_backend.Wallet.Decided.{finish_approval-once}
use campusgig_backend.Wallet.Outcome.{
  approve_withdrawal-returns, approve_withdrawal_lem, reject_withdrawal_lem,
}
use campusgig_backend.Tests.Fixtures.{test_env, test_db, test_request, db_of}

abbrev bank : Db
bank = test_db OrderStatus.late

one_request : (u : ℕ) → requested u bank.withdrawal_requests ≡ requested_by u test_request
unfolding requested
one_request u = omega int_laws

bank-PendingBacked : PendingBacked bank.users bank.withdrawal_requests
unfolding pending_of requested_by find
bank-PendingBacked u = rw (one_request u) (ground arith)

abbrev rich : Db
rich = db_of (deposit (test_env 500) 10 (pos 40)) bank

abbrev asked : Db
asked = db_of (request_withdrawal (test_env 500) 10 (pos 300)) bank

abbrev filed : WithdrawalRequest
filed = record {
  id = 500;
  user_id = 10;
  amount_vnd = pos 300;
  bank_name_snapshot = text "VCB";
  bank_account_number_snapshot = text "0011";
  bank_account_holder_snapshot = text "AN";
  available_balance_snapshot = pos 900;
  status = PaymentStatus.pending;
  rejection_reason = none;
  rejection_note = none;
  processed_by_user_id = none;
  requested_at = 1500;
  processed_at = none;
}

request_withdrawal_lem_example :
    (u : User) × (find 10 bank.users ≡ some u)
    × (pos 300 ≤ℤ u.wallet_balance)
    × Adjust 10 (request_delta (pos 300)) bank.users asked.users
    × (asked.orders ≡ bank.orders)
    × (asked.withdrawal_requests ≡ filed ∷ bank.withdrawal_requests)
    × (filed.user_id ≡ 10)
    × (filed.amount_vnd ≡ pos 300)
    × (payment_is_pending filed.status ≡ true)
unfolding request_withdrawal update_balances find ◌+ℤ◌ ◌-ℤ◌
request_withdrawal_lem_example =
    request_withdrawal_lem (test_env 500) 10 (pos 300) bank asked filed refl

request_withdrawal-PendingBacked_example : PendingBacked asked.users asked.withdrawal_requests
unfolding request_withdrawal update_balances find ◌+ℤ◌ ◌-ℤ◌
request_withdrawal-PendingBacked_example =
    request_withdrawal-PendingBacked (test_env 500) 10 (pos 300) bank asked _ refl
      bank-PendingBacked

approve_withdrawal-returns_example :
    (d' : Db) × (approve_withdrawal (test_env 500) 800 1 bank ≡ ok (tt, d'))
unfolding find
approve_withdrawal-returns_example =
    (approve_withdrawal-returns (test_env 500) 800 1 bank).1 (test_request, refl, refl, _, refl)

abbrev approved : Db
approved = db_of (approve_withdrawal (test_env 500) 800 1) bank

approve_withdrawal_lem_example :
    (r : WithdrawalRequest) × (find 800 bank.withdrawal_requests ≡ some r)
    × (total_money approved.users +ℤ r.amount_vnd ≡ total_money bank.users)
    × (approved.orders ≡ bank.orders)
    × (PendingBacked bank.users bank.withdrawal_requests
        → PendingBacked approved.users approved.withdrawal_requests)
unfolding approve_withdrawal find update_balances
approve_withdrawal_lem_example = approve_withdrawal_lem (test_env 500) 800 1 bank approved refl

abbrev rejected : Db
rejected =
    db_of (reject_withdrawal (test_env 500) 800 1 WithdrawalRejectionReason.other (text "No")) bank

reject_withdrawal_lem_example :
    (total_money rejected.users ≡ total_money bank.users)
    × (rejected.orders ≡ bank.orders)
    × (PendingBacked bank.users bank.withdrawal_requests
        → PendingBacked rejected.users rejected.withdrawal_requests)
unfolding reject_withdrawal find update_balances
reject_withdrawal_lem_example =
    reject_withdrawal_lem (test_env 500) 800 1 WithdrawalRejectionReason.other (text "No") bank
      rejected refl

abbrev flipped : Db
flipped =
    db_of
      (finish_rejection (test_env 500) test_request 1 WithdrawalRejectionReason.other (text "No"))
      bank

finish_approval-once_example :
    (finish_approval (test_env 600) test_request 1 flipped ≡ err (bad_request already_processed))
    × (finish_rejection
          (test_env 600)
          test_request
          1
          WithdrawalRejectionReason.other
          (text "No")
          flipped
        ≡ err (bad_request already_processed))
unfolding finish_rejection find update_balances
finish_approval-once_example =
    finish_approval-once test_request test_request (test_env 500) (test_env 600) 1 1
      WithdrawalRejectionReason.other WithdrawalRejectionReason.other (text "No") (text "No") bank
      flipped (inr refl) refl
