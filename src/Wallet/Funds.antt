-- ===== src/Wallet/Funds.antt =====
-- Deposits, bank accounts and withdrawals of
-- src/modules/wallet/infrastructure/persistence/prisma-wallet.repository.ts.
use campusgig_backend.Prelude.{
  ℕ, ℤ, ◌+ℤ◌, ◌-ℤ◌, ltb_ℤ, ◌==◌, ◌&&◌, ◌||◌, Option, none, some, Bool, true, false, not,
  if◌then◌else◌, List, [], ◌∷◌, map,
}
use campusgig_backend.Db.Types.{
  Text, TransactionType, TransactionDirection, PaymentStatus, WithdrawalRejectionReason,
  payment_is_pending,
}
use campusgig_backend.Db.Rows.{User, Transaction, WithdrawalRequest}
use campusgig_backend.Db.Table.{find, put, user_keyed, withdrawal_request_keyed}
use campusgig_backend.Db.Tx.{
  Tx, Env, ◌>>=◌, ◌>>◌, return, or_throw, throw_if, modify, bad_request, insufficient_balance,
  bank_account_required, withdrawal_missing, already_processed, record_not_found,
  create_transaction, update_balances,
}
use campusgig_backend.Wallet.Escrow.{zero_vnd}

pub record BankAccountInput : Type 0 where
  pub bank_name : Text
  pub bank_account_number : Text
  pub bank_account_holder : Text

-- JavaScript's truth of a column that may be null: null and the empty text are false.
abbrev pub truthy : Option Text → Bool
truthy none = false
truthy (some []) = false
truthy (some (c ∷ cs)) = true

abbrev pub is_some : Option Text → Bool
is_some none = false
is_some (some t) = true

abbrev pub text_or_empty : Option Text → Text
text_or_empty none = []
text_or_empty (some t) = t

-- `toBalance(user).hasBankAccount`
unfoldable pub has_bank_account : User → Bool
has_bank_account u = is_some u.bank_name && is_some u.bank_account_number

-- `hasPendingWithdrawal`, a count above zero
unfoldable pub has_pending_withdrawal : ℕ → List WithdrawalRequest → Bool
has_pending_withdrawal user_id [] = false
has_pending_withdrawal user_id (r ∷ rs) =
    r.user_id == user_id && payment_is_pending r.status || has_pending_withdrawal user_id rs

unfoldable pub deposit : Env → ℕ → ℤ → Tx User
deposit env user_id amount = do
  user ← update_balances user_id (record { wallet = amount; escrow = zero_vnd; held = zero_vnd })
  create_transaction (record {
    id = env.uuid 0;
    user_id = user_id;
    type = TransactionType.deposit;
    direction = TransactionDirection.incoming;
    status = PaymentStatus.completed;
    amount_vnd = amount;
    balance_after_vnd = some user.wallet_balance;
    order_id = none;
    withdrawal_request_id = none;
  })
  return user

unfoldable pub setup_bank_account : ℕ → BankAccountInput → Tx (Unit {0})
setup_bank_account user_id bank = do
  user ← (λ d. or_throw (find user_id d.users) record_not_found d)
  modify (λ d. record d {
    users =
        put
          (record user {
            bank_name = some bank.bank_name;
            bank_account_number = some bank.bank_account_number;
            bank_account_holder = some bank.bank_account_holder;
          })
          d.users;
  })

-- The balances move first; a negative wallet balance then rolls the whole transaction back.
unfoldable pub request_withdrawal : Env → ℕ → ℤ → Tx WithdrawalRequest
request_withdrawal env user_id amount = do
  user ←
      update_balances user_id
        (record { wallet = zero_vnd -ℤ amount; escrow = zero_vnd; held = amount })
  throw_if (ltb_ℤ user.wallet_balance zero_vnd) (bad_request insufficient_balance)
  throw_if
      (not (truthy user.bank_name)
        || not (truthy user.bank_account_number)
        || not (truthy user.bank_account_holder))
      (bad_request bank_account_required)
  let request : WithdrawalRequest = record {
    id = env.uuid 0;
    user_id = user_id;
    amount_vnd = amount;
    bank_name_snapshot = text_or_empty user.bank_name;
    bank_account_number_snapshot = text_or_empty user.bank_account_number;
    bank_account_holder_snapshot = text_or_empty user.bank_account_holder;
    available_balance_snapshot = user.wallet_balance +ℤ amount;
    status = PaymentStatus.pending;
    rejection_reason = none;
    rejection_note = none;
    processed_by_user_id = none;
    requested_at = env.now;
    processed_at = none;
  }
  modify (λ d. record d { withdrawal_requests = request ∷ d.withdrawal_requests })
  create_transaction (record {
    id = env.uuid 1;
    user_id = user_id;
    type = TransactionType.withdrawal;
    direction = TransactionDirection.outgoing;
    status = PaymentStatus.pending;
    amount_vnd = amount;
    balance_after_vnd = some user.wallet_balance;
    order_id = none;
    withdrawal_request_id = some request.id;
  })
  return request

-- One row under `transaction.updateMany({ where: { withdrawalRequestId } })`: a new status, and a new
-- balance if one is given.
abbrev pub settle_row : ℕ → PaymentStatus → Option ℤ → Transaction → Transaction
settle_row request_id status balance t = elim t.withdrawal_request_id [
  | none ↦ t
  | some i ↦
      if i == request_id
      then record t {
        status = status;
        balance_after_vnd = elim balance [ none ↦ t.balance_after_vnd | some b ↦ some b ];
      }
      else t
]

unfoldable pub settle_transactions :
    ℕ → PaymentStatus → Option ℤ → List Transaction → List Transaction
settle_transactions request_id status balance = map (settle_row request_id status balance)

-- `findUnique` and the test of its status, as both decisions begin.
abbrev pub find_pending_request : ℕ → Tx WithdrawalRequest
find_pending_request withdrawal_id = do
  request ←
      λ d. or_throw (find withdrawal_id d.withdrawal_requests) (bad_request withdrawal_missing) d
  throw_if (not (payment_is_pending request.status)) (bad_request already_processed)
  return request

-- The guard `updateMany({ where: { id, status: 'Pending' } })`: it throws when no row is left to
-- flip, that is when another decision came between the read and this write.
abbrev pub flip_pending : ℕ → (WithdrawalRequest → WithdrawalRequest) → Tx (Unit {0})
flip_pending withdrawal_id change = do
  request ←
      λ d. or_throw (find withdrawal_id d.withdrawal_requests) (bad_request already_processed) d
  throw_if (not (payment_is_pending request.status)) (bad_request already_processed)
  modify (λ d. record d { withdrawal_requests = put (change request) d.withdrawal_requests })

-- What follows the read of the request in `approveWithdrawal`.
unfoldable pub finish_approval : Env → WithdrawalRequest → ℕ → Tx (Unit {0})
unfolding settle_transactions
finish_approval env request admin_id = do
  flip_pending request.id (λ r. record r {
    status = PaymentStatus.completed;
    processed_at = some env.now;
    processed_by_user_id = some admin_id;
  })
  update_balances request.user_id
      (record { wallet = zero_vnd; escrow = zero_vnd; held = zero_vnd -ℤ request.amount_vnd })
  modify (λ d. record d {
    transactions = settle_transactions request.id PaymentStatus.completed none d.transactions;
  })

unfoldable pub approve_withdrawal : Env → ℕ → ℕ → Tx (Unit {0})
unfolding finish_approval
approve_withdrawal env withdrawal_id admin_id = do
  request ← find_pending_request withdrawal_id
  finish_approval env request admin_id

-- What follows the read of the request in `rejectWithdrawal`.
unfoldable pub finish_rejection :
    Env → WithdrawalRequest → ℕ → WithdrawalRejectionReason → Text → Tx (Unit {0})
unfolding settle_transactions
finish_rejection env request admin_id reason note = do
  flip_pending request.id (λ r. record r {
    status = PaymentStatus.rejected;
    rejection_reason = some reason;
    rejection_note = some note;
    processed_at = some env.now;
    processed_by_user_id = some admin_id;
  })
  user ← update_balances request.user_id (record {
    wallet = request.amount_vnd;
    escrow = zero_vnd;
    held = zero_vnd -ℤ request.amount_vnd;
  })
  modify (λ d. record d {
    transactions =
        settle_transactions request.id PaymentStatus.rejected (some user.wallet_balance)
          d.transactions;
  })

unfoldable pub reject_withdrawal : Env → ℕ → ℕ → WithdrawalRejectionReason → Text → Tx (Unit {0})
unfolding finish_rejection
reject_withdrawal env withdrawal_id admin_id reason note = do
  request ← find_pending_request withdrawal_id
  finish_rejection env request admin_id reason note
