-- ===== src/Wallet/Escrow.antt =====
-- The escrow moves of src/modules/wallet/infrastructure/persistence/prisma-wallet.repository.ts.
-- Callers pass their transaction, so each move is a step of it. Prices are natural numbers; a
-- share is an integer, since the code computes it by subtraction.
use campusgig_backend.Prelude.{
  ℕ, ℤ, pos, ◌*◌, ◌/◌, ◌+ℤ◌, ◌-ℤ◌, ltb_ℤ, Option, none, some, if◌then◌else◌,
}
use campusgig_backend.Db.Types.{TransactionType, TransactionDirection, PaymentStatus}
use campusgig_backend.Db.Rows.{User, Transaction}
use campusgig_backend.Db.Tx.{
  Tx, ◌>>=◌, ◌>>◌, return, throw_if, bad_request, insufficient_balance, create_transaction,
  update_balances,
}

-- A completed movement on a user's wallet for an order.
abbrev pub order_transaction :
    ℕ → ℕ → TransactionType → TransactionDirection → ℤ → ℤ → ℕ → Transaction
order_transaction id user_id type direction amount after order_id = record {
  id = id;
  user_id = user_id;
  type = type;
  direction = direction;
  status = PaymentStatus.completed;
  amount_vnd = amount;
  balance_after_vnd = some after;
  order_id = some order_id;
  withdrawal_request_id = none;
}

abbrev pub zero_vnd : ℤ
zero_vnd = pos 0

unfoldable pub move_to_escrow : ℕ → ℕ → ℕ → ℕ → Tx Transaction
move_to_escrow new_id user_id amount order_id = do
  user ←
      update_balances user_id
        (record { wallet = zero_vnd -ℤ pos amount; escrow = pos amount; held = zero_vnd })
  throw_if (ltb_ℤ user.wallet_balance zero_vnd) (bad_request insufficient_balance)
  let t =
      order_transaction new_id user_id TransactionType.payment TransactionDirection.outgoing
        (pos amount) user.wallet_balance order_id
  create_transaction t
  return t

-- `Math.floor((amountVnd * platformFeePct) / 100)`
abbrev pub platform_share : ℕ → ℕ → ℕ
platform_share amount pct = amount * pct / 100

unfoldable pub credit : ℕ → ℤ → Tx User
credit user_id amount =
    update_balances user_id (record { wallet = amount; escrow = zero_vnd; held = zero_vnd })

-- The transactions are the seller's earning and the platform's fee.
unfoldable pub release_from_escrow :
    (ℕ → ℕ) → ℕ → ℕ → ℕ → ℕ → ℕ → ℕ → Tx (Transaction × Transaction)
unfolding credit
release_from_escrow uuid buyer_id seller_id platform_user_id amount pct order_id = do
  let fee = pos (platform_share amount pct)
  let share = pos amount -ℤ fee
  update_balances buyer_id
      (record { wallet = zero_vnd; escrow = zero_vnd -ℤ pos amount; held = zero_vnd })
  seller ← credit seller_id share
  platform ← credit platform_user_id fee
  let earning =
      order_transaction (uuid 2) seller_id TransactionType.earning TransactionDirection.incoming
        share seller.wallet_balance order_id
  create_transaction earning
  let platform_fee =
      order_transaction (uuid 3) platform_user_id TransactionType.earning
        TransactionDirection.incoming fee platform.wallet_balance order_id
  create_transaction platform_fee
  return (earning, platform_fee)

unfoldable pub refund_from_escrow : ℕ → ℕ → ℕ → ℕ → Tx Transaction
refund_from_escrow new_id buyer_id amount order_id = do
  buyer ←
      update_balances buyer_id
        (record { wallet = pos amount; escrow = zero_vnd -ℤ pos amount; held = zero_vnd })
  let t =
      order_transaction new_id buyer_id TransactionType.refund TransactionDirection.incoming
        (pos amount) buyer.wallet_balance order_id
  create_transaction t
  return t

-- `DisputePayoutShares`
pub record DisputePayoutShares : Type 0 where
  pub buyer_refund_vnd : ℤ
  pub seller_earning_vnd : ℤ
  pub platform_fee_vnd : ℤ

-- A share above zero is paid to the user and booked; any other is skipped.
unfoldable pub pay_share : ℕ → ℕ → ℤ → ℕ → Tx (Option Transaction)
unfolding credit
pay_share new_id user_id amount order_id =
    if ltb_ℤ zero_vnd amount
    then (do
      user ← credit user_id amount
      let t =
          order_transaction new_id user_id TransactionType.earning TransactionDirection.incoming
            amount user.wallet_balance order_id
      create_transaction t
      return (some t))
    else return none

-- The optional rows that `splitFromEscrow` returns.
pub record SplitRefs : Type 0 where
  pub refund : Option Transaction
  pub earning : Option Transaction
  pub platform_fee : Option Transaction

-- The refund is booked only if it is above zero.
unfoldable pub book_refund : ℕ → ℕ → ℤ → ℤ → ℕ → Tx (Option Transaction)
book_refund new_id buyer_id amount after order_id =
    if ltb_ℤ zero_vnd amount
    then (do
      let t =
          order_transaction new_id buyer_id TransactionType.refund TransactionDirection.incoming
            amount after order_id
      create_transaction t
      return (some t))
    else return none

unfoldable pub split_from_escrow : (ℕ → ℕ) → ℕ → ℕ → ℕ → DisputePayoutShares → ℕ → Tx SplitRefs
unfolding pay_share book_refund
split_from_escrow uuid buyer_id seller_id platform_user_id shares order_id = do
  let total = shares.buyer_refund_vnd +ℤ shares.seller_earning_vnd +ℤ shares.platform_fee_vnd
  buyer ← update_balances buyer_id (record {
    wallet = if ltb_ℤ zero_vnd shares.buyer_refund_vnd then shares.buyer_refund_vnd else zero_vnd;
    escrow = zero_vnd -ℤ total;
    held = zero_vnd;
  })
  refund ← book_refund (uuid 2) buyer_id shares.buyer_refund_vnd buyer.wallet_balance order_id
  earning ← pay_share (uuid 3) seller_id shares.seller_earning_vnd order_id
  platform_fee ← pay_share (uuid 4) platform_user_id shares.platform_fee_vnd order_id
  return (record { refund = refund; earning = earning; platform_fee = platform_fee })
