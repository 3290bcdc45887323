-- ===== src/Orders/Finish.antt =====
-- `markLate`, `autoCompleteOrder` and `finalizeOrder` of
-- src/modules/orders/infrastructure/persistence/prisma-orders.repository.ts: what the deadline jobs
-- do. A job that comes too late finds another status and does nothing.
use campusgig_backend.Prelude.{ℕ, ◌+◌, Option, none, some}
use campusgig_backend.Db.Types.{OrderStatus, OrderEventType, SystemEventType}
use campusgig_backend.Db.Rows.{Order, Message, Transaction}
use campusgig_backend.Db.Table.{order_keyed}
use campusgig_backend.Db.Tx.{
  Tx, Env, ◌>>=◌, ◌>>◌, return, save_order, create_event, count_completed,
}
use campusgig_backend.Db.World.{
  Action, commit, schedule, remove_job, emit, review_deadline, dispute_deadline,
}
use campusgig_backend.Messaging.{announce}
use campusgig_backend.Wallet.Escrow.{release_from_escrow}
use campusgig_backend.Orders.Windows.{
  dispute_window_ms, platform_fee_pct, platform_fee_collector_user_id,
}
use campusgig_backend.Orders.Guards.{when_status, after_some}
use campusgig_backend.Orders.Deliver.{completed_order}

abbrev pub late_order : Order → Order
late_order order = record order { status = OrderStatus.late }

unfoldable pub mark_late_tx : Env → ℕ → Tx (Option (Order × Message))
unfolding announce
mark_late_tx env order_id = when_status order_id OrderStatus.in_progress λ order. do
  save_order (late_order order)
  create_event order_id OrderEventType.late none
  message ←
      announce (env.uuid 1) order.buyer_id order.seller_id order_id
        SystemEventType.order_marked_late env.now
  return (some (late_order order, message))

abbrev pub auto_completed_order : Env → Order → Order
auto_completed_order env order = record order {
  status = OrderStatus.awaiting_finalization;
  auto_completed_at = some env.now;
  dispute_deadline = some (env.now + dispute_window_ms);
}

unfoldable pub auto_complete_order_tx : Env → ℕ → Tx (Option (Order × Message))
unfolding announce
auto_complete_order_tx env order_id = when_status order_id OrderStatus.delivered λ order. do
  save_order (auto_completed_order env order)
  create_event order_id OrderEventType.auto_completed none
  message ←
      announce (env.uuid 1) order.buyer_id order.seller_id order_id
        SystemEventType.order_auto_completed env.now
  return (some (auto_completed_order env order, message))

unfoldable pub finalize_order_tx :
    Env → ℕ → Tx (Option (Order × (Transaction × Transaction) × Message))
unfolding announce
finalize_order_tx env order_id = when_status order_id OrderStatus.awaiting_finalization λ order. do
  save_order (completed_order env order)
  count_completed order.gig_id
  moves ←
      release_from_escrow env.uuid order.buyer_id order.seller_id platform_fee_collector_user_id
        order.gig_price_vnd_snapshot platform_fee_pct order_id
  create_event order_id OrderEventType.finalized none
  message ←
      announce (env.uuid 1) order.buyer_id order.seller_id order_id SystemEventType.order_finalized
        env.now
  return (some (completed_order env order, moves, message))

unfoldable pub mark_late : Env → ℕ → Action (Option (Order × Message))
unfolding mark_late_tx
mark_late env order_id =
    commit (mark_late_tx env order_id) (after_some λ (order, message) w. emit message w)

unfoldable pub auto_complete_order : Env → ℕ → Action (Option (Order × Message))
unfolding auto_complete_order_tx
auto_complete_order env order_id = commit (auto_complete_order_tx env order_id) (
    after_some λ (order, message) w.
      schedule env.now dispute_deadline order_id (env.now + dispute_window_ms)
        (remove_job review_deadline order_id (emit message w)))

unfoldable pub finalize_order :
    Env → ℕ → Action (Option (Order × (Transaction × Transaction) × Message))
unfolding finalize_order_tx
finalize_order env order_id =
    commit (finalize_order_tx env order_id) (
      after_some λ (order, moves, message) w. remove_job dispute_deadline order_id (emit message w))
