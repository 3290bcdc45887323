-- ===== src/Orders/Decide.antt =====
-- `acceptOrder`, `declineOrder` and `autoCancelOrder` of
-- src/modules/orders/infrastructure/persistence/prisma-orders.repository.ts.
use campusgig_backend.Prelude.{ℕ, ◌+◌, ◌*◌, ◌==◌, ltb, Option, none, some, not, length, trim, text}
use campusgig_backend.Db.Types.{
  Text, OrderStatus, OrderEventType, SystemEventType, Attempt, status_is,
}
use campusgig_backend.Db.Rows.{Order, Message}
use campusgig_backend.Db.Table.{order_keyed}
use campusgig_backend.Db.Tx.{
  Tx, Env, ◌>>=◌, ◌>>◌, return, throw_if, find_order, save_order, create_event, order_not_found,
  not_a_participant, invalid_transition, decline_note_too_short,
}
use campusgig_backend.Db.World.{
  Action, commit, schedule, remove_job, emit, accept_deadline, delivery_deadline,
}
use campusgig_backend.Messaging.{announce}
use campusgig_backend.Wallet.Escrow.{refund_from_escrow}
use campusgig_backend.Orders.Windows.{hour_ms}
use campusgig_backend.Orders.Guards.{when_status, after_some, schedule_if}

abbrev pub accepted_order : Env → Order → Order
accepted_order env order = record order {
  status = OrderStatus.in_progress;
  accepted_at = some env.now;
  delivery_deadline = some (env.now + order.gig_delivery_days * (24 * hour_ms));
}

unfoldable pub accept_order_tx : Env → ℕ → ℕ → Tx (Order × Message)
unfolding announce
accept_order_tx env order_id viewer_id = do
  order ← find_order order_id (order_not_found order_id)
  throw_if (not (order.seller_id == viewer_id)) (not_a_participant order_id)
  throw_if (not (status_is order.status OrderStatus.pending_review))
      (invalid_transition order.status Attempt.accept)
  save_order (accepted_order env order)
  create_event order_id OrderEventType.accepted (some viewer_id)
  message ←
      announce (env.uuid 1) order.buyer_id order.seller_id order_id SystemEventType.order_accepted
        env.now
  return (accepted_order env order, message)

unfoldable pub accept_order : Env → ℕ → ℕ → Action (Order × Message)
unfolding accept_order_tx
accept_order env order_id viewer_id =
    commit (accept_order_tx env order_id viewer_id) λ (order, message) w.
      schedule_if env.now order.delivery_deadline (schedule env.now delivery_deadline order_id)
        (remove_job accept_deadline order_id (emit message w))

abbrev pub cancelled_order : Env → Option ℕ → Text → Order → Order
cancelled_order env by reason order = record order {
  status = OrderStatus.cancelled;
  cancelled_at = some env.now;
  cancelled_by_user_id = by;
  cancellation_reason = some reason;
}

unfoldable pub decline_order_tx : Env → ℕ → ℕ → Text → Tx (Order × Message)
unfolding refund_from_escrow announce
decline_order_tx env order_id viewer_id trimmed = do
  order ← find_order order_id (order_not_found order_id)
  throw_if (not (order.seller_id == viewer_id)) (not_a_participant order_id)
  throw_if (not (status_is order.status OrderStatus.pending_review))
      (invalid_transition order.status Attempt.decline)
  save_order (cancelled_order env (some viewer_id) trimmed order)
  refund_from_escrow (env.uuid 2) order.buyer_id order.gig_price_vnd_snapshot order_id
  create_event order_id OrderEventType.declined (some viewer_id)
  message ←
      announce (env.uuid 1) order.buyer_id order.seller_id order_id SystemEventType.order_declined
        env.now
  return (cancelled_order env (some viewer_id) trimmed order, message)

-- The length is tested before the transaction.
unfoldable pub decline_order : Env → ℕ → ℕ → Text → Action (Order × Message)
unfolding decline_order_tx
decline_order env order_id viewer_id note =
    let trimmed = trim note in
    commit
      (throw_if (ltb (length trimmed) 20) (decline_note_too_short 20)
        >> decline_order_tx env order_id viewer_id trimmed)
      (λ (order, message) w. remove_job accept_deadline order_id (emit message w))

abbrev pub no_response_reason : Text
no_response_reason = text "Seller didn't respond within 24 hours"

-- The job may fire after a decision: nothing then happens.
unfoldable pub auto_cancel_order_tx : Env → ℕ → Tx (Option (Order × Message))
unfolding refund_from_escrow announce
auto_cancel_order_tx env order_id = when_status order_id OrderStatus.pending_review λ order. do
  save_order (cancelled_order env none no_response_reason order)
  refund_from_escrow (env.uuid 2) order.buyer_id order.gig_price_vnd_snapshot order_id
  create_event order_id OrderEventType.auto_cancelled none
  message ←
      announce (env.uuid 1) order.buyer_id order.seller_id order_id
        SystemEventType.order_auto_cancelled env.now
  return (some (cancelled_order env none no_response_reason order, message))

unfoldable pub auto_cancel_order : Env → ℕ → Action (Option (Order × Message))
unfolding auto_cancel_order_tx
auto_cancel_order env order_id =
    commit (auto_cancel_order_tx env order_id) (after_some λ (order, message) w. emit message w)
