-- ===== src/Orders/Cancel/Decide.antt =====
-- `decideCancellation` and `expireCancellation` of
-- src/modules/orders/infrastructure/persistence/prisma-orders.repository.ts.
use campusgig_backend.Prelude.{ℕ, ◌==◌, ◌||◌, Option, none, some, not, true, false}
use campusgig_backend.Db.Types.{OrderEventType, SystemEventType, Attempt, RequestStatus, is_pending}
use campusgig_backend.Db.Rows.{Order, Cancellation, Message, Transaction}
use campusgig_backend.Db.Table.{find, put, order_keyed, cancellation_keyed}
use campusgig_backend.Db.Tx.{
  Tx, Env, ok, ◌>>=◌, ◌>>◌, return, or_throw, throw_if, modify, find_order, save_order,
  create_event, order_not_found, not_a_participant, invalid_transition, record_not_found,
}
use campusgig_backend.Db.World.{
  Action, World, commit, remove_job, emit, accept_deadline, delivery_deadline, review_deadline,
  dispute_deadline, cancellation_expiry,
}
use campusgig_backend.Messaging.{announce}
use campusgig_backend.Wallet.Escrow.{refund_from_escrow}
use campusgig_backend.Orders.Guards.{after_some}
use campusgig_backend.Orders.Decide.{cancelled_order}
use campusgig_backend.Orders.Extend.{Decision, accept, reject, decided}
use campusgig_backend.Orders.Cancel.Reason.{format_cancellation_reason}

abbrev pub cancellation_event : Decision → OrderEventType
cancellation_event accept = OrderEventType.cancellation_accepted
cancellation_event reject = OrderEventType.cancellation_rejected

abbrev pub cancellation_message : Decision → SystemEventType
cancellation_message accept = SystemEventType.cancellation_accepted
cancellation_message reject = SystemEventType.cancellation_rejected

-- An acceptance refunds the buyer and closes the order. The order's status is not looked at.
unfoldable pub apply_decision : Env → ℕ → Decision → Cancellation → Order → Tx (Option Transaction)
unfolding refund_from_escrow format_cancellation_reason
apply_decision env viewer_id reject cancellation order = return none
apply_decision env viewer_id accept cancellation order = do
  refund ←
      refund_from_escrow (env.uuid 2) order.buyer_id order.gig_price_vnd_snapshot
        cancellation.order_id
  save_order (
      cancelled_order env (some viewer_id)
        (format_cancellation_reason cancellation.reason_code cancellation.other_text) order)
  return (some refund)

unfoldable pub decide_cancellation_tx :
    Env → ℕ → ℕ → Decision → Tx (Order × Cancellation × Option Transaction × Message)
unfolding announce apply_decision
decide_cancellation_tx env cancellation_id viewer_id decision = do
  cancellation ←
      λ d. or_throw (find cancellation_id d.cancellations) (order_not_found cancellation_id) d
  order ← find_order cancellation.order_id (order_not_found cancellation_id)
  throw_if (not (is_pending cancellation.status))
      (invalid_transition order.status Attempt.decide_cancellation)
  throw_if (not (order.buyer_id == viewer_id || order.seller_id == viewer_id))
      (not_a_participant cancellation.order_id)
  throw_if (cancellation.requested_by_id == viewer_id) (not_a_participant cancellation.order_id)
  let cancellation' : Cancellation = record cancellation {
    status = decided decision;
    decided_at = some env.now;
    decided_by_id = some viewer_id;
  }
  modify (λ d. record d { cancellations = put cancellation' d.cancellations })
  refund ← apply_decision env viewer_id decision cancellation order
  create_event cancellation.order_id (cancellation_event decision) (some viewer_id)
  reloaded ← find_order cancellation.order_id record_not_found
  message ←
      announce (env.uuid 1) order.buyer_id order.seller_id cancellation.order_id
        (cancellation_message decision) env.now
  return (reloaded, cancellation', refund, message)

-- An accepted cancellation drops all four deadline jobs of the order.
abbrev pub drop_deadlines : Decision → ℕ → World → World
drop_deadlines reject order_id w = w
drop_deadlines accept order_id w = remove_job dispute_deadline order_id (
    remove_job review_deadline order_id
      (remove_job delivery_deadline order_id (remove_job accept_deadline order_id w)))

unfoldable pub decide_cancellation :
    Env → ℕ → ℕ → Decision → Action (Order × Cancellation × Option Transaction × Message)
unfolding decide_cancellation_tx
decide_cancellation env cancellation_id viewer_id decision =
    commit (decide_cancellation_tx env cancellation_id viewer_id decision)
      λ (order, cancellation, refund, message) w.
        drop_deadlines decision order.id
          (remove_job cancellation_expiry cancellation_id (emit message w))

unfoldable pub expire_cancellation_tx : Env → ℕ → Tx (Option (Order × Cancellation × Message))
unfolding announce
expire_cancellation_tx env cancellation_id d = elim (find cancellation_id d.cancellations) [
  | none ↦ ok (none, d)
  | some cancellation ↦ elim (is_pending cancellation.status) [
    | false ↦ ok (none, d)
    | true ↦
        (do
          let cancellation' : Cancellation = record cancellation {
            status = RequestStatus.expired;
            decided_at = some env.now;
          }
          modify (λ d. record d { cancellations = put cancellation' d.cancellations })
          create_event cancellation.order_id OrderEventType.cancellation_expired none
          order ← find_order cancellation.order_id record_not_found
          message ←
              announce (env.uuid 1) order.buyer_id order.seller_id cancellation.order_id
                SystemEventType.cancellation_expired env.now
          return (some (order, cancellation', message)))
          d
  ]
]

unfoldable pub expire_cancellation : Env → ℕ → Action (Option (Order × Cancellation × Message))
unfolding expire_cancellation_tx
expire_cancellation env cancellation_id =
    commit (expire_cancellation_tx env cancellation_id)
      (after_some λ (order, cancellation, message) w. emit message w)
