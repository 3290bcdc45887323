-- ===== src/Orders/Cancel/Request.antt =====
-- `requestCancellation` of
-- src/modules/orders/infrastructure/persistence/prisma-orders.repository.ts.
use campusgig_backend.Prelude.{
  ℕ, ◌+◌, ◌==◌, ◌&&◌, ◌||◌, Option, none, some, not, Bool, true, false, List, [], ◌∷◌,
  if◌then◌else◌,
}
use campusgig_backend.Db.Types.{
  Text, OrderStatus, OrderEventType, SystemEventType, Attempt, RequestStatus, Party,
  CancellationReasonCode, status_is, is_pending, party_is,
}
use campusgig_backend.Db.Rows.{Order, Cancellation, Message}
use campusgig_backend.Db.Table.{order_keyed, cancellation_keyed}
use campusgig_backend.Db.Tx.{
  Tx, Env, ◌>>=◌, ◌>>◌, return, throw_if, modify, find_order, save_order, create_event,
  order_not_found, not_a_participant, invalid_transition, pending_cancellation_already_exists,
}
use campusgig_backend.Db.World.{
  Action, World, commit, schedule, remove_job, emit, accept_deadline, cancellation_expiry,
}
use campusgig_backend.Messaging.{announce}
use campusgig_backend.Wallet.Escrow.{refund_from_escrow}
use campusgig_backend.Orders.Windows.{cancellation_window_ms}
use campusgig_backend.Orders.Decide.{cancelled_order}
use campusgig_backend.Orders.Cancel.Reason.{format_cancellation_reason, reason_side}

unfoldable pub has_pending_cancellation : ℕ → List Cancellation → Bool
has_pending_cancellation order_id [] = false
has_pending_cancellation order_id (c ∷ cs) =
    if c.order_id == order_id && is_pending c.status
    then true
    else has_pending_cancellation order_id cs

-- Buyer before seller, where one user were both.
abbrev pub role_of : ℕ → Order → Party
role_of viewer_id order = if order.buyer_id == viewer_id then Party.buyer else Party.seller

pub record CancellationInput : Type 0 where
  pub order_id : ℕ
  pub viewer_id : ℕ
  pub reason_code : CancellationReasonCode
  pub other_text : Option Text

abbrev pub new_cancellation :
    Env → CancellationInput → Party → RequestStatus → ℕ → Option ℕ → Option ℕ → Cancellation
new_cancellation env input initiator status expires_at decided_at decided_by_id = record {
  id = env.uuid 0;
  order_id = input.order_id;
  requested_by_id = input.viewer_id;
  initiator = initiator;
  reason_code = input.reason_code;
  other_text = input.other_text;
  status = status;
  expires_at = expires_at;
  requested_at = env.now;
  decided_at = decided_at;
  decided_by_id = decided_by_id;
}

abbrev pub create_cancellation : Cancellation → Tx (Unit {0})
create_cancellation c = modify (λ d. record d { cancellations = c ∷ d.cancellations })

-- What a request returns: the order, its row, whether it closed the order, the message.
pub record Requested : Type 0 where
  pub order : Order
  pub cancellation : Cancellation
  pub fast_cancel : Bool
  pub message : Message

-- The buyer of an order that the seller has not accepted: closed and refunded at once.
unfoldable pub fast_cancel_tx : Env → CancellationInput → Order → Tx Requested
unfolding refund_from_escrow announce format_cancellation_reason
fast_cancel_tx env input order = do
  let cancellation =
      new_cancellation env input Party.buyer RequestStatus.accepted env.now (some env.now)
        (some input.viewer_id)
  create_cancellation cancellation
  refund_from_escrow (env.uuid 2) order.buyer_id order.gig_price_vnd_snapshot input.order_id
  let closed =
      cancelled_order env (some input.viewer_id)
        (format_cancellation_reason input.reason_code input.other_text) order
  save_order closed
  create_event input.order_id OrderEventType.cancellation_requested (some input.viewer_id)
  create_event input.order_id OrderEventType.cancellation_accepted (some input.viewer_id)
  message ←
      announce (env.uuid 1) order.buyer_id order.seller_id input.order_id
        SystemEventType.cancellation_accepted env.now
  return (record {
    order = closed;
    cancellation = cancellation;
    fast_cancel = true;
    message = message;
  })

-- Any other request waits a day for the other party.
unfoldable pub open_cancellation_tx : Env → CancellationInput → Order → Tx Requested
unfolding announce
open_cancellation_tx env input order = do
  let cancellation =
      new_cancellation env input (role_of input.viewer_id order) RequestStatus.pending
        (env.now + cancellation_window_ms) none none
  create_cancellation cancellation
  create_event input.order_id OrderEventType.cancellation_requested (some input.viewer_id)
  message ←
      announce (env.uuid 1) order.buyer_id order.seller_id input.order_id
        SystemEventType.cancellation_requested env.now
  return (record {
    order = order;
    cancellation = cancellation;
    fast_cancel = false;
    message = message;
  })

unfoldable pub request_cancellation_tx : Env → CancellationInput → Tx Requested
unfolding open_cancellation_tx has_pending_cancellation reason_side
request_cancellation_tx env input = do
  order ← find_order input.order_id (order_not_found input.order_id)
  throw_if (not (order.buyer_id == input.viewer_id) && not (order.seller_id == input.viewer_id))
      (not_a_participant input.order_id)
  throw_if
      (status_is order.status OrderStatus.completed
        || status_is order.status OrderStatus.cancelled
        || status_is order.status OrderStatus.frozen)
      (invalid_transition order.status Attempt.request_cancellation)
  λ d.
      throw_if (has_pending_cancellation input.order_id d.cancellations)
        (pending_cancellation_already_exists input.order_id) d
  throw_if (not (party_is (role_of input.viewer_id order) (reason_side input.reason_code)))
      (invalid_transition order.status Attempt.role_mismatch)
  if status_is order.status OrderStatus.pending_review
        && party_is (role_of input.viewer_id order) Party.buyer
      then fast_cancel_tx env input order
      else open_cancellation_tx env input order

unfoldable pub after_request : Env → Requested → World → World
after_request env r w =
    if r.fast_cancel
    then remove_job accept_deadline r.cancellation.order_id (emit r.message w)
    else schedule env.now cancellation_expiry r.cancellation.id r.cancellation.expires_at
        (emit r.message w)

unfoldable pub request_cancellation : Env → CancellationInput → Action Requested
unfolding request_cancellation_tx after_request
request_cancellation env input = commit (request_cancellation_tx env input) (after_request env)
