-- ===== src/Orders/Extend.antt =====
-- `requestExtension`, `decideExtension` and `expireExtension` of
-- src/modules/orders/infrastructure/persistence/prisma-orders.repository.ts.
use campusgig_backend.Prelude.{
  ℕ, ◌+◌, ◌*◌, ◌==◌, ◌&&◌, ltb, Option, none, some, not, Bool, true, false, List, [], ◌∷◌,
  if◌then◌else◌,
}
use campusgig_backend.Db.Types.{
  Text, OrderStatus, OrderEventType, SystemEventType, Attempt, RequestStatus, status_is, is_pending,
}
use campusgig_backend.Db.Rows.{Order, Extension, Message}
use campusgig_backend.Db.Table.{find, put, order_keyed, extension_keyed}
use campusgig_backend.Db.Tx.{
  Tx, Env, ok, ◌>>=◌, ◌>>◌, return, or_throw, throw_if, modify, find_order, save_order,
  create_event, order_not_found, not_a_participant, invalid_transition,
  pending_extension_already_exists, record_not_found,
}
use campusgig_backend.Db.World.{
  Action, World, JobKind, commit, schedule, remove_job, emit, delivery_deadline, review_deadline,
  extension_expiry,
}
use campusgig_backend.Messaging.{announce}
use campusgig_backend.Orders.Windows.{hour_ms, extension_window_ms}
use campusgig_backend.Orders.Guards.{after_some}

-- `extension.findFirst({ where: { orderId, status: 'Pending' } })`, as a test
unfoldable pub has_pending_extension : ℕ → List Extension → Bool
has_pending_extension order_id [] = false
has_pending_extension order_id (e ∷ es) =
    if e.order_id == order_id && is_pending e.status
    then true
    else has_pending_extension order_id es

abbrev pub new_extension : Env → ℕ → ℕ → ℕ → Option Text → Extension
new_extension env order_id viewer_id hours_requested reason = record {
  id = env.uuid 0;
  order_id = order_id;
  requested_by_id = viewer_id;
  hours_requested = hours_requested;
  reason = reason;
  status = RequestStatus.pending;
  expires_at = env.now + extension_window_ms;
  requested_at = env.now;
  decided_at = none;
  decided_by_id = none;
}

unfoldable pub request_extension_tx :
    Env → ℕ → ℕ → ℕ → Option Text → Tx (Order × Extension × Message)
unfolding announce has_pending_extension
request_extension_tx env order_id viewer_id hours_requested reason = do
  order ← find_order order_id (order_not_found order_id)
  throw_if (not (order.seller_id == viewer_id)) (not_a_participant order_id)
  throw_if
      (not (status_is order.status OrderStatus.in_progress)
        && not (status_is order.status OrderStatus.delivered))
      (invalid_transition order.status Attempt.request_extension)
  λ d.
      throw_if (has_pending_extension order_id d.extensions)
        (pending_extension_already_exists order_id) d
  let extension = new_extension env order_id viewer_id hours_requested reason
  modify (λ d. record d { extensions = extension ∷ d.extensions })
  create_event order_id OrderEventType.extension_requested (some viewer_id)
  message ←
      announce (env.uuid 1) order.buyer_id order.seller_id order_id
        SystemEventType.extension_requested env.now
  return (order, extension, message)

unfoldable pub request_extension :
    Env → ℕ → ℕ → ℕ → Option Text → Action (Order × Extension × Message)
unfolding request_extension_tx
request_extension env order_id viewer_id hours_requested reason =
    commit (request_extension_tx env order_id viewer_id hours_requested reason)
      λ (order, extension, message) w.
        schedule env.now extension_expiry extension.id extension.expires_at (emit message w)

pub data Decision : Type 0 where
  accept reject : Decision

abbrev pub decided : Decision → RequestStatus
decided accept = RequestStatus.accepted
decided reject = RequestStatus.rejected

-- The order after an accepted extension, and the deadline job to set anew.
pub record Shift : Type 0 where
  pub order : Order
  pub kind : JobKind
  pub deadline : ℕ

abbrev pub deadline_or : Option ℕ → ℕ → ℕ
deadline_or none now = now
deadline_or (some t) now = t

-- The deadline of the delivery, with the status that the order then has.
abbrev pub shift_delivery : ℕ → OrderStatus → Order → Shift
shift_delivery deadline status order = record {
  order = record order { status = status; delivery_deadline = some deadline };
  kind = delivery_deadline;
  deadline = deadline;
}

-- By the order's status: which deadline moves, if one does.
unfoldable pub shift : OrderStatus → ℕ → ℕ → Order → Option Shift
shift OrderStatus.in_progress now hours order = some (
    shift_delivery (deadline_or order.delivery_deadline now + hours * hour_ms)
      OrderStatus.in_progress order)
shift OrderStatus.late now hours order =
    let deadline = deadline_or order.delivery_deadline now + hours * hour_ms in
    some (
      shift_delivery deadline
        (if ltb now deadline then OrderStatus.in_progress else OrderStatus.late) order)
shift OrderStatus.delivered now hours order =
    let deadline = deadline_or order.review_deadline now + hours * hour_ms in
    some (record {
      order = record order { review_deadline = some deadline };
      kind = review_deadline;
      deadline = deadline;
    })
shift _ now hours order = none

abbrev pub decided_shift : Decision → ℕ → Extension → Order → Option Shift
decided_shift accept now extension order = shift order.status now extension.hours_requested order
decided_shift reject now extension order = none

abbrev pub save_shift : Option Shift → Tx (Unit {0})
save_shift none = return tt
save_shift (some s) = save_order s.order

abbrev pub extension_event : Decision → OrderEventType
extension_event accept = OrderEventType.extension_accepted
extension_event reject = OrderEventType.extension_rejected

abbrev pub extension_message : Decision → SystemEventType
extension_message accept = SystemEventType.extension_accepted
extension_message reject = SystemEventType.extension_rejected

-- A foreign key gives every extension its order; where it does not, the code throws just so.
unfoldable pub decide_extension_tx :
    Env → ℕ → ℕ → Decision → Tx (Order × Extension × Option Shift × Message)
unfolding announce
decide_extension_tx env extension_id viewer_id decision = do
  extension ← λ d. or_throw (find extension_id d.extensions) (order_not_found extension_id) d
  order ← find_order extension.order_id (order_not_found extension_id)
  throw_if (not (is_pending extension.status))
      (invalid_transition order.status Attempt.decide_extension)
  throw_if (not (order.buyer_id == viewer_id)) (not_a_participant extension.order_id)
  let moved = decided_shift decision env.now extension order
  let extension' : Extension = record extension {
    status = decided decision;
    decided_at = some env.now;
    decided_by_id = some viewer_id;
  }
  modify (λ d. record d { extensions = put extension' d.extensions })
  save_shift moved
  create_event extension.order_id (extension_event decision) (some viewer_id)
  reloaded ← find_order extension.order_id record_not_found
  message ←
      announce (env.uuid 1) order.buyer_id order.seller_id extension.order_id
        (extension_message decision) env.now
  return (reloaded, extension', moved, message)

abbrev pub reschedule : ℕ → ℕ → Option Shift → World → World
reschedule now order_id none w = w
reschedule now order_id (some s) w =
    schedule now s.kind order_id s.deadline (remove_job s.kind order_id w)

unfoldable pub decide_extension :
    Env → ℕ → ℕ → Decision → Action (Order × Extension × Option Shift × Message)
unfolding decide_extension_tx
decide_extension env extension_id viewer_id decision =
    commit (decide_extension_tx env extension_id viewer_id decision)
      λ (order, extension, moved, message) w.
        reschedule env.now extension.order_id moved
          (remove_job extension_expiry extension_id (emit message w))

unfoldable pub expire_extension_tx : Env → ℕ → Tx (Option (Order × Extension × Message))
unfolding announce
expire_extension_tx env extension_id d = elim (find extension_id d.extensions) [
  | none ↦ ok (none, d)
  | some extension ↦ elim (is_pending extension.status) [
    | false ↦ ok (none, d)
    | true ↦
        (do
          let extension' : Extension = record extension {
            status = RequestStatus.expired;
            decided_at = some env.now;
          }
          modify (λ d. record d { extensions = put extension' d.extensions })
          create_event extension.order_id OrderEventType.extension_expired none
          order ← find_order extension.order_id record_not_found
          message ←
              announce (env.uuid 1) order.buyer_id order.seller_id extension.order_id
                SystemEventType.extension_expired env.now
          return (some (order, extension', message)))
          d
  ]
]

unfoldable pub expire_extension : Env → ℕ → Action (Option (Order × Extension × Message))
unfolding expire_extension_tx
expire_extension env extension_id =
    commit (expire_extension_tx env extension_id)
      (after_some λ (order, extension, message) w. emit message w)
