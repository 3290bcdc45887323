-- ===== src/Orders/Deliver.antt =====
-- `deliverWork`, `updateDelivery` and `acceptDelivery` of
-- src/modules/orders/infrastructure/persistence/prisma-orders.repository.ts.
use campusgig_backend.Prelude.{
  ℕ, ◌+◌, ◌==◌, ◌&&◌, leb, none, some, not, List, [], ◌∷◌, map, includes, if◌then◌else◌, trim,
}
use campusgig_backend.Db.Types.{
  Text, OrderStatus, OrderEventType, SystemEventType, Attempt, status_is,
}
use campusgig_backend.Db.Rows.{Order, Delivery, DeliveryFile, Message, Transaction}
use campusgig_backend.Db.Tx.{
  Tx, Env, ◌>>=◌, ◌>>◌, return, throw_if, modify, find_order, save_order, create_event,
  count_completed, order_not_found, not_a_participant, invalid_transition,
}
use campusgig_backend.Db.World.{
  Action, commit, schedule, remove_job, emit, delivery_deadline, review_deadline, dispute_deadline,
}
use campusgig_backend.Messaging.{announce}
use campusgig_backend.Wallet.Escrow.{release_from_escrow}
use campusgig_backend.Orders.Windows.{
  review_window_ms, platform_fee_pct, platform_fee_collector_user_id,
}
use campusgig_backend.Orders.Guards.{schedule_if}

-- `deliveryFile.updateMany({ where: { id: { in }, deliveryId: null } })` on one row
unfoldable pub claim_file : List ℕ → ℕ → DeliveryFile → DeliveryFile
claim_file ids delivery_id f = elim f.delivery_id [
  | none ↦ if includes ids f.id then record f { delivery_id = some delivery_id } else f
  | some _ ↦ f
]

unfoldable pub claim_files : List ℕ → ℕ → List DeliveryFile → List DeliveryFile
unfolding claim_file
claim_files ids delivery_id = map (claim_file ids delivery_id)

-- A delivery of the order, with the staged files attached to it.
abbrev pub create_delivery : Env → ℕ → ℕ → Text → List ℕ → Tx Delivery
create_delivery env order_id version note staged_file_ids =
    let delivery : Delivery = record {
      id = env.uuid 0;
      order_id = order_id;
      version = version;
      note = note;
      delivered_at = env.now;
    } in
    do
      modify (λ d. record d {
        deliveries = delivery ∷ d.deliveries;
        delivery_files = claim_files staged_file_ids delivery.id d.delivery_files;
      })
      return delivery

abbrev pub delivered_order : Env → Order → Order
delivered_order env order = record order {
  status = OrderStatus.delivered;
  delivered_at = some env.now;
  review_deadline = some (env.now + review_window_ms);
}

unfoldable pub deliver_work_tx : Env → ℕ → ℕ → Text → List ℕ → Tx (Order × Delivery × Message)
unfolding announce claim_files
deliver_work_tx env order_id viewer_id note staged_file_ids = do
  order ← find_order order_id (order_not_found order_id)
  throw_if (not (order.seller_id == viewer_id)) (not_a_participant order_id)
  throw_if
      (not (status_is order.status OrderStatus.in_progress)
        && not (status_is order.status OrderStatus.late))
      (invalid_transition order.status Attempt.deliver)
  delivery ← create_delivery env order_id 1 (trim note) staged_file_ids
  save_order (delivered_order env order)
  create_event order_id OrderEventType.delivered (some viewer_id)
  message ←
      announce (env.uuid 1) order.buyer_id order.seller_id order_id SystemEventType.order_delivered
        env.now
  return (delivered_order env order, delivery, message)

unfoldable pub deliver_work : Env → ℕ → ℕ → Text → List ℕ → Action (Order × Delivery × Message)
unfolding deliver_work_tx
deliver_work env order_id viewer_id note staged_file_ids =
    commit (deliver_work_tx env order_id viewer_id note staged_file_ids)
      λ (order, delivery, message) w.
        schedule_if env.now order.review_deadline (schedule env.now review_deadline order_id)
          (remove_job delivery_deadline order_id (emit message w))

-- The version of `findFirst({ orderBy: { version: 'desc' } })`; zero where there is none.
unfoldable pub latest_version : ℕ → List Delivery → ℕ
latest_version order_id [] = 0
latest_version order_id (x ∷ xs) =
    let rest = latest_version order_id xs in
    if x.order_id == order_id && leb rest x.version then x.version else rest

-- The order itself is not written: the countdown of the first delivery goes on.
unfoldable pub update_delivery_tx : Env → ℕ → ℕ → Text → List ℕ → Tx (Order × Delivery × Message)
unfolding announce claim_files latest_version
update_delivery_tx env order_id viewer_id note staged_file_ids = do
  order ← find_order order_id (order_not_found order_id)
  throw_if (not (order.seller_id == viewer_id)) (not_a_participant order_id)
  throw_if
      (not (status_is order.status OrderStatus.delivered)
        && not (status_is order.status OrderStatus.awaiting_finalization))
      (invalid_transition order.status Attempt.deliver)
  version ← λ d. return (latest_version order_id d.deliveries + 1) d
  delivery ← create_delivery env order_id version (trim note) staged_file_ids
  create_event order_id OrderEventType.delivery_updated (some viewer_id)
  message ←
      announce (env.uuid 1) order.buyer_id order.seller_id order_id
        SystemEventType.order_delivery_updated env.now
  return (order, delivery, message)

unfoldable pub update_delivery : Env → ℕ → ℕ → Text → List ℕ → Action (Order × Delivery × Message)
unfolding update_delivery_tx
update_delivery env order_id viewer_id note staged_file_ids =
    commit (update_delivery_tx env order_id viewer_id note staged_file_ids)
      λ (order, delivery, message) w. emit message w

abbrev pub completed_order : Env → Order → Order
completed_order env order = record order {
  status = OrderStatus.completed;
  completed_at = some env.now;
}

-- The row lock orders this transaction against the deadline jobs; each runs alone here.
unfoldable pub accept_delivery_tx : Env → ℕ → ℕ → Tx (Order × (Transaction × Transaction) × Message)
unfolding announce
accept_delivery_tx env order_id viewer_id = do
  order ← find_order order_id (order_not_found order_id)
  throw_if (not (order.buyer_id == viewer_id)) (not_a_participant order_id)
  throw_if
      (not (status_is order.status OrderStatus.delivered)
        && not (status_is order.status OrderStatus.awaiting_finalization))
      (invalid_transition order.status Attempt.accept_delivery)
  save_order (completed_order env order)
  count_completed order.gig_id
  moves ←
      release_from_escrow env.uuid order.buyer_id order.seller_id platform_fee_collector_user_id
        order.gig_price_vnd_snapshot platform_fee_pct order_id
  create_event order_id OrderEventType.accept_delivery (some viewer_id)
  create_event order_id OrderEventType.finalized none
  message ←
      announce (env.uuid 1) order.buyer_id order.seller_id order_id SystemEventType.order_completed
        env.now
  return (completed_order env order, moves, message)

unfoldable pub accept_delivery :
    Env → ℕ → ℕ → Action (Order × (Transaction × Transaction) × Message)
unfolding accept_delivery_tx
accept_delivery env order_id viewer_id =
    commit (accept_delivery_tx env order_id viewer_id) λ (order, moves, message) w.
      remove_job dispute_deadline order_id (remove_job review_deadline order_id (emit message w))
