-- ===== src/Orders/Place.antt =====
-- `placeOrder` of src/modules/orders/infrastructure/persistence/prisma-orders.repository.ts.
-- The gig is read before the transaction opens; nothing is taken to come between.
use campusgig_backend.Prelude.{ℕ, pos, ◌+◌, ◌==◌, ltb_ℤ, none, some, not, ◌∷◌}
use campusgig_backend.Db.Types.{
  OrderStatus, OrderEventType, SystemEventType, is_active, gig_missing, gig_is, buyer_missing,
}
use campusgig_backend.Db.Rows.{Gig, Order, Message}
use campusgig_backend.Db.Table.{find, gig_keyed, user_keyed}
use campusgig_backend.Db.Tx.{
  Tx, Env, ◌>>=◌, ◌>>◌, return, or_throw, throw_if, modify, create_event, gig_not_purchasable,
  seller_cannot_order_own_gig, insufficient_wallet_balance,
}
use campusgig_backend.Db.World.{Action, commit, schedule, emit, accept_deadline}
use campusgig_backend.Messaging.{announce}
use campusgig_backend.Wallet.Escrow.{move_to_escrow}
use campusgig_backend.Orders.Windows.{accept_window_ms}

-- The row that `order.create` inserts: the gig's terms are copied.
abbrev pub new_order : Env → ℕ → Gig → Order
new_order env buyer_id gig = record {
  id = env.uuid 0;
  number = env.number;
  buyer_id = buyer_id;
  seller_id = gig.seller_id;
  gig_id = gig.id;
  gig_title_snapshot = gig.title;
  gig_price_vnd_snapshot = gig.price_vnd;
  gig_delivery_days = gig.delivery_days;
  gig_cover_key = gig.cover_key;
  status = OrderStatus.pending_review;
  placed_at = env.now;
  accepted_at = none;
  delivered_at = none;
  completed_at = none;
  cancelled_at = none;
  auto_completed_at = none;
  accept_deadline = some (env.now + accept_window_ms);
  delivery_deadline = none;
  review_deadline = none;
  dispute_deadline = none;
  cancelled_by_user_id = none;
  cancellation_reason = none;
}

unfoldable pub place_order_tx : Env → ℕ → ℕ → Tx (Order × Message)
unfolding move_to_escrow announce
place_order_tx env buyer_id gig_id = do
  gig ← λ d. or_throw (find gig_id d.gigs) (gig_not_purchasable gig_id gig_missing) d
  throw_if (not (is_active gig.status)) (gig_not_purchasable gig_id (gig_is gig.status))
  throw_if (gig.seller_id == buyer_id) (seller_cannot_order_own_gig gig_id buyer_id)
  buyer ← λ d. or_throw (find buyer_id d.users) (gig_not_purchasable gig_id buyer_missing) d
  throw_if (ltb_ℤ buyer.wallet_balance (pos gig.price_vnd))
      (insufficient_wallet_balance buyer_id gig.price_vnd buyer.wallet_balance)
  let order = new_order env buyer_id gig
  modify (λ d. record d { orders = order ∷ d.orders })
  move_to_escrow (env.uuid 2) buyer_id gig.price_vnd order.id
  create_event order.id OrderEventType.placed (some buyer_id)
  message ←
      announce (env.uuid 1) buyer_id gig.seller_id order.id SystemEventType.order_placed env.now
  return (order, message)

unfoldable pub place_order : Env → ℕ → ℕ → Action (Order × Message)
unfolding place_order_tx
place_order env buyer_id gig_id = commit (place_order_tx env buyer_id gig_id) λ (order, message) w.
    schedule env.now accept_deadline order.id (env.now + accept_window_ms) (emit message w)
