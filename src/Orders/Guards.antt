-- ===== src/Orders/Guards.antt =====
-- Patterns that several operations of
-- src/modules/orders/infrastructure/persistence/prisma-orders.repository.ts share: the idempotence
-- test of the jobs, and what follows a commit.
use campusgig_backend.Prelude.{ℕ, Option, none, some, true, false}
use campusgig_backend.Db.Types.{OrderStatus, status_is}
use campusgig_backend.Db.Rows.{Order}
use campusgig_backend.Db.Table.{find, order_keyed}
use campusgig_backend.Db.Tx.{Tx, ok}
use campusgig_backend.Db.World.{World}

-- Runs on an order that is found with the status, and else returns null.
abbrev pub when_status : {A : Type 0} → ℕ → OrderStatus → (Order → Tx (Option A)) → Tx (Option A)
when_status order_id status body d = elim (find order_id d.orders) [
  | none ↦ ok (none, d)
  | some order ↦ elim (status_is order.status status) [ false ↦ ok (none, d) | true ↦ body order d ]
]

-- What follows a commit that returned a value, and nothing after null.
abbrev pub after_some : {A : Type 0} → (A → World → World) → Option A → World → World
after_some after none w = w
after_some after (some a) w = after a w

-- `if (result.deliveryDeadline) schedule…`
abbrev pub schedule_if : ℕ → Option ℕ → (ℕ → World → World) → World → World
schedule_if now none add w = w
schedule_if now (some t) add w = add t w
