-- ===== src/Orders/Cancel/Returns.antt =====
-- When an acceptance of a cancellation returns. The order's status plays no part.
use campusgig_backend.Prelude.{
  ℕ, ◌==◌, ◌||◌, ◌≡◌, ◌↔◌, refl, some, arith, inl, inr, Option-cases, true, false,
}
use campusgig_backend.Db.Types.{is_pending}
use campusgig_backend.Db.Rows.{User, Order, Cancellation, Db}
use campusgig_backend.Db.Table.{find, put, user_keyed, order_keyed, cancellation_keyed}
use campusgig_backend.Db.Tx.{Env, Result-cases, update_balances}
use campusgig_backend.Wallet.Escrow.{refund_from_escrow}
use campusgig_backend.Orders.Decide.{cancelled_order}
use campusgig_backend.Orders.Extend.{accept}
use campusgig_backend.Orders.Returns.{Returns}
use campusgig_backend.Orders.Stale.{written_row}
use campusgig_backend.Orders.Cancel.Reason.{format_cancellation_reason}
use campusgig_backend.Orders.Cancel.Decide.{decide_cancellation_tx, apply_decision}

-- A cancellation is accepted exactly while its request is pending, by a party of the order that did
-- not request it, with the buyer's row in the tables. Whether the order is open is not asked.
pub accept_cancellation-Returns :
    (env : Env) (i v : ℕ) (d : Db)
    → Returns (decide_cancellation_tx env i v accept) d ↔ (
        (c : Cancellation) × (o : Order) × (u : User) × (find i d.cancellations ≡ some c)
        × (find c.order_id d.orders ≡ some o)
        × (is_pending c.status ≡ true)
        × ((o.buyer_id == v || o.seller_id == v) ≡ true)
        × ((c.requested_by_id == v) ≡ false)
        × (find o.buyer_id d.users ≡ some u))
unfolding decide_cancellation_tx apply_decision refund_from_escrow update_balances
accept_cancellation-Returns env i v d = (
  λ (r, d', h). elim (Option-cases (find i d.cancellations)) [
    | inl e ↦ absurd (ground (arith, e, h))
    | inr (c, e) ↦ elim (Option-cases (find c.order_id d.orders)) [
      | inl f ↦ absurd (ground (arith, e, f, h))
      | inr (o, f) ↦ elim (Option-cases (find o.buyer_id d.users)) [
        | inl g ↦ absurd (ground (arith, e, f, g, h))
        | inr (u, g) ↦ (
          c,
          o,
          u,
          e,
          f,
          ground (arith, e, f, h),
          ground (arith, e, f, h),
          ground (arith, e, f, h),
          g,
        )
      ]
    ]
  ],
  λ (c, o, u, e, f, waits, party, other, g).
      let new =
        cancelled_order env (some v) (format_cancellation_reason c.reason_code c.other_text) o in
      let row = written_row c.order_id d.orders (put new d.orders) o new f refl refl in
      elim (Result-cases (decide_cancellation_tx env i v accept d)) [
        | inl (x, q) ↦ absurd (ground (arith, e, f, waits, party, other, g, row, q))
        | inr (r, d', q) ↦ (r, d', q)
      ],
)
