-- ===== src/Refinement/Cancelled.antt =====
-- What accepting a cancellation does to the ledger. `decideCancellation` looks at the request's
-- status and not at the order's, so the outcome turns on whether the order is still open.
use campusgig_backend.Prelude.{
  ℕ, ◌<◌, ◌≡◌, refl, inl, inr, Option-cases, Bool-cases, Option, some, arith, int_laws, parts_of_eq,
  true, false, ◌==◌, sym,
}
use campusgig_backend.Db.Types.{RequestStatus, is_pending}
use campusgig_backend.Db.Rows.{Order, Cancellation, Transaction, Db, Message}
use campusgig_backend.Db.Table.{find, put, order_keyed, cancellation_keyed}
use campusgig_backend.Db.Tx.{ok, Env, update_balances, Result-cases}
use campusgig_backend.Ledger.Balances.{Adjust, escrow_of-Adjust}
use campusgig_backend.Ledger.Held.{Changes, put-Changes, is_open, held-Changes_same}
use campusgig_backend.Ledger.Step.{idle, settle, EscrowBacked}
use campusgig_backend.Orders.Decide.{cancelled_order}
use campusgig_backend.Orders.Extend.{accept}
use campusgig_backend.Orders.Cancel.Reason.{format_cancellation_reason}
use campusgig_backend.Orders.Cancel.Decide.{decide_cancellation_tx, expire_cancellation_tx}
use campusgig_backend.Refinement.Decide.{refund_delta}
use campusgig_backend.Refinement.Escrow.{Steps, update_balances-Adjust, refund-Settlement}

-- The order as an accepted cancellation leaves it.
abbrev pub cancelled_by_agreement : Env → ℕ → Cancellation → Order → Order
cancelled_by_agreement env v c o =
    cancelled_order env (some v) (format_cancellation_reason c.reason_code c.other_text) o

module _ (env : Env) (i v : ℕ) (d d' : Db) (r : Order × Cancellation × Option Transaction × Message)
    (c : Cancellation) (o : Order) (found : find i d.cancellations ≡ some c)
    (of_order : find c.order_id d.orders ≡ some o)
    (done : decide_cancellation_tx env i v accept d ≡ ok (r, d')) where
  -- Whatever the order's status: the buyer is refunded the price and the order is cancelled.
  pub accept_cancellation_lem :
      Adjust o.buyer_id (refund_delta o) d.users d'.users
      × Changes d.orders d'.orders o (cancelled_by_agreement env v c o)
  unfolding decide_cancellation_tx
  accept_cancellation_lem =
      let new = cancelled_by_agreement env v c o in
      let c' : Cancellation = record c {
        status = RequestStatus.accepted;
        decided_at = some env.now;
        decided_by_id = some v;
      } in
      let d0 : Db = record d { cancellations = put c' d.cancellations } in
      elim (Result-cases (update_balances o.buyer_id (refund_delta o) d0)) [
        | inl (x, q) ↦ absurd (ground (arith, found, of_order, q, done))
        | inr (u, d1, q) ↦
            let a = update_balances-Adjust _ _ d0 d1 u q in
            let written : d'.orders ≡ put new d.orders =
              ground (arith, found, of_order, q, done, a.1) in
            let paid : d'.users ≡ d1.users = ground (arith, found, of_order, q, done) in
            rw (written, paid)
              (a.0, put-Changes c.order_id d.orders o new of_order refl refl refl refl)
      ]

  -- On an open order that is a step of the ledger.
  pub accept_cancellation-Steps : is_open o.status ≡ true → Steps d d'
  accept_cancellation-Steps was_open =
      let (a, c') = accept_cancellation_lem in
      settle o (cancelled_by_agreement env v c o) c' was_open refl
        (refund-Settlement o d.users d'.users a)

  -- Accepting the cancellation of an order that is already completed or cancelled, at a price above
  -- zero, breaks the escrow accounting where it held: some escrow balance no longer is what the open
  -- orders account for.
  pub accept_cancellation_unbacks :
      is_open o.status ≡ false
      → 0 < o.gig_price_vnd_snapshot
      → EscrowBacked d.users d.orders
      → ¬ EscrowBacked d'.users d'.orders
  accept_cancellation_unbacks closed priced before after =
      let (a, c') = accept_cancellation_lem in
      let b = o.buyer_id in
      let law = escrow_of-Adjust b b (refund_delta o) d.users d'.users a in
      let self : (b == b) ≡ true = ground arith in
      let now = rw self at law in
      let same =
        held-Changes_same b d.orders d'.orders o (cancelled_by_agreement env v c o) c'
          (sym closed) in
      omega
        (int_laws, parts_of_eq _ _ (after b), parts_of_eq _ _ (before b), parts_of_eq _ _ now, same)

-- The expiry of a cancellation writes neither users nor orders.
pub expire_cancellation-Steps :
    (env : Env) (i : ℕ) (d d' : Db) (r : Option (Order × Cancellation × Message))
    → expire_cancellation_tx env i d ≡ ok (r, d')
    → Steps d d'
unfolding expire_cancellation_tx
expire_cancellation-Steps env i d d' r h = elim (Option-cases (find i d.cancellations)) [
  | inl e ↦ idle (ground (arith, e, h)) (ground (arith, e, h))
  | inr (x, e) ↦ elim (Bool-cases (is_pending x.status)) [
    | inr miss ↦ idle (ground (arith, e, miss, h)) (ground (arith, e, miss, h))
    | inl hit ↦ elim (Option-cases (find x.order_id d.orders)) [
      | inl f ↦ absurd (ground (arith, e, hit, f, h))
      | inr (o, f) ↦ idle (ground (arith, e, hit, f, h)) (ground (arith, e, hit, f, h))
    ]
  ]
]
