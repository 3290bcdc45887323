-- ===== src/Refinement/Decide.antt =====
-- The seller's decision on a new order, and its time-out.
use campusgig_backend.Prelude.{
  ℕ, pos, ◌-ℤ◌, ◌≡◌, refl, inl, inr, Option-cases, Bool-cases, none, some, arith, true, Option,
}
use campusgig_backend.Db.Types.{Text, OrderStatus, status_is}
use campusgig_backend.Db.Rows.{Order, Db, Message}
use campusgig_backend.Db.Table.{find, put, order_keyed}
use campusgig_backend.Db.Tx.{ok, Env, Delta, update_balances, Result-cases}
use campusgig_backend.Ledger.Held.{put-Changes, Changes}
use campusgig_backend.Ledger.Balances.{Adjust}
use campusgig_backend.Ledger.Step.{idle, progress, settle}
use campusgig_backend.Orders.Decide.{
  accept_order_tx, accepted_order, decline_order_tx, cancelled_order, auto_cancel_order_tx,
  no_response_reason,
}
use campusgig_backend.Refinement.Escrow.{Steps, update_balances-Adjust, refund-Settlement}

-- Accepting an order moves no money and leaves the order open.
pub accept_order-Steps :
    (env : Env) (i v : ℕ) (d d' : Db) (r : Order × Message)
    → accept_order_tx env i v d ≡ ok (r, d')
    → Steps d d'
unfolding accept_order_tx
accept_order-Steps env i v d d' r h = elim (Option-cases (find i d.orders)) [
  | inl e ↦ absurd (ground (arith, e, h))
  | inr (o, e) ↦
      let new = accepted_order env o in
      let written : d'.orders ≡ put new d.orders = ground (arith, e, h) in
      let same : d'.users ≡ d.users = ground (arith, e, h) in
      rw (written, same)
        (progress o new (put-Changes i d.orders o new e refl refl refl refl) (ground (arith, e, h))
          refl refl)
]

-- The deltas of a full refund of the order.
abbrev pub refund_delta : Order → Delta
refund_delta o = record {
  wallet = pos o.gig_price_vnd_snapshot;
  escrow = pos 0 -ℤ pos o.gig_price_vnd_snapshot;
  held = pos 0;
}

-- Declining cancels an order under review and gives its buyer the whole price back out of escrow.
pub decline_order_lem :
    (env : Env) (i v : ℕ) (note : Text) (d d' : Db) (r : Order × Message)
    → decline_order_tx env i v note d ≡ ok (r, d')
    → (o : Order) × (find i d.orders ≡ some o)
      × (status_is o.status OrderStatus.pending_review ≡ true)
      × Adjust o.buyer_id (refund_delta o) d.users d'.users
      × Changes d.orders d'.orders o (cancelled_order env (some v) note o)
unfolding decline_order_tx
decline_order_lem env i v note d d' r h = elim (Option-cases (find i d.orders)) [
  | inl e ↦ absurd (ground (arith, e, h))
  | inr (o, e) ↦
      let new = cancelled_order env (some v) note o in
      let d0 : Db = record d { orders = put new d.orders } in
      elim (Result-cases (update_balances o.buyer_id (refund_delta o) d0)) [
        | inl (x, q) ↦ absurd (ground (arith, e, q, h))
        | inr (u, d1, q) ↦
            let a = update_balances-Adjust _ _ d0 d1 u q in
            let written : d'.orders ≡ put new d.orders = ground (arith, e, q, h, a.1) in
            let paid : d'.users ≡ d1.users = ground (arith, e, q, h) in
            rw (written, paid)
              (
                o,
                e,
                ground (arith, e, q, h),
                a.0,
                put-Changes i d.orders o new e refl refl refl refl,
              )
      ]
]

pub decline_order-Steps :
    (env : Env) (i v : ℕ) (note : Text) (d d' : Db) (r : Order × Message)
    → decline_order_tx env i v note d ≡ ok (r, d')
    → Steps d d'
decline_order-Steps env i v note d d' r h =
    let (o, _, review, a, c) = decline_order_lem env i v note d d' r h in
    settle o (cancelled_order env (some v) note o) c (ground (arith, review)) refl
      (refund-Settlement o d.users d'.users a)

-- The time-out of an order under review is a step of the ledger, and on any other order it does
-- nothing.
pub auto_cancel_order-Steps :
    (env : Env) (i : ℕ) (d d' : Db) (r : Option (Order × Message))
    → auto_cancel_order_tx env i d ≡ ok (r, d')
    → Steps d d'
unfolding auto_cancel_order_tx
auto_cancel_order-Steps env i d d' r h = elim (Option-cases (find i d.orders)) [
  | inl e ↦ idle (ground (arith, e, h)) (ground (arith, e, h))
  | inr (o, e) ↦ elim (Bool-cases (status_is o.status OrderStatus.pending_review)) [
    | inr no_match ↦ idle (ground (arith, e, no_match, h)) (ground (arith, e, no_match, h))
    | inl match ↦
        let new = cancelled_order env none no_response_reason o in
        let d0 : Db = record d { orders = put new d.orders } in
        elim (Result-cases (update_balances o.buyer_id (refund_delta o) d0)) [
          | inl (x, q) ↦ absurd (ground (arith, e, match, q, h))
          | inr (u, d1, q) ↦
              let a = update_balances-Adjust _ _ d0 d1 u q in
              let written : d'.orders ≡ put new d.orders = ground (arith, e, match, q, h, a.1) in
              let paid : d'.users ≡ d1.users = ground (arith, e, match, q, h) in
              rw (written, paid)
                (settle o new (put-Changes i d.orders o new e refl refl refl refl)
                  (ground (arith, match)) refl (refund-Settlement o d.users d1.users a.0))
        ]
  ]
]
