-- ===== src/Refinement/Cancel.antt =====
-- Cancellations: a request, the other party's decision, the expiry.
use campusgig_backend.Prelude.{
  ℕ, ◌≡◌, refl, inl, inr, Option-cases, Bool-cases, Option, some, arith, true, false, ◌⊎◌, ◌&&◌,
  ◌∷◌,
}
use campusgig_backend.Db.Types.{OrderStatus, RequestStatus, Party, status_is, party_is}
use campusgig_backend.Db.Rows.{Order, Cancellation, Transaction, Db, Message}
use campusgig_backend.Db.Table.{find, put, order_keyed, cancellation_keyed}
use campusgig_backend.Db.Tx.{ok, Env, update_balances, Result-cases}
use campusgig_backend.Ledger.Held.{put-Changes, Changes}
use campusgig_backend.Ledger.Balances.{Adjust}
use campusgig_backend.Ledger.Step.{idle, settle}
use campusgig_backend.Orders.Decide.{cancelled_order}
use campusgig_backend.Orders.Extend.{reject}
use campusgig_backend.Orders.Cancel.Reason.{format_cancellation_reason}
use campusgig_backend.Orders.Cancel.Request.{
  request_cancellation_tx, open_cancellation_tx, fast_cancel_tx, CancellationInput, Requested,
  role_of, new_cancellation,
}
use campusgig_backend.Orders.Cancel.Decide.{decide_cancellation_tx}
use campusgig_backend.Refinement.Decide.{refund_delta}
use campusgig_backend.Refinement.Escrow.{Steps, update_balances-Adjust, refund-Settlement}

-- The order as the buyer's early cancellation leaves it.
abbrev pub withdrawn_order : Env → CancellationInput → Order → Order
withdrawn_order env input o =
    cancelled_order env (some input.viewer_id)
      (format_cancellation_reason input.reason_code input.other_text) o

-- The early cancellation refunds the whole price out of escrow and cancels the order.
pub fast_cancel_lem :
    (env : Env) (input : CancellationInput) (o : Order) (d d' : Db) (r : Requested)
    → find input.order_id d.orders ≡ some o
    → fast_cancel_tx env input o d ≡ ok (r, d')
    → (r.fast_cancel ≡ true)
      × Adjust o.buyer_id (refund_delta o) d.users d'.users
      × Changes d.orders d'.orders o (withdrawn_order env input o)
unfolding fast_cancel_tx
fast_cancel_lem env input o d d' r e h =
    let new = withdrawn_order env input o in
    let c =
      new_cancellation env input Party.buyer RequestStatus.accepted env.now (some env.now)
        (some input.viewer_id) in
    let d0 : Db = record d { cancellations = c ∷ d.cancellations } in
    elim (Result-cases (update_balances o.buyer_id (refund_delta o) d0)) [
      | inl (x, q) ↦ absurd (ground (arith, q, h))
      | inr (u, d1, q) ↦
          let a = update_balances-Adjust _ _ d0 d1 u q in
          let written : d'.orders ≡ put new d.orders = ground (arith, q, h, a.1) in
          let paid : d'.users ≡ d1.users = ground (arith, q, h) in
          (
            ground (arith, q, h),
            rw paid a.0,
            rw written (put-Changes input.order_id d.orders o new e refl refl refl refl),
          )
    ]

-- A cancellation request that returns either writes neither users nor orders, or is the buyer's for
-- an order still under review, which is then cancelled and refunded in full out of escrow.
pub request_cancellation_lem :
    (env : Env) (input : CancellationInput) (d d' : Db) (r : Requested)
    → request_cancellation_tx env input d ≡ ok (r, d')
    → ((r.fast_cancel ≡ false) × (d'.users ≡ d.users) × (d'.orders ≡ d.orders))
      ⊎ ((o : Order) × (find input.order_id d.orders ≡ some o)
          × (status_is o.status OrderStatus.pending_review ≡ true)
          × (o.buyer_id ≡ input.viewer_id)
          × (r.fast_cancel ≡ true)
          × Adjust o.buyer_id (refund_delta o) d.users d'.users
          × Changes d.orders d'.orders o (withdrawn_order env input o))
unfolding request_cancellation_tx open_cancellation_tx
request_cancellation_lem env input d d' r h = elim (Option-cases (find input.order_id d.orders)) [
  | inl e ↦ absurd (ground (arith, e, h))
  | inr (o, e) ↦
      elim (Bool-cases (
        status_is o.status OrderStatus.pending_review
        && party_is (role_of input.viewer_id o) Party.buyer)) [
          | inl fast ↦
              let run : fast_cancel_tx env input o d ≡ ok (r, d') = ground (arith, e, fast, h) in
              let (f, a, c) = fast_cancel_lem env input o d d' r e run in
              inr (o, e, ground (arith, fast), ground (arith, fast), f, a, c)
          | inr slow ↦
              inl
                (ground (arith, e, slow, h), ground (arith, e, slow, h), ground (arith, e, slow, h))
        ]
]

-- Either way that is a step of the ledger.
pub request_cancellation-Steps :
    (env : Env) (input : CancellationInput) (d d' : Db) (r : Requested)
    → request_cancellation_tx env input d ≡ ok (r, d')
    → Steps d d'
request_cancellation-Steps env input d d' r h = elim (request_cancellation_lem env input d d' r h) [
  | inl (_, users, orders) ↦ idle users orders
  | inr (o, _, review, _, _, a, c) ↦
      settle o (withdrawn_order env input o) c (ground (arith, review)) refl
        (refund-Settlement o d.users d'.users a)
]

-- Rejecting a cancellation writes neither users nor orders.
pub reject_cancellation-Steps :
    (env : Env) (i v : ℕ) (d d' : Db) (r : Order × Cancellation × Option Transaction × Message)
    → decide_cancellation_tx env i v reject d ≡ ok (r, d')
    → Steps d d'
unfolding decide_cancellation_tx
reject_cancellation-Steps env i v d d' r h = elim (Option-cases (find i d.cancellations)) [
  | inl e ↦ absurd (ground (arith, e, h))
  | inr (c, e) ↦ elim (Option-cases (find c.order_id d.orders)) [
    | inl f ↦ absurd (ground (arith, e, f, h))
    | inr (o, f) ↦ idle (ground (arith, e, f, h)) (ground (arith, e, f, h))
  ]
]
