-- ===== src/Refinement/Finish.antt =====
-- Delivery, completion and the deadline jobs.
use campusgig_backend.Prelude.{
  ℕ, ◌+◌, ◌≡◌, refl, inl, inr, Option-cases, Bool-cases, Option, some, true, false, ◌⊎◌, arith,
  List,
}
use campusgig_backend.Db.Types.{Text, OrderStatus, status_is}
use campusgig_backend.Db.Rows.{Order, Gig, Delivery, Transaction, Db, Message}
use campusgig_backend.Db.Table.{find, put, order_keyed, gig_keyed}
use campusgig_backend.Db.Tx.{ok, Env, Result-cases}
use campusgig_backend.Ledger.Held.{put-Changes, Changes, is_open}
use campusgig_backend.Ledger.Step.{idle, progress, settle}
use campusgig_backend.Orders.Windows.{platform_fee_pct, platform_fee_collector_user_id}
use campusgig_backend.Orders.Deliver.{
  deliver_work_tx, delivered_order, update_delivery_tx, accept_delivery_tx, completed_order,
}
use campusgig_backend.Orders.Finish.{
  mark_late_tx, late_order, auto_complete_order_tx, auto_completed_order, finalize_order_tx,
}
use campusgig_backend.Disputes.Payout.{seller_payout}
use campusgig_backend.Wallet.Escrow.{release_from_escrow}
use campusgig_backend.Refinement.Escrow.{Steps, Divided, release_from_escrow-Divided}

-- A first delivery moves no money and leaves the order open.
pub deliver_work-Steps :
    (env : Env) (i v : ℕ) (note : Text) (files : List ℕ) (d d' : Db)
    (r : Order × Delivery × Message)
    → deliver_work_tx env i v note files d ≡ ok (r, d')
    → Steps d d'
unfolding deliver_work_tx
deliver_work-Steps env i v note files d d' r h = elim (Option-cases (find i d.orders)) [
  | inl e ↦ absurd (ground (arith, e, h))
  | inr (o, e) ↦
      let new = delivered_order env o in
      let written : d'.orders ≡ put new d.orders = ground (arith, e, h) in
      let same : d'.users ≡ d.users = ground (arith, e, h) in
      rw (written, same)
        (progress o new (put-Changes i d.orders o new e refl refl refl refl) (ground (arith, e, h))
          refl refl)
]

-- A further delivery writes neither users nor orders.
pub update_delivery-Steps :
    (env : Env) (i v : ℕ) (note : Text) (files : List ℕ) (d d' : Db)
    (r : Order × Delivery × Message)
    → update_delivery_tx env i v note files d ≡ ok (r, d')
    → Steps d d'
unfolding update_delivery_tx
update_delivery-Steps env i v note files d d' r h = elim (Option-cases (find i d.orders)) [
  | inl e ↦ absurd (ground (arith, e, h))
  | inr (o, e) ↦ idle (ground (arith, e, h)) (ground (arith, e, h))
]

-- The buyer's acceptance completes an open order: its price leaves the buyer's escrow, a fifth of it,
-- rounded down, for the platform, the rest for the seller and nothing for the buyer.
pub accept_delivery_lem :
    (env : Env) (i v : ℕ) (d d' : Db) (r : Order × (Transaction × Transaction) × Message)
    → accept_delivery_tx env i v d ≡ ok (r, d')
    → (o : Order) × (find i d.orders ≡ some o)
      × (is_open o.status ≡ true)
      × Divided o (seller_payout o.gig_price_vnd_snapshot) d.users d'.users
      × Changes d.orders d'.orders o (completed_order env o)
unfolding accept_delivery_tx
accept_delivery_lem env i v d d' r h = elim (Option-cases (find i d.orders)) [
  | inl e ↦ absurd (ground (arith, e, h))
  | inr (o, e) ↦ elim (Option-cases (find o.gig_id d.gigs)) [
    | inl f ↦ absurd (ground (arith, e, f, h))
    | inr (g, f) ↦
        let new = completed_order env o in
        let g' : Gig = record g { completed_order_count = g.completed_order_count + 1 } in
        let d0 : Db = record d { orders = put new d.orders; gigs = put g' d.gigs } in
        elim (Result-cases (
          release_from_escrow env.uuid o.buyer_id o.seller_id platform_fee_collector_user_id
            o.gig_price_vnd_snapshot platform_fee_pct i d0)) [
              | inl (x, q) ↦ absurd (ground (arith, e, f, q, h))
              | inr (t, d1, q) ↦
                  let s = release_from_escrow-Divided env.uuid o i d0 d1 t q in
                  let written : d'.orders ≡ put new d.orders = ground (arith, e, f, q, h, s.1) in
                  let paid : d'.users ≡ d1.users = ground (arith, e, f, q, h) in
                  rw (written, paid)
                    (
                      o,
                      e,
                      ground (arith, e, f, q, h),
                      s.0,
                      put-Changes i d.orders o new e refl refl refl refl,
                    )
            ]
  ]
]

pub accept_delivery-Steps :
    (env : Env) (i v : ℕ) (d d' : Db) (r : Order × (Transaction × Transaction) × Message)
    → accept_delivery_tx env i v d ≡ ok (r, d')
    → Steps d d'
accept_delivery-Steps env i v d d' r h =
    let (o, _, was_open, s, c) = accept_delivery_lem env i v d d' r h in
    settle o (completed_order env o) c was_open refl s.0

-- Marking an order late moves no money.
pub mark_late-Steps :
    (env : Env) (i : ℕ) (d d' : Db) (r : Option (Order × Message))
    → mark_late_tx env i d ≡ ok (r, d')
    → Steps d d'
unfolding mark_late_tx
mark_late-Steps env i d d' r h = elim (Option-cases (find i d.orders)) [
  | inl e ↦ idle (ground (arith, e, h)) (ground (arith, e, h))
  | inr (o, e) ↦ elim (Bool-cases (status_is o.status OrderStatus.in_progress)) [
    | inr miss ↦ idle (ground (arith, e, miss, h)) (ground (arith, e, miss, h))
    | inl hit ↦
        let new = late_order o in
        let written : d'.orders ≡ put new d.orders = ground (arith, e, hit, h) in
        let same : d'.users ≡ d.users = ground (arith, e, hit, h) in
        rw (written, same)
          (progress o new (put-Changes i d.orders o new e refl refl refl refl) (ground (arith, hit))
            refl refl)
  ]
]

-- The end of the review window moves no money: the dispute window opens.
pub auto_complete_order-Steps :
    (env : Env) (i : ℕ) (d d' : Db) (r : Option (Order × Message))
    → auto_complete_order_tx env i d ≡ ok (r, d')
    → Steps d d'
unfolding auto_complete_order_tx
auto_complete_order-Steps env i d d' r h = elim (Option-cases (find i d.orders)) [
  | inl e ↦ idle (ground (arith, e, h)) (ground (arith, e, h))
  | inr (o, e) ↦ elim (Bool-cases (status_is o.status OrderStatus.delivered)) [
    | inr miss ↦ idle (ground (arith, e, miss, h)) (ground (arith, e, miss, h))
    | inl hit ↦
        let new = auto_completed_order env o in
        let written : d'.orders ≡ put new d.orders = ground (arith, e, hit, h) in
        let same : d'.users ≡ d.users = ground (arith, e, hit, h) in
        rw (written, same)
          (progress o new (put-Changes i d.orders o new e refl refl refl refl) (ground (arith, hit))
            refl refl)
  ]
]

-- The end of the dispute window: an order that awaits its finalization is completed and paid out as
-- the buyer's acceptance does it; where there is no such order the tables stay as they are.
pub finalize_order_lem :
    (env : Env) (i : ℕ) (d d' : Db) (r : Option (Order × (Transaction × Transaction) × Message))
    → finalize_order_tx env i d ≡ ok (r, d')
    → (((o : Order)
          → find i d.orders ≡ some o
          → status_is o.status OrderStatus.awaiting_finalization ≡ false)
        × (d' ≡ d))
      ⊎ ((o : Order) × (find i d.orders ≡ some o)
          × (status_is o.status OrderStatus.awaiting_finalization ≡ true)
          × Divided o (seller_payout o.gig_price_vnd_snapshot) d.users d'.users
          × Changes d.orders d'.orders o (completed_order env o))
unfolding finalize_order_tx
finalize_order_lem env i d d' r h = elim (Option-cases (find i d.orders)) [
  | inl e ↦ inl (λ o f. absurd (ground (arith, e, f)), ground (arith, e, h))
  | inr (o, e) ↦ elim (Bool-cases (status_is o.status OrderStatus.awaiting_finalization)) [
    | inr miss ↦ inl (λ p f. ground (arith, e, f, miss), ground (arith, e, miss, h))
    | inl hit ↦ elim (Option-cases (find o.gig_id d.gigs)) [
      | inl f ↦ absurd (ground (arith, e, hit, f, h))
      | inr (g, f) ↦
          let new = completed_order env o in
          let g' : Gig = record g { completed_order_count = g.completed_order_count + 1 } in
          let d0 : Db = record d { orders = put new d.orders; gigs = put g' d.gigs } in
          elim (Result-cases (
            release_from_escrow env.uuid o.buyer_id o.seller_id platform_fee_collector_user_id
              o.gig_price_vnd_snapshot platform_fee_pct i d0)) [
                | inl (x, q) ↦ absurd (ground (arith, e, hit, f, q, h))
                | inr (t, d1, q) ↦
                    let s = release_from_escrow-Divided env.uuid o i d0 d1 t q in
                    let written : d'.orders ≡ put new d.orders =
                      ground (arith, e, hit, f, q, h, s.1) in
                    let paid : d'.users ≡ d1.users = ground (arith, e, hit, f, q, h) in
                    inr (
                      rw (written, paid)
                        (o, e, hit, s.0, put-Changes i d.orders o new e refl refl refl refl))
              ]
    ]
  ]
]

pub finalize_order-Steps :
    (env : Env) (i : ℕ) (d d' : Db) (r : Option (Order × (Transaction × Transaction) × Message))
    → finalize_order_tx env i d ≡ ok (r, d')
    → Steps d d'
finalize_order-Steps env i d d' r h = elim (finalize_order_lem env i d d' r h) [
  | inl (_, same) ↦ idle (rw same) (rw same)
  | inr (o, _, hit, s, c) ↦ settle o (completed_order env o) c (ground (arith, hit)) refl s.0
]
