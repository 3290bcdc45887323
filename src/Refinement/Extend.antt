-- ===== src/Refinement/Extend.antt =====
-- Extensions of a deadline move no money.
use campusgig_backend.Prelude.{
  ℕ, ◌≡◌, refl, inl, inr, Option-cases, Bool-cases, Option, some, arith, true,
}
use campusgig_backend.Db.Types.{Text, OrderStatus, is_pending}
use campusgig_backend.Db.Rows.{Order, Extension, Db, Message}
use campusgig_backend.Db.Table.{find, put, order_keyed, extension_keyed}
use campusgig_backend.Db.Tx.{ok, Env}
use campusgig_backend.Ledger.Held.{put-Changes, is_open}
use campusgig_backend.Ledger.Step.{idle, progress}
use campusgig_backend.Orders.Extend.{
  request_extension_tx, decide_extension_tx, expire_extension_tx, Decision, Shift, shift, accept,
  reject,
}
use campusgig_backend.Refinement.Escrow.{Steps}

pub request_extension-Steps :
    (env : Env) (i v hours : ℕ) (reason : Option Text) (d d' : Db) (r : Order × Extension × Message)
    → request_extension_tx env i v hours reason d ≡ ok (r, d')
    → Steps d d'
unfolding request_extension_tx
request_extension-Steps env i v hours reason d d' r h = elim (Option-cases (find i d.orders)) [
  | inl e ↦ absurd (ground (arith, e, h))
  | inr (o, e) ↦ idle (ground (arith, e, h)) (ground (arith, e, h))
]

-- A shifted order keeps its id, its parties and its price, and stays open.
pub record Shifts (o new : Order) : Type 0 where
  pub same_id : new.id ≡ o.id
  pub same_buyer : new.buyer_id ≡ o.buyer_id
  pub same_seller : new.seller_id ≡ o.seller_id
  pub same_price : new.gig_price_vnd_snapshot ≡ o.gig_price_vnd_snapshot
  pub was_open : is_open o.status ≡ true
  pub is_still_open : is_open new.status ≡ true

pub shift-Shifts :
    (s : OrderStatus) (now hours : ℕ) (o : Order) (m : Shift)
    → o.status ≡ s
    → shift s now hours o ≡ some m
    → Shifts o m.order
unfolding shift
shift-Shifts OrderStatus.in_progress now hours o m e h = ground (arith, e, h)
shift-Shifts OrderStatus.late now hours o m e h = ground (arith, e, h)
shift-Shifts OrderStatus.delivered now hours o m e h = ground (arith, e, h)
shift-Shifts _ now hours o m e h = absurd (ground (arith, h))

-- A decision on an extension leaves an open order open.
pub decide_extension-Steps :
    (env : Env) (i v : ℕ) (decision : Decision) (d d' : Db)
    (r : Order × Extension × Option Shift × Message)
    → decide_extension_tx env i v decision d ≡ ok (r, d')
    → Steps d d'
unfolding decide_extension_tx
decide_extension-Steps env i v reject d d' r h = elim (Option-cases (find i d.extensions)) [
  | inl e ↦ absurd (ground (arith, e, h))
  | inr (x, e) ↦ elim (Option-cases (find x.order_id d.orders)) [
    | inl f ↦ absurd (ground (arith, e, f, h))
    | inr (o, f) ↦ idle (ground (arith, e, f, h)) (ground (arith, e, f, h))
  ]
]
decide_extension-Steps env i v accept d d' r h = elim (Option-cases (find i d.extensions)) [
  | inl e ↦ absurd (ground (arith, e, h))
  | inr (x, e) ↦ elim (Option-cases (find x.order_id d.orders)) [
    | inl f ↦ absurd (ground (arith, e, f, h))
    | inr (o, f) ↦ elim (Option-cases (shift o.status env.now x.hours_requested o)) [
      | inl s ↦ idle (ground (arith, e, f, s, h)) (ground (arith, e, f, s, h))
      | inr (m, s) ↦
          let k = shift-Shifts o.status env.now x.hours_requested o m refl s in
          let written : d'.orders ≡ put m.order d.orders = ground (arith, e, f, s, h) in
          let same : d'.users ≡ d.users = ground (arith, e, f, s, h) in
          rw (written, same)
            (progress o m.order
              (put-Changes x.order_id d.orders o m.order f k.same_id k.same_buyer k.same_seller
                k.same_price)
              k.was_open k.is_still_open refl)
    ]
  ]
]

pub expire_extension-Steps :
    (env : Env) (i : ℕ) (d d' : Db) (r : Option (Order × Extension × Message))
    → expire_extension_tx env i d ≡ ok (r, d')
    → Steps d d'
unfolding expire_extension_tx
expire_extension-Steps env i d d' r h = elim (Option-cases (find i d.extensions)) [
  | inl e ↦ idle (ground (arith, e, h)) (ground (arith, e, h))
  | inr (x, e) ↦ elim (Bool-cases (is_pending x.status)) [
    | inr miss ↦ idle (ground (arith, e, miss, h)) (ground (arith, e, miss, h))
    | inl hit ↦ elim (Option-cases (find x.order_id d.orders)) [
      | inl f ↦ absurd (ground (arith, e, hit, f, h))
      | inr (o, f) ↦ idle (ground (arith, e, hit, f, h)) (ground (arith, e, hit, f, h))
    ]
  ]
]
