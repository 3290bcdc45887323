-- ===== src/Refinement/Disputes.antt =====
-- Disputes: filing one moves no money; a verdict settles the order.
use campusgig_backend.Prelude.{
  ℕ, ℤ, subst, Option, ◌<◌, ◌==◌, ◌≡◌, ◌∙◌, sym, int_laws, parts_of_eq, refl, inl, inr,
  Option-cases, some, arith, true, false, List, ◌⊎◌,
}
use campusgig_backend.Db.Types.{DisputeVerdict, refund_buyer, complete_for_seller, split_funds}
use campusgig_backend.Db.Rows.{User, Order, Dispute, Db, Message}
use campusgig_backend.Db.Table.{find, put, order_keyed, gig_keyed}
use campusgig_backend.Db.Tx.{Result, Error, ok, err, Env, Result-cases}
use campusgig_backend.Ledger.Held.{Changes, put-Changes, is_open, held-Changes_same}
use campusgig_backend.Ledger.Step.{progress, settle, Settlement, EscrowBacked}
use campusgig_backend.Ledger.Preserve.{escrow_of-Settlement}
use campusgig_backend.Wallet.Escrow.{
  DisputePayoutShares, release_from_escrow, refund_from_escrow, split_from_escrow,
}
use campusgig_backend.Orders.Windows.{platform_fee_collector_user_id}
use campusgig_backend.Disputes.Payout.{compute_dispute_payout}
use campusgig_backend.Disputes.Payout.Shares.{ok-injective, compute_dispute_payout-IsPayout}
use campusgig_backend.Disputes.File.{file_dispute_tx, frozen_order, DisputeInput}
use campusgig_backend.Disputes.Resolve.{resolve_tx, pay_verdict, closed_order, ResolveDisputeInput}
use campusgig_backend.Refinement.Escrow.{
  Steps, Divided, refund_from_escrow-Adjust, refund-Divided, release_from_escrow-Divided,
}
use campusgig_backend.Refinement.Split.{split_from_escrow-Divided}

-- Filing a dispute freezes the order, which stays open, and moves no money.
pub file_dispute-Steps :
    (env : Env) (input : DisputeInput) (d d' : Db) (r : Dispute × Message)
    → file_dispute_tx env input d ≡ ok (r, d')
    → Steps d d'
unfolding file_dispute_tx
file_dispute-Steps env input d d' r h = elim (Option-cases (find input.order_id d.orders)) [
  | inl e ↦ absurd (ground (arith, e, h))
  | inr (o, e) ↦
      let new = frozen_order o in
      let written : d'.orders ≡ put new d.orders = ground (arith, e, h) in
      let same : d'.users ≡ d.users = ground (arith, e, h) in
      rw (written, same)
        (progress o new (put-Changes input.order_id d.orders o new e refl refl refl refl)
          (ground (arith, e, h)) refl refl)
]

-- The escrow move of each verdict settles the order by the shares that the payout rule gives.
pay_verdict-Divided :
    (env : Env) (v : DisputeVerdict) (pct : Option ℤ) (s : DisputePayoutShares) (o : Order)
    (d d' : Db) (r : Unit {0})
    → compute_dispute_payout o.gig_price_vnd_snapshot v pct ≡ ok s
    → pay_verdict env v s o d ≡ ok (r, d')
    → Divided o s d.users d'.users × (d'.orders ≡ d.orders)
unfolding pay_verdict compute_dispute_payout
pay_verdict-Divided env refund_buyer pct s o d d' r p h =
    elim (Result-cases
      (refund_from_escrow (env.uuid 2) o.buyer_id o.gig_price_vnd_snapshot o.id d)) [
        | inl (e, q) ↦ absurd (ground (arith, q, h))
        | inr (t, d1, q) ↦
            let a = refund_from_escrow-Adjust _ _ _ _ d d1 t q in
            let last : d' ≡ d1 = ground (arith, q, h) in
            let m = refund-Divided o d.users d1.users a.0 in
            rw last (subst (λ s'. Divided o s' d.users d1.users) (ok-injective p) m, a.1)
      ]
pay_verdict-Divided env complete_for_seller pct s o d d' r p h =
    elim (Result-cases (
      release_from_escrow env.uuid o.buyer_id o.seller_id platform_fee_collector_user_id
        o.gig_price_vnd_snapshot 20 o.id d)) [
          | inl (e, q) ↦ absurd (ground (arith, q, h))
          | inr (t, d1, q) ↦
              let last : d' ≡ d1 = ground (arith, q, h) in
              let m = release_from_escrow-Divided env.uuid o o.id d d1 t q in
              rw last (subst (λ s'. Divided o s' d.users d1.users) (ok-injective p) m.0, m.1)
        ]
pay_verdict-Divided env split_funds pct s o d d' r p h =
    elim (Result-cases
      (split_from_escrow env.uuid o.buyer_id o.seller_id platform_fee_collector_user_id s o.id d)) [
        | inl (e, q) ↦ absurd (ground (arith, q, h))
        | inr (t, d1, q) ↦
            let last : d' ≡ d1 = ground (arith, q, h) in
            let exact = compute_dispute_payout-IsPayout _ split_funds pct s p in
            rw last (split_from_escrow-Divided env.uuid o s o.id d d1 t exact.0 q)
      ]

Payout-cases :
    (r : Result DisputePayoutShares)
    → ((e : Error) × (r ≡ err e)) ⊎ ((s : DisputePayoutShares) × (r ≡ ok s))
Payout-cases (ok s) = inr (s, refl)
Payout-cases (err e) = inl (e, refl)

closed_order-Changes :
    (env : Env) (admin : ℕ) (v : DisputeVerdict) (i : ℕ) (os : List Order) (o : Order)
    → find i os ≡ some o
    → Changes os (put (closed_order env admin v o) os) o (closed_order env admin v o)
closed_order-Changes env admin refund_buyer i os o e = put-Changes i os o _ e refl refl refl refl
closed_order-Changes env admin _ i os o e = put-Changes i os o _ e refl refl refl refl

closed_order-is_closed :
    (env : Env) (admin : ℕ) (v : DisputeVerdict) (o : Order)
    → is_open (closed_order env admin v o).status ≡ false
closed_order-is_closed env admin refund_buyer o = refl
closed_order-is_closed env admin _ o = refl

-- A verdict that returns, whatever the order's status: the order's price is settled by just the
-- shares that the payout rule gives, and the order is cancelled on a refund and completed otherwise.
pub resolve_lem :
    (env : Env) (i admin : ℕ) (input : ResolveDisputeInput) (d d' : Db) (r : Dispute × Message)
    (o : Order)
    → find i d.orders ≡ some o
    → resolve_tx env i admin input d ≡ ok (r, d')
    → (s : DisputePayoutShares) × (compute_dispute_payout o.gig_price_vnd_snapshot input.verdict
          input.buyer_refund_percent
        ≡ ok s)
      × Divided o s d.users d'.users
      × Changes d.orders d'.orders o (closed_order env admin input.verdict o)
unfolding resolve_tx
resolve_lem env i admin input d d' r o e h =
    let v = input.verdict in
    let new = closed_order env admin v o in
    elim (Payout-cases
      (compute_dispute_payout o.gig_price_vnd_snapshot v input.buyer_refund_percent)) [
        | inl (x, q) ↦ absurd (ground (arith, e, q, h))
        | inr (s, q) ↦ elim (Result-cases (pay_verdict env v s o d)) [
          | inl (x, q1) ↦ absurd (ground (arith, e, q, q1, h))
          | inr (t, d1, q1) ↦
              let m = pay_verdict-Divided env v input.buyer_refund_percent s o d d1 t q q1 in
              let written : d'.orders ≡ put new d.orders = ground (arith, e, q, q1, h, m.1) in
              let paid : d'.users ≡ d1.users = ground (arith, e, q, q1, h) in
              (s, q, rw paid m.0, rw written (closed_order-Changes env admin v i d.orders o e))
        ]
      ]

-- A verdict on an open order closes it, and all of its price leaves escrow, for the buyer, the
-- seller and the platform.
pub resolve-Steps :
    (env : Env) (i admin : ℕ) (input : ResolveDisputeInput) (d d' : Db) (r : Dispute × Message)
    (o : Order)
    → find i d.orders ≡ some o
    → is_open o.status ≡ true
    → resolve_tx env i admin input d ≡ ok (r, d')
    → Steps d d'
resolve-Steps env i admin input d d' r o e was_open h =
    let (_, _, s, c) = resolve_lem env i admin input d d' r o e h in
    settle o (closed_order env admin input.verdict o) c was_open
      (closed_order-is_closed env admin input.verdict o) s.0

-- Settling a closed order of a price above zero takes its price out of escrow once more.
settled_twice :
    (o new : Order) (us us' : List User) (os os' : List Order)
    → Settlement o us us'
    → Changes os os' o new
    → is_open o.status ≡ false
    → is_open new.status ≡ false
    → 0 < o.gig_price_vnd_snapshot
    → EscrowBacked us os
    → ¬ EscrowBacked us' os'
settled_twice o new us us' os os' s c closed closed' priced before after =
    let b = o.buyer_id in
    let law = escrow_of-Settlement b o us us' s in
    let self : (b == b) ≡ true = ground arith in
    let now = rw self at law in
    let same = held-Changes_same b os os' o new c (closed' ∙ sym closed) in
    omega
      (int_laws, parts_of_eq _ _ (after b), parts_of_eq _ _ (before b), parts_of_eq _ _ now, same)

-- A verdict on an order that is already completed or cancelled, at a price above zero, breaks the
-- escrow accounting wherever it held: some escrow balance no longer is what the open orders account
-- for.
pub resolve_unbacks :
    (env : Env) (i admin : ℕ) (input : ResolveDisputeInput) (d d' : Db) (r : Dispute × Message)
    (o : Order)
    → find i d.orders ≡ some o
    → is_open o.status ≡ false
    → 0 < o.gig_price_vnd_snapshot
    → resolve_tx env i admin input d ≡ ok (r, d')
    → EscrowBacked d.users d.orders
    → ¬ EscrowBacked d'.users d'.orders
resolve_unbacks env i admin input d d' r o e closed priced h before =
    let (_, _, s, c) = resolve_lem env i admin input d d' r o e h in
    settled_twice o (closed_order env admin input.verdict o) d.users d'.users d.orders d'.orders s.0
      c closed (closed_order-is_closed env admin input.verdict o) priced before
