-- ===== src/Refinement/Split.antt =====
-- `splitFromEscrow` settles an order, whatever the shares, as long as they are exact.
use campusgig_backend.Prelude.{
  ℕ, ℤ, pos, ◌+ℤ◌, ◌-ℤ◌, ◌≤ℤ◌, ltb_ℤ, if◌then◌else◌, ◌≡◌, refl, inl, inr, Bool-cases, Option, arith,
  false, sym,
}
use campusgig_backend.Db.Rows.{Order, Transaction, Db}
use campusgig_backend.Db.Tx.{ok, Delta, update_balances, Result-cases}
use campusgig_backend.Ledger.Step.{Pays}
use campusgig_backend.Orders.Windows.{platform_fee_collector_user_id}
use campusgig_backend.Wallet.Escrow.{
  DisputePayoutShares, pay_share, book_refund, split_from_escrow, SplitRefs,
}
use campusgig_backend.Disputes.Payout.Shares.{IsPayout}
use campusgig_backend.Refinement.Escrow.{Divided, wages, update_balances-Adjust}

nonpos_is_zero : (x : ℤ) → pos 0 ≤ℤ x → ltb_ℤ (pos 0) x ≡ false → x ≡ pos 0
nonpos_is_zero x h t = ground (arith, h, t)

-- A share is paid, or is zero and skipped.
pay_share-Pays :
    (n i : ℕ) (x : ℤ) (o : ℕ) (d d' : Db) (t : Option Transaction)
    → pos 0 ≤ℤ x
    → pay_share n i x o d ≡ ok (t, d')
    → Pays i x d.users d'.users × (d'.orders ≡ d.orders)
unfolding pay_share
pay_share-Pays n i x o d d' t nonneg h = elim (Bool-cases (ltb_ℤ (pos 0) x)) [
  | inr zero ↦
      (inl (nonpos_is_zero x nonneg zero, ground (arith, zero, h)), ground (arith, zero, h))
  | inl positive ↦ elim (Result-cases (update_balances i (wages x) d)) [
    | inl (e, q) ↦ absurd (ground (arith, positive, q, h))
    | inr (u, d1, q) ↦
        let a = update_balances-Adjust i (wages x) d d1 u q in
        let paid : d'.users ≡ d1.users = ground (arith, positive, q, h) in
        (inr (rw paid a.0), ground (arith, positive, q, h, a.1))
  ]
]

book_refund-same :
    (n i : ℕ) (x y : ℤ) (o : ℕ) (d d' : Db) (t : Option Transaction)
    → book_refund n i x y o d ≡ ok (t, d')
    → (d'.users ≡ d.users) × (d'.orders ≡ d.orders)
unfolding book_refund
book_refund-same n i x y o d d' t h = ground (arith, h)

-- What the split takes from the buyer.
abbrev split_delta : DisputePayoutShares → Delta
split_delta s = record {
  wallet = if ltb_ℤ (pos 0) s.buyer_refund_vnd then s.buyer_refund_vnd else pos 0;
  escrow = pos 0 -ℤ (s.buyer_refund_vnd +ℤ s.seller_earning_vnd +ℤ s.platform_fee_vnd);
  held = pos 0;
}

split_delta_lem :
    (price : ℕ) (s : DisputePayoutShares)
    → IsPayout price s
    → split_delta s
      ≡ record { wallet = s.buyer_refund_vnd; escrow = pos 0 -ℤ pos price; held = pos 0 }
split_delta_lem price s p =
    let refund : (if ltb_ℤ (pos 0) s.buyer_refund_vnd then s.buyer_refund_vnd else pos 0)
        ≡ s.buyer_refund_vnd =
      elim (Bool-cases (ltb_ℤ (pos 0) s.buyer_refund_vnd)) [
        | inl positive ↦ rw positive
        | inr zero ↦ rw zero (sym (nonpos_is_zero s.buyer_refund_vnd p.refund_nonneg zero))
      ] in
    λ i. record { wallet = refund i; escrow = pos 0 -ℤ p.exact i; held = pos 0 }

-- A split by shares that are exact and not negative settles the order by just these shares, and
-- writes no order.
pub split_from_escrow-Divided :
    (uuid : ℕ → ℕ) (o : Order) (s : DisputePayoutShares) (i : ℕ) (d d' : Db) (t : SplitRefs)
    → IsPayout o.gig_price_vnd_snapshot s
    → split_from_escrow uuid o.buyer_id o.seller_id platform_fee_collector_user_id s i d
      ≡ ok (t, d')
    → Divided o s d.users d'.users × (d'.orders ≡ d.orders)
unfolding split_from_escrow
split_from_escrow-Divided uuid o s i d d' t p h =
    elim (Result-cases (update_balances o.buyer_id (split_delta s) d)) [
      | inl (e, q) ↦ absurd (ground (arith, q, h))
      | inr (u1, d1, q1) ↦
          elim (Result-cases
            (book_refund (uuid 2) o.buyer_id s.buyer_refund_vnd u1.wallet_balance i d1)) [
              | inl (e, q) ↦ absurd (ground (arith, q1, q, h))
              | inr (t2, d2, q2) ↦
                  elim (Result-cases (pay_share (uuid 3) o.seller_id s.seller_earning_vnd i d2)) [
                    | inl (e, q) ↦ absurd (ground (arith, q1, q2, q, h))
                    | inr (t3, d3, q3) ↦
                        elim (Result-cases (
                          pay_share (uuid 4) platform_fee_collector_user_id s.platform_fee_vnd i
                            d3)) [
                              | inl (e, q) ↦ absurd (ground (arith, q1, q2, q3, q, h))
                              | inr (t4, d4, q4) ↦
                                  let a1 = update_balances-Adjust _ _ d d1 u1 q1 in
                                  let a2 = book_refund-same _ _ _ _ _ d1 d2 t2 q2 in
                                  let a3 = pay_share-Pays _ _ _ _ d2 d3 t3 p.earning_nonneg q3 in
                                  let a4 = pay_share-Pays _ _ _ _ d3 d4 t4 p.fee_nonneg q4 in
                                  let last : d'.users ≡ d4.users =
                                    ground (arith, q1, q2, q3, q4, h) in
                                  (
                                    rw last (
                                      (record {
                                        refund = s.buyer_refund_vnd;
                                        earning = s.seller_earning_vnd;
                                        fee = s.platform_fee_vnd;
                                        exact = p.exact;
                                        none_negative =
                                            (p.refund_nonneg, p.earning_nonneg, p.fee_nonneg);
                                        after_buyer = d1.users;
                                        after_seller = d3.users;
                                        buyer_pays = rw (← split_delta_lem _ s p) a1.0;
                                        seller_paid = rw a2.0 at a3.0;
                                        platform_paid = a4.0;
                                      }),
                                      refl,
                                      refl,
                                      refl,
                                    ),
                                    ground (arith, q1, q2, q3, q4, h, a1.1, a2.1, a3.1, a4.1),
                                  )
                            ]
                  ]
            ]
    ]
