-- ===== src/Refinement/Escrow.antt =====
-- The escrow moves of the wallet, as changes of users' balances.
use campusgig_backend.Prelude.{
  ℕ, ℤ, pos, int_laws, ◌*◌, ◌/◌, ◌≤◌, ◌-ℤ◌, ◌≡◌, refl, inl, inr, Option-cases, List, arith,
}
use campusgig_backend.Db.Rows.{User, Order, Transaction, Db}
use campusgig_backend.Db.Table.{find, user_keyed}
use campusgig_backend.Db.Tx.{ok, Delta, update_balances, Result-cases}
use campusgig_backend.Ledger.Balances.{Adjust}
use campusgig_backend.Ledger.Step.{LedgerStep, Settlement}
use campusgig_backend.Orders.Windows.{platform_fee_collector_user_id, platform_fee_pct}
use campusgig_backend.Disputes.Payout.{full_refund, seller_payout}
use campusgig_backend.Wallet.Escrow.{
  DisputePayoutShares, platform_share, refund_from_escrow, release_from_escrow,
}

-- A payment into a wallet.
abbrev pub wages : ℤ → Delta
wages x = record { wallet = x; escrow = pos 0; held = pos 0 }

-- The step of the ledger from one state of the tables to another.
abbrev pub Steps : Db → Db → Type 0
Steps d d' = LedgerStep d.users d.orders d'.users d'.orders

-- An update of balances adjusts the row of its user, and no other table.
pub update_balances-Adjust :
    (i : ℕ) (c : Delta) (d d' : Db) (u : User)
    → update_balances i c d ≡ ok (u, d')
    → Adjust i c d.users d'.users
      × (d'.orders ≡ d.orders)
      × (d'.withdrawal_requests ≡ d.withdrawal_requests)
unfolding update_balances
update_balances-Adjust i c d d' u h = elim (Option-cases (find i d.users)) [
  | inl e ↦ absurd (ground (arith, e, h))
  | inr (old, e) ↦ (
    record { old = old; found = e; written = ground (arith, e, h) },
    ground (arith, e, h),
    ground (arith, e, h),
  )
]

pub refund_from_escrow-Adjust :
    (n i amount o : ℕ) (d d' : Db) (t : Transaction)
    → refund_from_escrow n i amount o d ≡ ok (t, d')
    → Adjust i
        (record { wallet = pos amount; escrow = pos 0 -ℤ pos amount; held = pos 0 })
        d.users
        d'.users
      × (d'.orders ≡ d.orders)
unfolding refund_from_escrow update_balances
refund_from_escrow-Adjust n i amount o d d' t h = elim (Option-cases (find i d.users)) [
  | inl e ↦ absurd (ground (arith, e, h))
  | inr (old, e) ↦
      (record { old = old; found = e; written = ground (arith, e, h) }, ground (arith, e, h))
]

-- A settlement of the order by just these shares.
abbrev pub Divided : Order → DisputePayoutShares → List User → List User → Type 0
Divided o s us us' =
    (m : Settlement o us us') × (m.refund ≡ s.buyer_refund_vnd)
    × (m.earning ≡ s.seller_earning_vnd)
    × (m.fee ≡ s.platform_fee_vnd)

-- A full refund settles the order.
pub refund-Divided :
    (o : Order) (us us' : List User)
    → Adjust o.buyer_id
        (record {
          wallet = pos o.gig_price_vnd_snapshot;
          escrow = pos 0 -ℤ pos o.gig_price_vnd_snapshot;
          held = pos 0;
        })
        us
        us'
    → Divided o (full_refund o.gig_price_vnd_snapshot) us us'
refund-Divided o us us' a = (
  record {
    refund = pos o.gig_price_vnd_snapshot;
    earning = pos 0;
    fee = pos 0;
    exact = omega int_laws;
    none_negative = omega arith;
    after_buyer = us';
    after_seller = us';
    buyer_pays = a;
    seller_paid = inl (refl, refl);
    platform_paid = inl (refl, refl);
  },
  refl,
  refl,
  refl,
)

pub refund-Settlement :
    (o : Order) (us us' : List User)
    → Adjust o.buyer_id
        (record {
          wallet = pos o.gig_price_vnd_snapshot;
          escrow = pos 0 -ℤ pos o.gig_price_vnd_snapshot;
          held = pos 0;
        })
        us
        us'
    → Settlement o us us'
refund-Settlement o us us' a = let (s, _, _, _) = refund-Divided o us us' a in s

share_le : (p : ℕ) → p * 20 / 100 ≤ p
share_le p = omega arith

-- A release settles the order: the fee is a fifth, rounded down, and the seller has the rest.
pub release_from_escrow-Divided :
    (uuid : ℕ → ℕ) (o : Order) (i : ℕ) (d d' : Db) (t : Transaction × Transaction)
    → release_from_escrow uuid o.buyer_id o.seller_id platform_fee_collector_user_id
        o.gig_price_vnd_snapshot platform_fee_pct i d
      ≡ ok (t, d')
    → Divided o (seller_payout o.gig_price_vnd_snapshot) d.users d'.users × (d'.orders ≡ d.orders)
unfolding release_from_escrow
release_from_escrow-Divided uuid o i d d' t h =
    let price = o.gig_price_vnd_snapshot in
    let fee = pos (platform_share price platform_fee_pct) in
    let paid : Delta = record { wallet = pos 0; escrow = pos 0 -ℤ pos price; held = pos 0 } in
    elim (Result-cases (update_balances o.buyer_id paid d)) [
      | inl (e, q) ↦ absurd (ground (arith, q, h))
      | inr (u1, d1, q1) ↦
          elim (Result-cases (update_balances o.seller_id (wages (pos price -ℤ fee)) d1)) [
            | inl (e, q) ↦ absurd (ground (arith, q1, q, h))
            | inr (u2, d2, q2) ↦
                elim (Result-cases
                  (update_balances platform_fee_collector_user_id (wages fee) d2)) [
                    | inl (e, q) ↦ absurd (ground (arith, q1, q2, q, h))
                    | inr (u3, d3, q3) ↦
                        let a1 = update_balances-Adjust _ _ d d1 u1 q1 in
                        let a2 = update_balances-Adjust _ _ d1 d2 u2 q2 in
                        let a3 = update_balances-Adjust _ _ d2 d3 u3 q3 in
                        let same : d'.users ≡ d3.users = ground (arith, q1, q2, q3, h) in
                        (
                          (
                            record {
                              refund = pos 0;
                              earning = pos price -ℤ fee;
                              fee = fee;
                              exact = omega int_laws;
                              none_negative = omega (int_laws, share_le price);
                              after_buyer = d1.users;
                              after_seller = d2.users;
                              buyer_pays = a1.0;
                              seller_paid = inr a2.0;
                              platform_paid = inr (rw same a3.0);
                            },
                            refl,
                            refl,
                            refl,
                          ),
                          ground (arith, q1, q2, q3, h, a1.1, a2.1, a3.1),
                        )
                  ]
          ]
    ]
