-- ===== src/Orders/Returns.antt =====
-- When an order operation returns: exactly for the right party, on an order in the right state.
use campusgig_backend.Prelude.{
  ℕ, ℤ, pos, ◌==◌, ◌||◌, ltb_ℤ, ◌+ℤ◌, ◌-ℤ◌, ◌≤ℤ◌, int_laws, ◌≡◌, ◌↔◌, Option, some, arith, inl, inr,
  Option-cases, true, false,
}
use campusgig_backend.Db.Types.{Text, OrderStatus, status_is, is_active}
use campusgig_backend.Db.Rows.{User, Gig, Order, Db}
use campusgig_backend.Db.Table.{find, gig_keyed, user_keyed, order_keyed, cancellation_keyed}
use campusgig_backend.Db.Tx.{Tx, Env, ok, Result-cases, update_balances}
use campusgig_backend.Wallet.Escrow.{move_to_escrow}
use campusgig_backend.Orders.Place.{place_order_tx}
use campusgig_backend.Orders.Decide.{accept_order_tx}
use campusgig_backend.Orders.Extend.{has_pending_extension, request_extension_tx}

-- The transaction returns on these tables.
abbrev pub Returns : {A : Type 0} → Tx A → Db → Type 0
Returns {A} m d = (a : A) × (d' : Db) × (m d ≡ ok (a, d'))

-- A wallet that covers the price is not negative after paying it.
covers : (w : ℤ) (p : ℕ) → ltb_ℤ w (pos p) ≡ false → ltb_ℤ (w +ℤ (pos 0 -ℤ pos p)) (pos 0) ≡ false
covers w p h =
    let enough : pos p ≤ℤ w = ground (arith, h) in
    let rest : pos 0 ≤ℤ (w +ℤ (pos 0 -ℤ pos p)) = omega (int_laws, enough) in ground (arith, rest)

-- An order is placed exactly for an active gig of somebody else that the buyer's wallet covers.
pub place_order-Returns :
    (env : Env) (buyer gig : ℕ) (d : Db)
    → Returns (place_order_tx env buyer gig) d ↔ (
        (g : Gig) × (b : User) × (find gig d.gigs ≡ some g)
        × (is_active g.status ≡ true)
        × ((g.seller_id == buyer) ≡ false)
        × (find buyer d.users ≡ some b)
        × (ltb_ℤ b.wallet_balance (pos g.price_vnd) ≡ false))
unfolding place_order_tx move_to_escrow update_balances
place_order-Returns env buyer gig d = (
  λ (r, d', h). elim (Option-cases (find gig d.gigs)) [
    | inl e ↦ absurd (ground (arith, e, h))
    | inr (g, e) ↦ elim (Option-cases (find buyer d.users)) [
      | inl f ↦ absurd (ground (arith, e, f, h))
      | inr (b, f) ↦
          (g, b, e, ground (arith, e, f, h), ground (arith, e, f, h), f, ground (arith, e, f, h))
    ]
  ],
  λ (g, b, e, active, other, f, covered).
      let solvent = covers b.wallet_balance g.price_vnd covered in
      elim (Result-cases (place_order_tx env buyer gig d)) [
        | inl (x, q) ↦ absurd (ground (arith, e, active, other, f, covered, solvent, q))
        | inr (r, d', q) ↦ (r, d', q)
      ],
)

-- An order is accepted exactly by its seller while it is under review.
pub accept_order-Returns :
    (env : Env) (i v : ℕ) (d : Db)
    → Returns (accept_order_tx env i v) d ↔ (
        (o : Order) × (find i d.orders ≡ some o)
        × (o.seller_id ≡ v)
        × (status_is o.status OrderStatus.pending_review ≡ true))
unfolding accept_order_tx
accept_order-Returns env i v d = (
  λ (r, d', h). elim (Option-cases (find i d.orders)) [
    | inl e ↦ absurd (ground (arith, e, h))
    | inr (o, e) ↦ (o, e, ground (arith, e, h), ground (arith, e, h))
  ],
  λ (o, e, seller, review). elim (Result-cases (accept_order_tx env i v d)) [
    | inl (x, q) ↦ absurd (ground (arith, e, seller, review, q))
    | inr (r, d', q) ↦ (r, d', q)
  ],
)

-- An extension is requested exactly by the seller, of an order in progress or delivered, while no
-- other extension of the order is pending.
pub request_extension-Returns :
    (env : Env) (i v hours : ℕ) (reason : Option Text) (d : Db)
    → Returns (request_extension_tx env i v hours reason) d ↔ (
        (o : Order) × (find i d.orders ≡ some o)
        × (o.seller_id ≡ v)
        × ((status_is o.status OrderStatus.in_progress || status_is o.status OrderStatus.delivered)
            ≡ true)
        × (has_pending_extension i d.extensions ≡ false))
unfolding request_extension_tx
request_extension-Returns env i v hours reason d = (
  λ (r, d', h). elim (Option-cases (find i d.orders)) [
    | inl e ↦ absurd (ground (arith, e, h))
    | inr (o, e) ↦ (o, e, ground (arith, e, h), ground (arith, e, h), ground (arith, e, h))
  ],
  λ (o, e, seller, open', free). elim (Result-cases (request_extension_tx env i v hours reason d)) [
    | inl (x, q) ↦ absurd (ground (arith, e, seller, open', free, q))
    | inr (r, d', q) ↦ (r, d', q)
  ],
)
