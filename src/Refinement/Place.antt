-- ===== src/Refinement/Place.antt =====
-- Placing an order.
use campusgig_backend.Prelude.{
  ℕ, pos, ◌-ℤ◌, ◌≡◌, refl, inl, inr, some, Option-cases, arith, none, ◌∷◌,
}
use campusgig_backend.Db.Rows.{Order, Gig, Db, Message}
use campusgig_backend.Db.Table.{find, gig_keyed, user_keyed, order_keyed}
use campusgig_backend.Db.Tx.{ok, Env, Delta, update_balances, Result-cases}
use campusgig_backend.Ledger.Balances.{Adjust}
use campusgig_backend.Ledger.Step.{hold}
use campusgig_backend.Orders.Place.{place_order_tx, new_order}
use campusgig_backend.Refinement.Escrow.{Steps, update_balances-Adjust}

abbrev pub payment_delta : Gig → Delta
payment_delta g = record {
  wallet = pos 0 -ℤ pos g.price_vnd;
  escrow = pos g.price_vnd;
  held = pos 0;
}

-- Placing an order inserts it, with the gig's terms, and moves the gig's price from the buyer's
-- wallet into escrow.
pub place_order_lem :
    (env : Env) (buyer gig : ℕ) (d d' : Db) (r : Order × Message)
    → place_order_tx env buyer gig d ≡ ok (r, d')
    → (g : Gig) × (find gig d.gigs ≡ some g)
      × (d'.orders ≡ new_order env buyer g ∷ d.orders)
      × Adjust buyer (payment_delta g) d.users d'.users
unfolding place_order_tx
place_order_lem env buyer gig d d' r h = elim (Option-cases (find gig d.gigs)) [
  | inl e ↦ absurd (ground (arith, e, h))
  | inr (g, e) ↦ elim (Option-cases (find buyer d.users)) [
    | inl f ↦ absurd (ground (arith, e, f, h))
    | inr (b, f) ↦
        let d0 : Db = record d { orders = new_order env buyer g ∷ d.orders } in
        elim (Result-cases (update_balances buyer (payment_delta g) d0)) [
          | inl (x, q) ↦ absurd (ground (arith, e, f, q, h))
          | inr (u, d1, q) ↦
              let a = update_balances-Adjust _ _ d0 d1 u q in
              let paid : d'.users ≡ d1.users = ground (arith, e, f, q, h) in
              (g, e, ground (arith, e, f, q, h, a.1), rw paid a.0)
        ]
  ]
]

-- Under an id that no order has, that is a step of the ledger.
pub place_order-Steps :
    (env : Env) (buyer gig : ℕ) (d d' : Db) (r : Order × Message)
    → find (env.uuid 0) d.orders ≡ none
    → place_order_tx env buyer gig d ≡ ok (r, d')
    → Steps d d'
place_order-Steps env buyer gig d d' r fresh h =
    let (g, _, written, a) = place_order_lem env buyer gig d d' r h in
    hold (new_order env buyer g) fresh refl written a
