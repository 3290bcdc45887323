-- ===== src/Ledger/Held.antt =====
-- The price that escrow holds for a buyer: the sum over the buyer's orders that are not closed.
use campusgig_backend.Prelude.{
  ℕ, ◌+◌, ◌==◌, ◌&&◌, if◌then◌else◌, ◌≡◌, Bool, true, false, List, [], ◌∷◌, some, refl, arith, inl,
  inr, Bool-cases,
}
use campusgig_backend.Db.Types.{OrderStatus}
use campusgig_backend.Db.Rows.{Order}
use campusgig_backend.Db.Table.{find, put, find_key, order_keyed}

-- An order is open until it is completed or cancelled.
abbrev pub is_open : OrderStatus → Bool
is_open OrderStatus.completed = false
is_open OrderStatus.cancelled = false
is_open _ = true

unfoldable pub held_by : ℕ → Order → ℕ
held_by u o = if o.buyer_id == u && is_open o.status then o.gig_price_vnd_snapshot else 0

unfoldable pub held : ℕ → List Order → ℕ
held u [] = 0
held u (o ∷ os) = held_by u o + held u os

pub held-put :
    (u : ℕ) (os : List Order) (o old : Order)
    → find o.id os ≡ some old
    → held u (put o os) + held_by u old ≡ held u os + held_by u o
unfolding held find put
held-put u [] o old h = cc
held-put u (x ∷ os) o old h = elim (Bool-cases (x.id == o.id)) [
  | inl hit ↦ let same : x ≡ old = ground (arith, hit, h) in rw (hit, ← same) (omega arith)
  | inr miss ↦
      let rest : find o.id os ≡ some old = ground (arith, miss, h) in
      rw miss (omega (arith, held-put u os o old rest))
]

-- An order `old` in the table becomes `new`; who buys, who sells and the price stay.
pub record Changes (os os' : List Order) (old new : Order) : Type 0 where
  pub found : find new.id os ≡ some old
  pub same_buyer : new.buyer_id ≡ old.buyer_id
  pub same_seller : new.seller_id ≡ old.seller_id
  pub same_price : new.gig_price_vnd_snapshot ≡ old.gig_price_vnd_snapshot
  pub written : os' ≡ put new os

-- A change that leaves an order open, or closed, holds the same for every buyer.
pub held-Changes_same :
    (u : ℕ) (os os' : List Order) (old new : Order)
    → Changes os os' old new
    → is_open new.status ≡ is_open old.status
    → held u os' ≡ held u os
unfolding held_by
held-Changes_same u os os' old new c e =
    let law = held-put u os new old c.found in
    rw c.written (ground (arith, law, c.same_buyer, c.same_price, e))

-- Closing an open order releases its price, and nobody else's.
pub held-Changes_close :
    (u : ℕ) (os os' : List Order) (old new : Order)
    → Changes os os' old new
    → is_open old.status ≡ true
    → is_open new.status ≡ false
    → held u os' + (if old.buyer_id == u then old.gig_price_vnd_snapshot else 0) ≡ held u os
unfolding held_by
held-Changes_close u os os' old new c e f =
    let law = held-put u os new old c.found in
    rw c.written (ground (arith, law, c.same_buyer, c.same_price, e, f))

pub held-cons_open :
    (u : ℕ) (o : Order) (os : List Order)
    → is_open o.status ≡ true
    → held u (o ∷ os) ≡ (if o.buyer_id == u then o.gig_price_vnd_snapshot else 0) + held u os
unfolding held held_by
held-cons_open u o os e = ground arith

-- A row that was found by `i` and is written back with its id, parties and price.
pub put-Changes :
    (i : ℕ) (os : List Order) (old new : Order)
    → find i os ≡ some old
    → new.id ≡ old.id
    → new.buyer_id ≡ old.buyer_id
    → new.seller_id ≡ old.seller_id
    → new.gig_price_vnd_snapshot ≡ old.gig_price_vnd_snapshot
    → Changes os (put new os) old new
put-Changes i os old new e id b s p =
    let k = find_key i os old e in
    record {
      found = simp (id, k) e;
      same_buyer = b;
      same_seller = s;
      same_price = p;
      written = refl;
    }
