-- ===== src/Ledger/Preserve.antt =====
-- What every step of the ledger preserves: escrow stays backed by open orders, and no money is made
-- or lost.
use campusgig_backend.Prelude.{
  ℕ, ℤ, pos, ◌+ℤ◌, ◌-ℤ◌, ◌==◌, if◌then◌else◌, ◌≡◌, ◌∙◌, sym, List, inl, inr, arith, true, false,
  some, none, ◌∷◌, int_laws, parts_of_eq, Bool-cases, ap,
}
use campusgig_backend.Db.Rows.{User, Order}
use campusgig_backend.Db.Table.{find, find-put, order_keyed}
use campusgig_backend.Db.Tx.{Delta}
use campusgig_backend.Ledger.Balances.{escrow_of, total_money, escrow_of-Adjust, total_money-Adjust}
use campusgig_backend.Ledger.Held.{
  Changes, is_open, held-cons_open, held-Changes_same, held-Changes_close,
}
use campusgig_backend.Ledger.Step.{
  Pays, platform, Settlement, LedgerStep, idle, progress, hold, settle, EscrowBacked,
  escrow_of-Pays,
}

-- Settling an order takes its price out of its buyer's escrow and out of nobody else's.
pub escrow_of-Settlement :
    (u : ℕ) (o : Order) (us us' : List User)
    → Settlement o us us'
    → escrow_of u us'
      ≡ (if o.buyer_id == u then escrow_of u us -ℤ pos o.gig_price_vnd_snapshot else escrow_of u us)
escrow_of-Settlement u o us us' s =
    let c : Delta = record {
      wallet = s.refund;
      escrow = pos 0 -ℤ pos o.gig_price_vnd_snapshot;
      held = pos 0;
    } in
    let first = escrow_of-Adjust u o.buyer_id c us s.after_buyer s.buyer_pays in
    let second =
      escrow_of-Pays u o.seller_id s.earning s.after_buyer s.after_seller s.seller_paid in
    let third = escrow_of-Pays u platform s.fee s.after_seller us' s.platform_paid in
    elim (Bool-cases (o.buyer_id == u)) [
      | inl hit ↦ rw hit (third ∙ second ∙ (rw hit at first) ∙ omega int_laws)
      | inr miss ↦ rw miss (third ∙ second ∙ (rw miss at first))
    ]

-- A step of the ledger keeps escrow backed: after it too each user's escrow balance is the sum of
-- the prices of the user's open orders.
pub LedgerStep-EscrowBacked :
    (us us' : List User) (os os' : List Order)
    → LedgerStep us os us' os'
    → EscrowBacked us os
    → EscrowBacked us' os'
LedgerStep-EscrowBacked us us' os os' (idle e f) b u = rw (e, f) (b u)
LedgerStep-EscrowBacked us us' os os' (progress old new c was_open open' e) b u =
    rw e (b u ∙ ap pos (sym (held-Changes_same u os os' old new c (open' ∙ sym was_open))))
LedgerStep-EscrowBacked us us' os os' (hold o fresh was_open e a) b u =
    let law = escrow_of-Adjust u o.buyer_id _ us us' a in
    let sum = held-cons_open u o os was_open in
    elim (Bool-cases (o.buyer_id == u)) [
      | inl hit ↦
          let now = rw hit at law in
          let more = rw hit at sum in now ∙ rw (e, more, b u) (omega int_laws)
      | inr miss ↦
          let now = rw miss at law in
          let more = rw miss at sum in now ∙ rw (e, more, b u) (omega int_laws)
    ]
LedgerStep-EscrowBacked us us' os os' (settle old new c was_open closed s) b u =
    let law = escrow_of-Settlement u old us us' s in
    let sum = held-Changes_close u os os' old new c was_open closed in
    elim (Bool-cases (old.buyer_id == u)) [
      | inl hit ↦
          let now = rw hit at law in
          let less = rw hit at sum in now ∙ rw (b u, ← less) (omega int_laws)
      | inr miss ↦
          let now = rw miss at law in
          let less = rw miss at sum in now ∙ rw (b u, ← less) (omega int_laws)
    ]

total_money-Pays :
    (i : ℕ) (x : ℤ) (us us' : List User) → Pays i x us us' → total_money us' ≡ total_money us +ℤ x
total_money-Pays i x us us' (inl (e, f)) = rw (e, f) (omega int_laws)
total_money-Pays i x us us' (inr a) = total_money-Adjust i _ us us' a ∙ omega int_laws

total_money-Settlement :
    (o : Order) (us us' : List User) → Settlement o us us' → total_money us' ≡ total_money us
total_money-Settlement o us us' s =
    let first = total_money-Adjust o.buyer_id _ us s.after_buyer s.buyer_pays in
    let second =
      total_money-Pays o.seller_id s.earning s.after_buyer s.after_seller s.seller_paid in
    let third = total_money-Pays platform s.fee s.after_seller us' s.platform_paid in
    omega (
      int_laws,
      parts_of_eq _ _ first,
      parts_of_eq _ _ second,
      parts_of_eq _ _ third,
      parts_of_eq _ _ s.exact,
    )

-- A step of the ledger neither makes nor loses money: the sum of all users' balances stays.
pub LedgerStep-total_money :
    (us us' : List User) (os os' : List Order)
    → LedgerStep us os us' os'
    → total_money us' ≡ total_money us
LedgerStep-total_money us us' os os' (idle e f) = rw e
LedgerStep-total_money us us' os os' (progress old new c was_open open' e) = rw e
LedgerStep-total_money us us' os os' (hold o fresh was_open e a) =
    total_money-Adjust o.buyer_id _ us us' a ∙ omega int_laws
LedgerStep-total_money us us' os os' (settle old new c was_open closed s) =
    total_money-Settlement old us us' s

find-fresh :
    (i : ℕ) (new : Order) (os : List Order) (o : Order)
    → find new.id os ≡ none
    → find i os ≡ some o
    → find i (new ∷ os) ≡ some o
unfolding find
find-fresh i new os o fresh h = elim (Bool-cases (new.id == i)) [
  | inl hit ↦
      let same : new.id ≡ i = ground (arith, hit) in
      absurd (ground (arith, sym (simp same at fresh) ∙ h))
  | inr miss ↦ rw miss h
]

-- A change of an open order leaves a closed one where it is.
find-Changes_other :
    (i : ℕ) (os os' : List Order) (old new o : Order)
    → Changes os os' old new
    → is_open old.status ≡ true
    → find i os ≡ some o
    → is_open o.status ≡ false
    → find i os' ≡ some o
find-Changes_other i os os' old new o c was_open h closed =
    rw (c.written, find-put i new os old c.found)
      (elim (Bool-cases (new.id == i)) [
        | inl hit ↦
            let same : new.id ≡ i = ground (arith, hit) in
            let found : find i os ≡ some old = simp same at c.found in
            absurd (ground (arith, found, h, was_open, closed))
        | inr miss ↦ rw miss h
      ])

-- A closed order is final: no step of the ledger changes or removes it.
pub LedgerStep-closed_final :
    (us us' : List User) (os os' : List Order) (i : ℕ) (o : Order)
    → LedgerStep us os us' os'
    → find i os ≡ some o
    → is_open o.status ≡ false
    → find i os' ≡ some o
LedgerStep-closed_final us us' os os' i o (idle e f) h closed = rw f h
LedgerStep-closed_final us us' os os' i o (progress old new c was_open open' e) h closed =
    find-Changes_other i os os' old new o c was_open h closed
LedgerStep-closed_final us us' os os' i o (hold new fresh open' e a) h closed =
    rw e (find-fresh i new os o fresh h)
LedgerStep-closed_final us us' os os' i o (settle old new c was_open closed' s) h closed =
    find-Changes_other i os os' old new o c was_open h closed
