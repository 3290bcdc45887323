-- ===== src/Ledger/Step.antt =====
-- The steps of the abstract ledger, and what they preserve.
use campusgig_backend.Prelude.{
  ℕ, ℤ, pos, ◌+ℤ◌, ◌-ℤ◌, ◌≤ℤ◌, ◌==◌, ◌≡◌, ◌∙◌, true, false, none, List, ◌∷◌, ◌⊎◌, inl, inr,
  int_laws, Bool-cases,
}
use campusgig_backend.Db.Rows.{User, Order}
use campusgig_backend.Db.Table.{find, order_keyed}
use campusgig_backend.Db.Tx.{Delta}
use campusgig_backend.Ledger.Balances.{escrow_of, Adjust, escrow_of-Adjust}
use campusgig_backend.Ledger.Held.{is_open, held, Changes}

abbrev pub platform : ℕ
platform = 1

-- A share is paid out, or it is zero and nothing is written.
abbrev pub Pays : ℕ → ℤ → List User → List User → Type 0
Pays i x us us' =
    ((x ≡ pos 0) × (us' ≡ us))
    ⊎ Adjust i (record { wallet = x; escrow = pos 0; held = pos 0 }) us us'

-- The price of a closed order, divided among buyer, seller and platform.
pub record Settlement (o : Order) (us us' : List User) : Type 0 where
  pub refund : ℤ
  pub earning : ℤ
  pub fee : ℤ
  pub exact : refund +ℤ earning +ℤ fee ≡ pos o.gig_price_vnd_snapshot
  pub none_negative : (pos 0 ≤ℤ refund) × (pos 0 ≤ℤ earning) × (pos 0 ≤ℤ fee)
  pub after_buyer : List User
  pub after_seller : List User
  pub buyer_pays :
      Adjust o.buyer_id
        (record { wallet = refund; escrow = pos 0 -ℤ pos o.gig_price_vnd_snapshot; held = pos 0 })
        us
        after_buyer
  pub seller_paid : Pays o.seller_id earning after_buyer after_seller
  pub platform_paid : Pays platform fee after_seller us'

pub data LedgerStep (us : List User) (os : List Order) (us' : List User) (os' : List Order)
    : Type 0 where
  -- Neither users nor orders are written.
  idle : us' ≡ us → os' ≡ os → LedgerStep us os us' os'
  -- An open order moves on and stays open; no money moves.
  progress :
      (old new : Order)
      → Changes os os' old new
      → is_open old.status ≡ true
      → is_open new.status ≡ true
      → us' ≡ us
      → LedgerStep us os us' os'
  -- A new open order, paid into escrow by its buyer.
  hold :
      (o : Order)
      → find o.id os ≡ none
      → is_open o.status ≡ true
      → os' ≡ o ∷ os
      → Adjust o.buyer_id
          (record {
            wallet = pos 0 -ℤ pos o.gig_price_vnd_snapshot;
            escrow = pos o.gig_price_vnd_snapshot;
            held = pos 0;
          })
          us
          us'
      → LedgerStep us os us' os'
  -- An open order is closed, and its price leaves escrow in full.
  settle :
      (old new : Order)
      → Changes os os' old new
      → is_open old.status ≡ true
      → is_open new.status ≡ false
      → Settlement old us us'
      → LedgerStep us os us' os'

-- Every user's escrow balance is the price of the user's open orders.
abbrev pub EscrowBacked : List User → List Order → Type 0
EscrowBacked us os = (u : ℕ) → escrow_of u us ≡ pos (held u os)

pub escrow_of-Pays :
    (j i : ℕ) (x : ℤ) (us us' : List User) → Pays i x us us' → escrow_of j us' ≡ escrow_of j us
escrow_of-Pays j i x us us' (inl (_, e)) = rw e
escrow_of-Pays j i x us us' (inr a) =
    let c : Delta = record { wallet = x; escrow = pos 0; held = pos 0 } in
    let law = escrow_of-Adjust j i c us us' a in
    elim (Bool-cases (i == j)) [
      | inl hit ↦ rw hit at law ∙ omega int_laws
      | inr miss ↦ rw miss at law
    ]
