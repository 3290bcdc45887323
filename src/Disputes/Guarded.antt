-- ===== src/Disputes/Guarded.antt =====
-- Who may file a dispute, that an order has one at most, and which evidence it claims.
use campusgig_backend.Prelude.{
  ℕ, ◌==◌, ◌&&◌, ◌≡◌, ◌↔◌, ◌⊎◌, none, some, List, arith, inl, inr, Bool-cases, Option-cases,
  includes, true, false,
}
use campusgig_backend.Db.Types.{Party, party_is}
use campusgig_backend.Db.Rows.{Order, DisputeEvidence, Db}
use campusgig_backend.Db.Table.{find, order_keyed}
use campusgig_backend.Db.Tx.{Env, Result-cases}
use campusgig_backend.Orders.Returns.{Returns}
use campusgig_backend.Disputes.File.{
  file_dispute_tx, DisputeInput, is_stranger, is_disputable, find_dispute, claim_row,
}

-- A dispute is filed exactly by a party of the order, while the order is in progress, late,
-- delivered or awaiting its finalization, and has no dispute yet.
pub file_dispute-Returns :
    (env : Env) (input : DisputeInput) (d : Db)
    → Returns (file_dispute_tx env input) d ↔ (
        (o : Order) × (find input.order_id d.orders ≡ some o)
        × (is_stranger input.viewer_id o ≡ false)
        × (is_disputable o.status ≡ true)
        × (find_dispute input.order_id d.disputes ≡ none))
unfolding file_dispute_tx
file_dispute-Returns env input d = (
  λ (r, d', h). elim (Option-cases (find input.order_id d.orders)) [
    | inl e ↦ absurd (ground (arith, e, h))
    | inr (o, e) ↦ (o, e, ground (arith, e, h), ground (arith, e, h), ground (arith, e, h))
  ],
  λ (o, e, party, state, free). elim (Result-cases (file_dispute_tx env input d)) [
    | inl (x, q) ↦ absurd (ground (arith, e, party, state, free, q))
    | inr (r, d', q) ↦ (r, d', q)
  ],
)

-- Claiming evidence writes a row only if it was unclaimed, belongs to the order, and was uploaded by
-- the caller for the caller's side.
pub claim_row-scoped :
    (i v : ℕ) (side : Party) (ids : List ℕ) (dispute : ℕ) (e : DisputeEvidence)
    → (claim_row i v side ids dispute e ≡ e)
      ⊎ ((e.dispute_id ≡ none)
          × (e.order_id ≡ i)
          × (e.uploaded_by_user_id ≡ v)
          × (party_is e.side side ≡ true)
          × ((claim_row i v side ids dispute e).dispute_id ≡ some dispute))
unfolding claim_row
claim_row-scoped i v side ids dispute e = elim (Option-cases e.dispute_id) [
  | inr (x, f) ↦ inl (ground (arith, f))
  | inl f ↦
      elim (Bool-cases (
        includes ids e.id
        && e.order_id == i
        && e.uploaded_by_user_id == v
        && party_is e.side side)) [
          | inr miss ↦ inl (ground (arith, f, miss))
          | inl hit ↦ inr (
            f,
            ground (arith, hit),
            ground (arith, hit),
            ground (arith, hit),
            ground (arith, f, hit),
          )
        ]
]
