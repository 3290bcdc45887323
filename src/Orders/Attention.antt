-- ===== src/Orders/Attention.antt =====
-- `computeActionRequired` and `countActionRequired` of
-- src/modules/orders/infrastructure/persistence/prisma-orders.repository.ts: which orders wait for
-- the viewer, as a mark on each order and as two counts.
use campusgig_backend.Prelude.{
  ℕ, ◌+◌, ◌==◌, ◌&&◌, not, if◌then◌else◌, ◌≡◌, Option, none, some, Bool, true, false, List, [], ◌∷◌,
  arith, refl,
}
use campusgig_backend.Db.Types.{
  OrderStatus, pending_review, in_progress, late, delivered, awaiting_finalization, frozen,
  status_is, Party, party_is, DisputeStatus, dispute_is,
}

-- What the two read of an order: its parties and status, whether an extension is pending, who
-- initiated a pending cancellation, and its dispute's filer and status.
pub record ActionRow : Type 0 where
  pub buyer_id : ℕ
  pub seller_id : ℕ
  pub status : OrderStatus
  pub pending_extension : Bool
  pub pending_cancellation : Option Party
  pub dispute : Option (ℕ × DisputeStatus)

-- `owesDisputeResponse`: the order is frozen, and the other party's dispute awaits an answer.
unfoldable pub owes_response : ℕ → ActionRow → Bool
owes_response viewer_id r = elim r.dispute [
  | none ↦ false
  | some (filer, status) ↦
      status_is r.status OrderStatus.frozen
      && dispute_is status DisputeStatus.awaiting_response
      && not (filer == viewer_id)
]

abbrev pub cancellation_by : Party → Option Party → Bool
cancellation_by p none = false
cancellation_by p (some q) = party_is p q

unfoldable pub compute_action_required : Party → ℕ → ActionRow → Bool
unfolding owes_response
compute_action_required side viewer_id r =
    if status_is r.status OrderStatus.pending_review && party_is side Party.seller
    then true
    else if status_is r.status OrderStatus.delivered && party_is side Party.buyer
    then true
    else if status_is r.status OrderStatus.awaiting_finalization && party_is side Party.buyer
    then true
    else if status_is r.status OrderStatus.late && party_is side Party.buyer
    then true
    else if r.pending_extension && party_is side Party.buyer
    then true
    else if cancellation_by Party.buyer r.pending_cancellation && party_is side Party.seller
    then true
    else if cancellation_by Party.seller r.pending_cancellation && party_is side Party.buyer
    then true
    else owes_response viewer_id r

-- The `where` of the two queries, beside the viewer's own id.
unfoldable pub buyer_candidate : OrderStatus → Bool
buyer_candidate delivered = true
buyer_candidate in_progress = true
buyer_candidate late = true
buyer_candidate awaiting_finalization = true
buyer_candidate frozen = true
buyer_candidate _ = false

unfoldable pub seller_candidate : OrderStatus → Bool
seller_candidate pending_review = true
seller_candidate in_progress = true
seller_candidate late = true
seller_candidate delivered = true
seller_candidate frozen = true
seller_candidate _ = false

-- The filters on the rows that the queries return.
unfoldable pub waits_for_buyer : ℕ → ActionRow → Bool
unfolding owes_response
waits_for_buyer viewer_id r =
    if status_is r.status OrderStatus.delivered
    then true
    else if status_is r.status OrderStatus.awaiting_finalization
    then true
    else if status_is r.status OrderStatus.late
    then true
    else if r.pending_extension
    then true
    else if cancellation_by Party.seller r.pending_cancellation
    then true
    else owes_response viewer_id r

unfoldable pub waits_for_seller : ℕ → ActionRow → Bool
unfolding owes_response
waits_for_seller viewer_id r =
    if status_is r.status OrderStatus.pending_review
    then true
    else if cancellation_by Party.buyer r.pending_cancellation
    then true
    else owes_response viewer_id r

pub record ActionCounts : Type 0 where
  pub as_buyer : ℕ
  pub as_seller : ℕ

abbrev pub one_if : Bool → ℕ
one_if b = if b then 1 else 0

unfoldable pub count_action_required : ℕ → List ActionRow → ActionCounts
unfolding waits_for_buyer waits_for_seller buyer_candidate seller_candidate
count_action_required viewer_id [] = record { as_buyer = 0; as_seller = 0 }
count_action_required viewer_id (r ∷ rs) =
    let rest = count_action_required viewer_id rs in
    record {
      as_buyer =
          one_if
            (r.buyer_id == viewer_id && buyer_candidate r.status && waits_for_buyer viewer_id r)
          + rest.as_buyer;
      as_seller =
          one_if
            (r.seller_id == viewer_id && seller_candidate r.status && waits_for_seller viewer_id r)
          + rest.as_seller;
    }

-- On any row the filters are the marks: the counts differ from the marks only by the statuses that
-- the queries ask for.
waits_for_buyer_lem :
    (v : ℕ) (r : ActionRow) → waits_for_buyer v r ≡ compute_action_required Party.buyer v r
unfolding waits_for_buyer compute_action_required owes_response
waits_for_buyer_lem v r = ground arith

waits_for_seller_lem :
    (v : ℕ) (r : ActionRow) → waits_for_seller v r ≡ compute_action_required Party.seller v r
unfolding waits_for_seller compute_action_required owes_response
waits_for_seller_lem v r = ground arith

-- The number of marked orders with a status of the query's, for either side.
pub marked : (OrderStatus → Bool) → Party → ℕ → (ActionRow → ℕ) → List ActionRow → ℕ
marked candidate side v party [] = 0
marked candidate side v party (r ∷ rs) =
    one_if (party r == v && candidate r.status && compute_action_required side v r)
    + marked candidate side v party rs

-- The counts are exactly the numbers of the viewer's orders that are marked and have one of the
-- statuses queried: for the buyer not one under review, completed or cancelled, and for the seller
-- not one awaiting finalization, completed or cancelled.
pub count_action_required_lem :
    (v : ℕ) (rs : List ActionRow)
    → ((count_action_required v rs).as_buyer
        ≡ marked buyer_candidate Party.buyer v (λ r. r.buyer_id) rs)
      × ((count_action_required v rs).as_seller
          ≡ marked seller_candidate Party.seller v (λ r. r.seller_id) rs)
unfolding count_action_required marked
count_action_required_lem v [] = (refl, refl)
count_action_required_lem v (r ∷ rs) =
    let (b, s) = count_action_required_lem v rs in
    (rw (waits_for_buyer_lem v r, b), rw (waits_for_seller_lem v r, s))
