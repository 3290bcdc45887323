-- ===== src/Disputes/Resolve.antt =====
-- `resolve` of src/modules/disputes/infrastructure/persistence/prisma-disputes.repository.ts: the
-- admin's verdict, the money that it moves and the order that it closes.
use campusgig_backend.Prelude.{ℕ, ℤ, Option, none, some, not, text}
use campusgig_backend.Db.Types.{
  Text, OrderEventType, SystemEventType, DisputeStatus, DisputeVerdict, refund_buyer,
  complete_for_seller, split_funds, dispute_is,
}
use campusgig_backend.Db.Rows.{Order, Dispute, Message}
use campusgig_backend.Db.Table.{put, order_keyed, dispute_keyed}
use campusgig_backend.Db.Tx.{
  Tx, Env, Result, ok, err, ◌>>=◌, ◌>>◌, return, throw, or_throw, throw_if, modify, find_order,
  save_order, create_event, count_completed, order_not_found, dispute_not_found,
  dispute_not_reviewable,
}
use campusgig_backend.Db.World.{Action, commit, emit}
use campusgig_backend.Messaging.{announce}
use campusgig_backend.Wallet.Escrow.{
  DisputePayoutShares, refund_from_escrow, release_from_escrow, split_from_escrow,
}
use campusgig_backend.Orders.Windows.{platform_fee_collector_user_id}
use campusgig_backend.Orders.Decide.{cancelled_order}
use campusgig_backend.Orders.Deliver.{completed_order}
use campusgig_backend.Disputes.Payout.{compute_dispute_payout}
use campusgig_backend.Disputes.File.{find_dispute}

pub record ResolveDisputeInput : Type 0 where
  pub verdict : DisputeVerdict
  pub buyer_refund_percent : Option ℤ
  pub admin_notes : Option Text

abbrev pub of_result : {A : Type 0} → Result A → Tx A
of_result (ok a) = return a
of_result (err e) = throw e

-- The escrow move of each verdict.
unfoldable pub pay_verdict : Env → DisputeVerdict → DisputePayoutShares → Order → Tx (Unit {0})
pay_verdict env refund_buyer shares order =
    refund_from_escrow (env.uuid 2) order.buyer_id order.gig_price_vnd_snapshot order.id
    >> return tt
pay_verdict env complete_for_seller shares order =
    release_from_escrow env.uuid order.buyer_id order.seller_id platform_fee_collector_user_id
      order.gig_price_vnd_snapshot 20 order.id
    >> return tt
pay_verdict env split_funds shares order =
    split_from_escrow env.uuid order.buyer_id order.seller_id platform_fee_collector_user_id shares
      order.id
    >> return tt

-- The terminal row of the order.
abbrev pub closed_order : Env → ℕ → DisputeVerdict → Order → Order
closed_order env admin_id refund_buyer order =
    cancelled_order env (some admin_id) (text "Dispute resolved — full refund") order
closed_order env admin_id complete_for_seller order = completed_order env order
closed_order env admin_id split_funds order = completed_order env order

-- A completion, by either other verdict, is counted on the gig.
abbrev pub count_if_completed : DisputeVerdict → Order → Tx (Unit {0})
count_if_completed refund_buyer order = return tt
count_if_completed complete_for_seller order = count_completed order.gig_id
count_if_completed split_funds order = count_completed order.gig_id

abbrev pub kept_percent : DisputeVerdict → Option ℤ → Option ℤ
kept_percent refund_buyer pct = none
kept_percent complete_for_seller pct = none
kept_percent split_funds pct = pct

unfoldable pub resolve_tx : Env → ℕ → ℕ → ResolveDisputeInput → Tx (Dispute × Message)
unfolding announce find_dispute compute_dispute_payout pay_verdict
resolve_tx env order_id admin_id input = do
  dispute ← λ d. or_throw (find_dispute order_id d.disputes) (dispute_not_found order_id) d
  throw_if (not (dispute_is dispute.status DisputeStatus.ready_for_review))
      (dispute_not_reviewable dispute.status)
  order ← find_order order_id (order_not_found order_id)
  payout ←
      of_result (
        compute_dispute_payout order.gig_price_vnd_snapshot input.verdict
          input.buyer_refund_percent)
  pay_verdict env input.verdict payout order
  save_order (closed_order env admin_id input.verdict order)
  count_if_completed input.verdict order
  let dispute' : Dispute = record dispute {
    status = DisputeStatus.resolved;
    verdict = some input.verdict;
    buyer_refund_percent = kept_percent input.verdict input.buyer_refund_percent;
    admin_notes = input.admin_notes;
    resolved_by_user_id = some admin_id;
    resolved_at = some env.now;
  }
  modify (λ d. record d { disputes = put dispute' d.disputes })
  create_event order_id OrderEventType.dispute_resolved (some admin_id)
  message ←
      announce (env.uuid 1) order.buyer_id order.seller_id order_id SystemEventType.dispute_resolved
        env.now
  return (dispute', message)

unfoldable pub resolve : Env → ℕ → ℕ → ResolveDisputeInput → Action (Dispute × Message)
unfolding resolve_tx
resolve env order_id admin_id input =
    commit (resolve_tx env order_id admin_id input) λ (dispute, message) w. emit message w
