-- ===== src/Tests/Settled.antt =====
-- Operations on the test tables that move an order's price.
use campusgig_backend.Prelude.{pos, ◌+ℤ◌, ◌-ℤ◌, refl, arith, none, some, [], ◌∷◌, text}
use campusgig_backend.Db.Types.{OrderStatus, CancellationReasonCode, split_funds}
use campusgig_backend.Db.Rows.{Db}
use campusgig_backend.Db.Tx.{update_balances}
use campusgig_backend.Db.Table.{find, put, order_keyed}
use campusgig_backend.Ledger.Balances.{escrow_of}
use campusgig_backend.Ledger.Held.{held, held_by}
use campusgig_backend.Ledger.Preserve.{LedgerStep-EscrowBacked}
use campusgig_backend.Ledger.Step.{EscrowBacked}
use campusgig_backend.Wallet.Escrow.{refund_from_escrow, release_from_escrow, split_from_escrow}
use campusgig_backend.Orders.Place.{place_order_tx}
use campusgig_backend.Orders.Decide.{decline_order_tx}
use campusgig_backend.Orders.Deliver.{accept_delivery_tx}
use campusgig_backend.Orders.Finish.{finalize_order_tx}
use campusgig_backend.Orders.Extend.{accept}
use campusgig_backend.Orders.Cancel.Request.{CancellationInput, request_cancellation_tx}
use campusgig_backend.Orders.Cancel.Decide.{decide_cancellation_tx, apply_decision}
use campusgig_backend.Disputes.Resolve.{ResolveDisputeInput, resolve_tx}
use campusgig_backend.Refinement.Place.{place_order_lem, payment_delta}
use campusgig_backend.Refinement.Finish.{accept_delivery_lem}
use campusgig_backend.Refinement.Cancel.{withdrawn_order}
use campusgig_backend.Refinement.Cancelled.{accept_cancellation_unbacks, accept_cancellation-Steps}
use campusgig_backend.Refinement.Disputes.{resolve_lem, resolve_unbacks}
use campusgig_backend.Prelude.{true, ◌≡◌}
use campusgig_backend.Db.Types.{RequestStatus, Party, SystemEventType}
use campusgig_backend.Db.Rows.{Gig, Order}
use campusgig_backend.Ledger.Balances.{Adjust}
use campusgig_backend.Db.Table.{gig_keyed}
use campusgig_backend.Db.Tx.{ok}
use campusgig_backend.Ledger.Held.{Changes, is_open}
use campusgig_backend.Wallet.Escrow.{DisputePayoutShares}
use campusgig_backend.Orders.Place.{new_order}
use campusgig_backend.Orders.Deliver.{completed_order}
use campusgig_backend.Orders.Cancel.Request.{Requested, new_cancellation}
use campusgig_backend.Disputes.Payout.{compute_dispute_payout, seller_payout}
use campusgig_backend.Disputes.Resolve.{closed_order}
use campusgig_backend.Refinement.Escrow.{Divided}
use campusgig_backend.Tests.Fixtures.{
  test_env, test_db, test_order, test_cancellation, disputed_db, db_of, test_db-EscrowBacked,
}

abbrev quick : Db
quick = record (test_db OrderStatus.pending_review) { cancellations = [] }

abbrev mistake : CancellationInput
mistake = record {
  order_id = 400;
  viewer_id = 10;
  reason_code = CancellationReasonCode.buyer_ordered_by_mistake;
  other_text = none;
}

abbrev thirds : ResolveDisputeInput
thirds = record { verdict = split_funds; buyer_refund_percent = some (pos 33); admin_notes = none }

abbrev placed : Db
placed = db_of (place_order_tx (test_env 500) 10 100) (test_db OrderStatus.late)

place_order_lem_example :
    (g : Gig) × (find 100 (test_db OrderStatus.late).gigs ≡ some g)
    × (placed.orders ≡ new_order (test_env 500) 10 g ∷ (test_db OrderStatus.late).orders)
    × Adjust 10 (payment_delta g) (test_db OrderStatus.late).users placed.users
unfolding place_order_tx find update_balances ◌+ℤ◌ ◌-ℤ◌
place_order_lem_example =
    place_order_lem (test_env 500) 10 100 (test_db OrderStatus.late) placed _ refl

abbrev declined : Db
declined =
    db_of (decline_order_tx (test_env 500) 400 20 (text "Too busy"))
      (test_db OrderStatus.pending_review)

abbrev done_early : Db
done_early = db_of (accept_delivery_tx (test_env 500) 400 10) (test_db OrderStatus.delivered)

accept_delivery_lem_example :
    (o : Order) × (find 400 (test_db OrderStatus.delivered).orders ≡ some o)
    × (is_open o.status ≡ true)
    × Divided o
        (seller_payout o.gig_price_vnd_snapshot)
        (test_db OrderStatus.delivered).users
        done_early.users
    × Changes
        (test_db OrderStatus.delivered).orders
        done_early.orders
        o
        (completed_order (test_env 500) o)
unfolding accept_delivery_tx find release_from_escrow update_balances put
accept_delivery_lem_example =
    accept_delivery_lem (test_env 500) 400 10 (test_db OrderStatus.delivered) done_early _ refl

abbrev done_late : Db
done_late = db_of (finalize_order_tx (test_env 500) 400) (test_db OrderStatus.awaiting_finalization)

abbrev withdrawn : Db
withdrawn = db_of (request_cancellation_tx (test_env 500) mistake) quick

abbrev withdrawal_result : Requested
withdrawal_result = record {
  order = withdrawn_order (test_env 500) mistake (test_order OrderStatus.pending_review);
  cancellation =
      new_cancellation (test_env 500) mistake Party.buyer RequestStatus.accepted 1500 (some 1500)
        (some 10);
  fast_cancel = true;
  message = record {
    thread_id = 501;
    order_id = 400;
    type = SystemEventType.cancellation_accepted;
    created_at = 1500;
  };
}

abbrev resolved : Db
resolved = db_of (resolve_tx (test_env 500) 400 1 thirds) disputed_db

resolve_lem_example :
    (s : DisputePayoutShares) × (compute_dispute_payout 200 split_funds (some (pos 33)) ≡ ok s)
    × Divided (test_order OrderStatus.frozen) s disputed_db.users resolved.users
    × Changes disputed_db.orders resolved.orders
        (test_order OrderStatus.frozen)
        (closed_order (test_env 500) 1 split_funds (test_order OrderStatus.frozen))
unfolding resolve_tx find split_from_escrow update_balances ◌-ℤ◌ put
resolve_lem_example =
    resolve_lem (test_env 500) 400 1 thirds disputed_db resolved _ (test_order OrderStatus.frozen)
      refl refl

-- The order is completed and paid out, so escrow holds nothing for it, and yet the seller's
-- cancellation still waits.
abbrev sold : Db
sold = record (test_db OrderStatus.completed) {
  users =
      record {
        id = 10;
        wallet_balance = pos 900;
        escrow_balance = pos 0;
        pending_withdrawal_balance = pos 0;
        bank_name = none;
        bank_account_number = none;
        bank_account_holder = none;
      }
      ∷ [];
}

sold-EscrowBacked : EscrowBacked sold.users sold.orders
unfolding escrow_of held held_by find
sold-EscrowBacked u = ground arith

accept_cancellation_unbacks_example :
    ¬ EscrowBacked
      (db_of (decide_cancellation_tx (test_env 500) 700 10 accept) sold).users
      (db_of (decide_cancellation_tx (test_env 500) 700 10 accept) sold).orders
unfolding decide_cancellation_tx apply_decision refund_from_escrow update_balances find put
accept_cancellation_unbacks_example =
    accept_cancellation_unbacks (test_env 500) 700 10 sold
      (db_of (decide_cancellation_tx (test_env 500) 700 10 accept) sold) _ test_cancellation
      (test_order OrderStatus.completed) refl refl refl refl (omega arith) sold-EscrowBacked

-- The frozen order is cancelled by the seller's old request while its dispute waits for the admin.
abbrev cancelled_meanwhile : Db
cancelled_meanwhile = db_of (decide_cancellation_tx (test_env 500) 700 10 accept) disputed_db

cancelled_meanwhile-EscrowBacked : EscrowBacked cancelled_meanwhile.users cancelled_meanwhile.orders
unfolding decide_cancellation_tx apply_decision refund_from_escrow update_balances find put
cancelled_meanwhile-EscrowBacked =
    LedgerStep-EscrowBacked disputed_db.users cancelled_meanwhile.users disputed_db.orders
      cancelled_meanwhile.orders
      (accept_cancellation-Steps (test_env 500) 700 10 disputed_db cancelled_meanwhile _
        test_cancellation (test_order OrderStatus.frozen) refl refl refl refl)
      (test_db-EscrowBacked OrderStatus.frozen refl)

resolve_unbacks_example :
    ¬ EscrowBacked
      (db_of (resolve_tx (test_env 600) 400 1 thirds) cancelled_meanwhile).users
      (db_of (resolve_tx (test_env 600) 400 1 thirds) cancelled_meanwhile).orders
unfolding decide_cancellation_tx apply_decision refund_from_escrow update_balances resolve_tx find
    put split_from_escrow ◌-ℤ◌
resolve_unbacks_example =
    resolve_unbacks (test_env 600) 400 1 thirds cancelled_meanwhile
      (db_of (resolve_tx (test_env 600) 400 1 thirds) cancelled_meanwhile) _
      (record (test_order OrderStatus.cancelled) {
        cancelled_at = some 1500;
        cancelled_by_user_id = some 10;
        cancellation_reason = some (text "Schedule conflict — can't deliver in time");
      })
      refl refl (omega arith) refl cancelled_meanwhile-EscrowBacked
