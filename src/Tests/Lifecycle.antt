-- ===== src/Tests/Lifecycle.antt =====
-- When operations return on the test tables, and what late jobs and queues then do.
use campusgig_backend.Prelude.{◌≡◌, refl, none, some, false, List, [], ◌∷◌, text}
use campusgig_backend.Db.Types.{OrderStatus, Party, DisputeStatus}
use campusgig_backend.Db.Rows.{Db}
use campusgig_backend.Db.Table.{find, order_keyed, gig_keyed, user_keyed}
use campusgig_backend.Db.World.{World, review_deadline}
use campusgig_backend.Orders.Place.{place_order_tx}
use campusgig_backend.Orders.Decide.{accept_order_tx}
use campusgig_backend.Orders.Deliver.{deliver_work_tx}
use campusgig_backend.Orders.Extend.{accept, request_extension_tx}
use campusgig_backend.Orders.Returns.{Returns, place_order-Returns}
use campusgig_backend.Orders.Stale.{IsSettled, closed-IsSettled}
use campusgig_backend.Orders.Attention.{
  ActionRow, count_action_required, marked, buyer_candidate, seller_candidate,
  count_action_required_lem,
}
use campusgig_backend.Orders.Cancel.Decide.{decide_cancellation_tx}
use campusgig_backend.Orders.Cancel.Returns.{accept_cancellation-Returns}
use campusgig_backend.Tests.Fixtures.{
  test_env, test_db, test_world, test_order, test_gig, test_cancellation, db_of,
}

-- Right to left: the conditions hold here, and so the operation returns.
place_order-Returns_example :
    Returns (place_order_tx (test_env 500) 10 100) (test_db OrderStatus.late)
unfolding find
place_order-Returns_example =
    (place_order-Returns (test_env 500) 10 100 (test_db OrderStatus.late)).1
      (test_gig, _, refl, refl, refl, refl, refl)

-- The order is completed, and the acceptance returns all the same.
accept_cancellation-Returns_example :
    Returns (decide_cancellation_tx (test_env 500) 700 10 accept) (test_db OrderStatus.completed)
unfolding find
accept_cancellation-Returns_example =
    (accept_cancellation-Returns (test_env 500) 700 10 (test_db OrderStatus.completed)).1
      (test_cancellation, test_order OrderStatus.completed, _, refl, refl, refl, refl, refl, refl)

closed-IsSettled_example : IsSettled 400 (test_db OrderStatus.completed)
unfolding find
closed-IsSettled_example =
    closed-IsSettled 400 (test_db OrderStatus.completed) (test_order OrderStatus.completed) refl
      refl

abbrev accepted : Db
accepted = db_of (accept_order_tx (test_env 500) 400 20) (test_db OrderStatus.pending_review)

abbrev delivered : Db
delivered =
    db_of (deliver_work_tx (test_env 500) 400 20 (text "done") []) (test_db OrderStatus.late)

abbrev extended : Db
extended =
    db_of (request_extension_tx (test_env 500) 400 20 12 none) (test_db OrderStatus.in_progress)

abbrev watched : World
watched = record (test_world OrderStatus.delivered) {
  jobs = record { kind = review_deadline; entity_id = 400; due = 5 } ∷ [];
}

-- A frozen order that the seller disputes, and one under review that the seller wants to cancel.
abbrev two_rows : List ActionRow
two_rows =
    record {
      buyer_id = 10;
      seller_id = 20;
      status = OrderStatus.frozen;
      pending_extension = false;
      pending_cancellation = none;
      dispute = some (20, DisputeStatus.awaiting_response);
    }
    ∷ record {
      buyer_id = 10;
      seller_id = 20;
      status = OrderStatus.pending_review;
      pending_extension = false;
      pending_cancellation = some Party.seller;
      dispute = none;
    }
    ∷ []

count_action_required_lem_example :
    ((count_action_required 10 two_rows).as_buyer
      ≡ marked buyer_candidate Party.buyer 10 (λ r. r.buyer_id) two_rows)
    × ((count_action_required 10 two_rows).as_seller
        ≡ marked seller_candidate Party.seller 10 (λ r. r.seller_id) two_rows)
count_action_required_lem_example = count_action_required_lem 10 two_rows
