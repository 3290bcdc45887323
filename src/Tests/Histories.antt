-- ===== src/Tests/Histories.antt =====
-- Histories of calls on the test tables.
use campusgig_backend.Prelude.{◌≡◌, refl, some, List, [], ◌∷◌, text}
use campusgig_backend.Db.Types.{OrderStatus}
use campusgig_backend.Db.Tx.{Env}
use campusgig_backend.Db.Table.{find, order_keyed}
use campusgig_backend.Ledger.Balances.{total_money}
use campusgig_backend.Ledger.Step.{EscrowBacked}
use campusgig_backend.Refinement.Escrow.{Steps}
use campusgig_backend.Orders.Decide.{accept_order_tx}
use campusgig_backend.Marketplace.{
  Call, place_order, accept_order, deliver_work, accept_delivery, run, after, perform, AllSafe,
  IsSafe,
}
use campusgig_backend.Marketplace.History.{
  run-EscrowBacked, run-total_money, run-closed_final, perform-Steps,
}
use campusgig_backend.Tests.Fixtures.{test_env, test_db, test_order, test_db-EscrowBacked}

abbrev sale : List (Env × Call)
sale =
    (test_env 500, place_order 10 100)
    ∷ (test_env 510, accept_order 500 20)
    ∷ (test_env 520, deliver_work 500 20 (text "done") [])
    ∷ (test_env 530, accept_delivery 500 10)
    ∷ []

sale-AllSafe : (s : OrderStatus) → AllSafe sale (test_db s)
unfolding AllSafe IsSafe find
sale-AllSafe s = (refl, (tt, (tt, (tt, tt))))

run-EscrowBacked_example :
    EscrowBacked
      (run sale (test_db OrderStatus.late)).users
      (run sale (test_db OrderStatus.late)).orders
run-EscrowBacked_example =
    run-EscrowBacked sale (test_db OrderStatus.late) (sale-AllSafe OrderStatus.late)
      (test_db-EscrowBacked OrderStatus.late refl)

run-total_money_example :
    total_money (run sale (test_db OrderStatus.late)).users
    ≡ total_money (test_db OrderStatus.late).users
run-total_money_example =
    run-total_money sale (test_db OrderStatus.late) (sale-AllSafe OrderStatus.late)

run-closed_final_example :
    find 400 (run sale (test_db OrderStatus.completed)).orders
    ≡ some (test_order OrderStatus.completed)
unfolding find
run-closed_final_example =
    run-closed_final sale (test_db OrderStatus.completed) 400 (test_order OrderStatus.completed)
      (sale-AllSafe OrderStatus.completed) refl refl

perform-Steps_example :
    Steps
      (test_db OrderStatus.pending_review)
      (after (test_env 500) (accept_order 400 20) (test_db OrderStatus.pending_review))
unfolding IsSafe perform after accept_order_tx find
perform-Steps_example =
    perform-Steps (test_env 500) (accept_order 400 20) (test_db OrderStatus.pending_review)
      (after (test_env 500) (accept_order 400 20) (test_db OrderStatus.pending_review)) tt refl
