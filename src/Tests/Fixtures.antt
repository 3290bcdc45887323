-- ===== src/Tests/Fixtures.antt =====
-- Small tables that the tests run on: a platform user, a buyer, a seller, a gig and one order.
use campusgig_backend.Prelude.{ℕ, ℤ, pos, ◌+◌, ◌≡◌, none, some, List, [], ◌∷◌, arith, true, text}
use campusgig_backend.Db.Types.{
  OrderStatus, GigStatus, RequestStatus, Party, CancellationReasonCode, PaymentStatus,
  DisputeStatus, DisputeReasonCode,
}
use campusgig_backend.Db.Rows.{
  User, Gig, Order, Cancellation, Delivery, WithdrawalRequest, Dispute, Db,
}
use campusgig_backend.Db.Table.{find, user_keyed}
use campusgig_backend.Db.Tx.{Env, Tx, ok, err}
use campusgig_backend.Db.World.{World}
use campusgig_backend.Ledger.Balances.{escrow_of}
use campusgig_backend.Ledger.Held.{held, held_by, is_open}
use campusgig_backend.Ledger.Step.{EscrowBacked}

abbrev pub test_env : ℕ → Env
test_env n = record { now = 1000 + n; uuid = λ k. n + k; number = n }

abbrev user : ℕ → ℤ → ℤ → ℤ → User
user i wallet escrow held = record {
  id = i;
  wallet_balance = wallet;
  escrow_balance = escrow;
  pending_withdrawal_balance = held;
  bank_name = some (text "VCB");
  bank_account_number = some (text "0011");
  bank_account_holder = some (text "AN");
}

abbrev pub test_users : List User
test_users =
    user 1 (pos 0) (pos 0) (pos 0)
    ∷ user 10 (pos 900) (pos 200) (pos 60)
    ∷ user 20 (pos 50) (pos 0) (pos 0)
    ∷ []

abbrev pub test_gig : Gig
test_gig = record {
  id = 100;
  seller_id = 20;
  title = text "Logo";
  price_vnd = 300;
  delivery_days = 2;
  status = GigStatus.active;
  cover_key = none;
  completed_order_count = 0;
}

-- The buyer's order of 200 with the seller, in the given status.
abbrev pub test_order : OrderStatus → Order
test_order s = record {
  id = 400;
  number = 1;
  buyer_id = 10;
  seller_id = 20;
  gig_id = 100;
  gig_title_snapshot = text "Logo";
  gig_price_vnd_snapshot = 200;
  gig_delivery_days = 2;
  gig_cover_key = none;
  status = s;
  placed_at = 0;
  accepted_at = none;
  delivered_at = none;
  completed_at = none;
  cancelled_at = none;
  auto_completed_at = none;
  accept_deadline = some 86400000;
  delivery_deadline = none;
  review_deadline = none;
  dispute_deadline = none;
  cancelled_by_user_id = none;
  cancellation_reason = none;
}

-- The seller's pending wish to cancel the order.
abbrev pub test_cancellation : Cancellation
test_cancellation = record {
  id = 700;
  order_id = 400;
  requested_by_id = 20;
  initiator = Party.seller;
  reason_code = CancellationReasonCode.seller_schedule_conflict;
  other_text = none;
  status = RequestStatus.pending;
  expires_at = 0;
  requested_at = 0;
  decided_at = none;
  decided_by_id = none;
}

-- The buyer's pending withdrawal of 60.
abbrev pub test_request : WithdrawalRequest
test_request = record {
  id = 800;
  user_id = 10;
  amount_vnd = pos 60;
  bank_name_snapshot = text "VCB";
  bank_account_number_snapshot = text "0011";
  bank_account_holder_snapshot = text "AN";
  available_balance_snapshot = pos 960;
  status = PaymentStatus.pending;
  rejection_reason = none;
  rejection_note = none;
  processed_by_user_id = none;
  requested_at = 0;
  processed_at = none;
}

-- The buyer's dispute over the order, ready for the admin.
abbrev pub test_dispute : Dispute
test_dispute = record {
  id = 900;
  order_id = 400;
  filed_by_user_id = 10;
  filed_by_role = Party.buyer;
  reason_code = DisputeReasonCode.work_not_as_described;
  filer_statement = text "No";
  responded_at = none;
  responder_statement = none;
  status = DisputeStatus.ready_for_review;
  response_deadline = 0;
  verdict = none;
  buyer_refund_percent = none;
  admin_notes = none;
  resolved_by_user_id = none;
  resolved_at = none;
  filed_at = 0;
}

abbrev pub test_delivery : Delivery
test_delivery = record { id = 600; order_id = 400; version = 1; note = text "v1"; delivered_at = 0 }

abbrev pub test_db : OrderStatus → Db
test_db s = record {
  users = test_users;
  gigs = test_gig ∷ [];
  orders = test_order s ∷ [];
  deliveries = test_delivery ∷ [];
  delivery_files = [];
  extensions = [];
  cancellations = test_cancellation ∷ [];
  order_events = [];
  transactions = [];
  withdrawal_requests = test_request ∷ [];
  message_threads = [];
  messages = [];
  disputes = [];
  dispute_evidence = [];
}

-- The frozen order with its dispute.
abbrev pub disputed_db : Db
disputed_db = record (test_db OrderStatus.frozen) { disputes = test_dispute ∷ [] }

abbrev pub test_world : OrderStatus → World
test_world s = record { db = test_db s; jobs = []; sent = [] }

-- The tables that a transaction leaves.
abbrev pub db_of : {A : Type 0} → Tx A → Db → Db
db_of m d = elim (m d) [ ok (_, d') ↦ d' | err _ ↦ d ]

-- While the order is open, the tables back the buyer's escrow.
pub test_db-EscrowBacked :
    (s : OrderStatus) → is_open s ≡ true → EscrowBacked (test_db s).users (test_db s).orders
unfolding escrow_of held held_by find
test_db-EscrowBacked s h u = ground (arith, h)
