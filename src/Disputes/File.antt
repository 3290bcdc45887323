-- ===== src/Disputes/File.antt =====
-- `fileDispute`, `respondToDispute`, `addEvidence` and `expireResponse` of
-- src/modules/disputes/infrastructure/persistence/prisma-disputes.repository.ts, with the jobs that
-- the command handlers of src/modules/disputes/application/commands schedule and remove.
use campusgig_backend.Prelude.{
  ℕ, ◌+◌, ◌*◌, ◌==◌, ◌&&◌, ◌||◌, Option, none, some, not, Bool, true, false, List, [], ◌∷◌, map,
  includes, if◌then◌else◌,
}
use campusgig_backend.Db.Types.{
  Text, OrderStatus, OrderEventType, SystemEventType, Party, DisputeStatus, DisputeReasonCode,
  status_is, party_is, dispute_is,
}
use campusgig_backend.Db.Rows.{Order, Dispute, DisputeEvidence, Message}
use campusgig_backend.Db.Table.{find, put, order_keyed, dispute_keyed}
use campusgig_backend.Db.Tx.{
  Tx, Env, ok, ◌>>=◌, ◌>>◌, return, or_throw, throw_if, modify, find_order, save_order,
  create_event, order_not_found, not_a_participant, not_disputable_state, dispute_already_exists,
  dispute_not_found, already_responded, dispute_not_reviewable,
}
use campusgig_backend.Db.World.{Action, commit, schedule, remove_job, emit, response_timeout}
use campusgig_backend.Messaging.{announce}
use campusgig_backend.Orders.Windows.{hour_ms}
use campusgig_backend.Orders.Cancel.Request.{role_of}

abbrev pub response_window_ms : ℕ
response_window_ms = 48 * hour_ms

-- `DISPUTABLE_STATUSES.includes(status)`
unfoldable pub is_disputable : OrderStatus → Bool
is_disputable s =
    status_is s OrderStatus.in_progress
    || status_is s OrderStatus.late
    || status_is s OrderStatus.delivered
    || status_is s OrderStatus.awaiting_finalization

-- `dispute.findUnique({ where: { orderId } })`
unfoldable pub find_dispute : ℕ → List Dispute → Option Dispute
find_dispute order_id [] = none
find_dispute order_id (x ∷ xs) = if x.order_id == order_id then some x else find_dispute order_id xs

abbrev pub has_dispute : Option Dispute → Bool
has_dispute none = false
has_dispute (some x) = true

-- `disputeEvidence.updateMany` of `claimEvidence` on one row
unfoldable pub claim_row : ℕ → ℕ → Party → List ℕ → ℕ → DisputeEvidence → DisputeEvidence
claim_row order_id uploader_id side ids dispute_id e = elim e.dispute_id [
  | some _ ↦ e
  | none ↦
      if includes ids e.id
        && e.order_id == order_id
        && e.uploaded_by_user_id == uploader_id
        && party_is e.side side
      then record e { dispute_id = some dispute_id }
      else e
]

unfoldable pub claim_evidence : ℕ → ℕ → Party → List ℕ → ℕ → Tx (Unit {0})
unfolding claim_row
claim_evidence order_id uploader_id side ids dispute_id = modify (λ d. record d {
  dispute_evidence = map (claim_row order_id uploader_id side ids dispute_id) d.dispute_evidence;
})

pub record DisputeInput : Type 0 where
  pub order_id : ℕ
  pub viewer_id : ℕ
  pub reason_code : DisputeReasonCode
  pub statement : Text
  pub evidence_file_ids : List ℕ

abbrev pub new_dispute : Env → DisputeInput → Party → Dispute
new_dispute env input role = record {
  id = env.uuid 0;
  order_id = input.order_id;
  filed_by_user_id = input.viewer_id;
  filed_by_role = role;
  reason_code = input.reason_code;
  filer_statement = input.statement;
  responded_at = none;
  responder_statement = none;
  status = DisputeStatus.awaiting_response;
  response_deadline = env.now + response_window_ms;
  verdict = none;
  buyer_refund_percent = none;
  admin_notes = none;
  resolved_by_user_id = none;
  resolved_at = none;
  filed_at = env.now;
}

abbrev pub frozen_order : Order → Order
frozen_order order = record order { status = OrderStatus.frozen }

abbrev pub is_stranger : ℕ → Order → Bool
is_stranger viewer_id order =
    not (order.buyer_id == viewer_id) && not (order.seller_id == viewer_id)

unfoldable pub file_dispute_tx : Env → DisputeInput → Tx (Dispute × Message)
unfolding announce is_disputable claim_evidence find_dispute
file_dispute_tx env input = do
  order ← find_order input.order_id (order_not_found input.order_id)
  throw_if (is_stranger input.viewer_id order) (not_a_participant input.order_id)
  throw_if (not (is_disputable order.status)) (not_disputable_state order.status)
  λ d.
      throw_if (has_dispute (find_dispute input.order_id d.disputes))
        (dispute_already_exists input.order_id) d
  let role = role_of input.viewer_id order
  let dispute = new_dispute env input role
  modify (λ d. record d { disputes = dispute ∷ d.disputes })
  claim_evidence input.order_id input.viewer_id role input.evidence_file_ids dispute.id
  save_order (frozen_order order)
  create_event input.order_id OrderEventType.dispute_filed (some input.viewer_id)
  message ←
      announce (env.uuid 1) order.buyer_id order.seller_id input.order_id
        SystemEventType.dispute_filed env.now
  return (dispute, message)

unfoldable pub file_dispute : Env → DisputeInput → Action (Dispute × Message)
unfolding file_dispute_tx
file_dispute env input = commit (file_dispute_tx env input) λ (dispute, message) w.
    schedule env.now response_timeout dispute.id dispute.response_deadline (emit message w)

abbrev pub responded : Option ℕ → Bool
responded none = false
responded (some t) = true

unfoldable pub respond_to_dispute_tx : Env → ℕ → ℕ → Text → List ℕ → Tx Dispute
unfolding claim_evidence find_dispute
respond_to_dispute_tx env order_id viewer_id statement evidence_file_ids = do
  order ← find_order order_id (order_not_found order_id)
  throw_if (is_stranger viewer_id order) (not_a_participant order_id)
  dispute ← λ d. or_throw (find_dispute order_id d.disputes) (dispute_not_found order_id) d
  throw_if (dispute.filed_by_user_id == viewer_id) (not_a_participant order_id)
  throw_if
      (not (dispute_is dispute.status DisputeStatus.awaiting_response)
        || responded dispute.responded_at)
      (already_responded order_id)
  let dispute' : Dispute = record dispute {
    responded_at = some env.now;
    responder_statement = some statement;
    status = DisputeStatus.ready_for_review;
  }
  modify (λ d. record d { disputes = put dispute' d.disputes })
  claim_evidence order_id viewer_id (role_of viewer_id order) evidence_file_ids dispute.id
  return dispute'

unfoldable pub respond_to_dispute : Env → ℕ → ℕ → Text → List ℕ → Action Dispute
unfolding respond_to_dispute_tx
respond_to_dispute env order_id viewer_id statement evidence_file_ids =
    commit (respond_to_dispute_tx env order_id viewer_id statement evidence_file_ids)
      λ dispute w. remove_job response_timeout dispute.id w

unfoldable pub add_evidence_tx : ℕ → ℕ → List ℕ → Tx Dispute
unfolding claim_evidence find_dispute
add_evidence_tx order_id viewer_id evidence_file_ids = do
  order ← find_order order_id (order_not_found order_id)
  throw_if (is_stranger viewer_id order) (not_a_participant order_id)
  dispute ← λ d. or_throw (find_dispute order_id d.disputes) (dispute_not_found order_id) d
  throw_if (dispute_is dispute.status DisputeStatus.resolved)
      (dispute_not_reviewable dispute.status)
  claim_evidence order_id viewer_id (role_of viewer_id order) evidence_file_ids dispute.id
  return dispute

unfoldable pub expire_response_tx : ℕ → Tx (Option Dispute)
expire_response_tx dispute_id d = elim (find dispute_id d.disputes) [
  | none ↦ ok (none, d)
  | some dispute ↦ elim (dispute_is dispute.status DisputeStatus.awaiting_response) [
    | false ↦ ok (none, d)
    | true ↦
        let dispute' : Dispute = record dispute { status = DisputeStatus.ready_for_review } in
        ok (some dispute', record d { disputes = put dispute' d.disputes })
  ]
]
