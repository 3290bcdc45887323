-- ===== src/Db/Types.antt =====
-- The enums of prisma/models and of the domain ports, with a code for each to test equality by.
use campusgig_backend.Prelude.{ℕ, ◌==◌, Bool, List}

-- A text is the list of its UTF-16 code units.
abbrev pub Text : Type 0
Text = List ℕ

pub data OrderStatus : Type 0 where
  pending_review in_progress late delivered awaiting_finalization : OrderStatus
  completed cancelled frozen : OrderStatus

abbrev pub order_status_code : OrderStatus → ℕ
order_status_code pending_review = 0
order_status_code in_progress = 1
order_status_code late = 2
order_status_code delivered = 3
order_status_code awaiting_finalization = 4
order_status_code completed = 5
order_status_code cancelled = 6
order_status_code frozen = 7

-- `a === b` on order statuses
abbrev pub status_is : OrderStatus → OrderStatus → Bool
status_is a b = order_status_code a == order_status_code b

-- `ExtensionStatus` and `CancellationStatus`
pub data RequestStatus : Type 0 where
  pending accepted rejected expired : RequestStatus

abbrev pub is_pending : RequestStatus → Bool
is_pending pending = Bool.true
is_pending _ = Bool.false

-- `CancellationInitiator` and `DisputeParty`
pub data Party : Type 0 where
  buyer seller : Party

abbrev pub party_is : Party → Party → Bool
party_is buyer buyer = Bool.true
party_is buyer seller = Bool.false
party_is seller buyer = Bool.false
party_is seller seller = Bool.true

pub data CancellationReasonCode : Type 0 where
  buyer_situation_changed buyer_ordered_by_mistake : CancellationReasonCode
  buyer_agreed_in_chat buyer_other : CancellationReasonCode
  seller_schedule_conflict seller_requirements_mismatch : CancellationReasonCode
  seller_agreed_in_chat seller_other : CancellationReasonCode

pub data OrderEventType : Type 0 where
  placed accepted declined auto_cancelled late delivered delivery_updated : OrderEventType
  extension_requested extension_accepted extension_rejected extension_expired : OrderEventType
  cancellation_requested cancellation_accepted cancellation_rejected : OrderEventType
  cancellation_expired accept_delivery auto_completed finalized : OrderEventType
  dispute_filed dispute_resolved : OrderEventType

-- The `type` of a system message in a thread.
pub data SystemEventType : Type 0 where
  order_placed order_accepted order_declined order_auto_cancelled order_marked_late :
      SystemEventType
  order_delivered order_delivery_updated order_completed order_auto_completed : SystemEventType
  order_finalized extension_requested extension_accepted extension_rejected : SystemEventType
  extension_expired cancellation_requested cancellation_accepted : SystemEventType
  cancellation_rejected cancellation_expired dispute_filed dispute_resolved : SystemEventType
  review_submitted : SystemEventType

pub data GigStatus : Type 0 where
  pending active paused rejected deleted : GigStatus

abbrev pub is_active : GigStatus → Bool
is_active active = Bool.true
is_active _ = Bool.false

pub data TransactionType : Type 0 where
  deposit payment earning refund withdrawal : TransactionType

pub data TransactionDirection : Type 0 where
  incoming outgoing : TransactionDirection

-- `TransactionStatus` and `WithdrawalStatus`
pub data PaymentStatus : Type 0 where
  completed pending rejected : PaymentStatus

abbrev pub payment_is_pending : PaymentStatus → Bool
payment_is_pending PaymentStatus.pending = Bool.true
payment_is_pending _ = Bool.false

pub data WithdrawalRejectionReason : Type 0 where
  invalid_account suspicious_activity insufficient_documentation : WithdrawalRejectionReason
  policy_violation other : WithdrawalRejectionReason

pub data DisputeStatus : Type 0 where
  awaiting_response ready_for_review resolved : DisputeStatus

abbrev pub dispute_status_code : DisputeStatus → ℕ
dispute_status_code awaiting_response = 0
dispute_status_code ready_for_review = 1
dispute_status_code resolved = 2

abbrev pub dispute_is : DisputeStatus → DisputeStatus → Bool
dispute_is a b = dispute_status_code a == dispute_status_code b

pub data DisputeVerdict : Type 0 where
  refund_buyer complete_for_seller split_funds : DisputeVerdict

pub data DisputeReasonCode : Type 0 where
  work_not_as_described seller_never_delivered seller_harassment buyer_other : DisputeReasonCode
  buyer_out_of_scope buyer_review_threat buyer_unreachable seller_other : DisputeReasonCode

-- What an exception says was attempted.
pub data Attempt : Type 0 where
  accept decline deliver accept_delivery request_extension decide_extension : Attempt
  request_cancellation role_mismatch decide_cancellation : Attempt

pub data GigProblem : Type 0 where
  gig_missing : GigProblem
  gig_is : GigStatus → GigProblem
  buyer_missing : GigProblem
