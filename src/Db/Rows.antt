-- ===== src/Db/Rows.antt =====
-- The rows of prisma/models, with the columns that the modelled code reads or writes. An id is a
-- UUID that the code only compares, so it is a number; a time is in milliseconds.
use campusgig_backend.Prelude.{ℕ, ℤ, Option, List}
use campusgig_backend.Db.Types.{
  Text, OrderStatus, RequestStatus, Party, CancellationReasonCode, OrderEventType, SystemEventType,
  GigStatus, TransactionType, TransactionDirection, PaymentStatus, WithdrawalRejectionReason,
  DisputeStatus, DisputeVerdict, DisputeReasonCode,
}

pub record User : Type 0 where
  pub id : ℕ
  pub wallet_balance : ℤ
  pub escrow_balance : ℤ
  pub pending_withdrawal_balance : ℤ
  pub bank_name : Option Text
  pub bank_account_number : Option Text
  pub bank_account_holder : Option Text

pub record Gig : Type 0 where
  pub id : ℕ
  pub seller_id : ℕ
  pub title : Text
  pub price_vnd : ℕ
  pub delivery_days : ℕ
  pub status : GigStatus
  pub cover_key : Option Text
  pub completed_order_count : ℕ

pub record Order : Type 0 where
  pub id : ℕ
  pub number : ℕ
  pub buyer_id : ℕ
  pub seller_id : ℕ
  pub gig_id : ℕ
  pub gig_title_snapshot : Text
  pub gig_price_vnd_snapshot : ℕ
  pub gig_delivery_days : ℕ
  pub gig_cover_key : Option Text
  pub status : OrderStatus
  pub placed_at : ℕ
  pub accepted_at : Option ℕ
  pub delivered_at : Option ℕ
  pub completed_at : Option ℕ
  pub cancelled_at : Option ℕ
  pub auto_completed_at : Option ℕ
  pub accept_deadline : Option ℕ
  pub delivery_deadline : Option ℕ
  pub review_deadline : Option ℕ
  pub dispute_deadline : Option ℕ
  pub cancelled_by_user_id : Option ℕ
  pub cancellation_reason : Option Text

pub record Delivery : Type 0 where
  pub id : ℕ
  pub order_id : ℕ
  pub version : ℕ
  pub note : Text
  pub delivered_at : ℕ

pub record DeliveryFile : Type 0 where
  pub id : ℕ
  pub delivery_id : Option ℕ
  pub key : Text
  pub name : Text
  pub size : ℕ
  pub mime : Text

pub record Extension : Type 0 where
  pub id : ℕ
  pub order_id : ℕ
  pub requested_by_id : ℕ
  pub hours_requested : ℕ
  pub reason : Option Text
  pub status : RequestStatus
  pub expires_at : ℕ
  pub requested_at : ℕ
  pub decided_at : Option ℕ
  pub decided_by_id : Option ℕ

pub record Cancellation : Type 0 where
  pub id : ℕ
  pub order_id : ℕ
  pub requested_by_id : ℕ
  pub initiator : Party
  pub reason_code : CancellationReasonCode
  pub other_text : Option Text
  pub status : RequestStatus
  pub expires_at : ℕ
  pub requested_at : ℕ
  pub decided_at : Option ℕ
  pub decided_by_id : Option ℕ

pub record OrderEvent : Type 0 where
  pub order_id : ℕ
  pub type : OrderEventType
  pub actor_user_id : Option ℕ

pub record Transaction : Type 0 where
  pub id : ℕ
  pub user_id : ℕ
  pub type : TransactionType
  pub direction : TransactionDirection
  pub status : PaymentStatus
  pub amount_vnd : ℤ
  pub balance_after_vnd : Option ℤ
  pub order_id : Option ℕ
  pub withdrawal_request_id : Option ℕ

pub record WithdrawalRequest : Type 0 where
  pub id : ℕ
  pub user_id : ℕ
  pub amount_vnd : ℤ
  pub bank_name_snapshot : Text
  pub bank_account_number_snapshot : Text
  pub bank_account_holder_snapshot : Text
  pub available_balance_snapshot : ℤ
  pub status : PaymentStatus
  pub rejection_reason : Option WithdrawalRejectionReason
  pub rejection_note : Option Text
  pub processed_by_user_id : Option ℕ
  pub requested_at : ℕ
  pub processed_at : Option ℕ

pub record MessageThread : Type 0 where
  pub id : ℕ
  pub user_a_id : ℕ
  pub user_b_id : ℕ

-- A system message: `senderId` is null.
pub record Message : Type 0 where
  pub thread_id : ℕ
  pub order_id : ℕ
  pub type : SystemEventType
  pub created_at : ℕ

pub record Dispute : Type 0 where
  pub id : ℕ
  pub order_id : ℕ
  pub filed_by_user_id : ℕ
  pub filed_by_role : Party
  pub reason_code : DisputeReasonCode
  pub filer_statement : Text
  pub responded_at : Option ℕ
  pub responder_statement : Option Text
  pub status : DisputeStatus
  pub response_deadline : ℕ
  pub verdict : Option DisputeVerdict
  pub buyer_refund_percent : Option ℤ
  pub admin_notes : Option Text
  pub resolved_by_user_id : Option ℕ
  pub resolved_at : Option ℕ
  pub filed_at : ℕ

pub record DisputeEvidence : Type 0 where
  pub id : ℕ
  pub dispute_id : Option ℕ
  pub order_id : ℕ
  pub side : Party
  pub uploaded_by_user_id : ℕ
  pub file_key : Text
  pub name : Text
  pub size : ℕ
  pub mime : Text

pub record Db : Type 0 where
  pub users : List User
  pub gigs : List Gig
  pub orders : List Order
  pub deliveries : List Delivery
  pub delivery_files : List DeliveryFile
  pub extensions : List Extension
  pub cancellations : List Cancellation
  pub order_events : List OrderEvent
  pub transactions : List Transaction
  pub withdrawal_requests : List WithdrawalRequest
  pub message_threads : List MessageThread
  pub messages : List Message
  pub disputes : List Dispute
  pub dispute_evidence : List DisputeEvidence
