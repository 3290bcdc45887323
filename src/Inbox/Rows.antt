-- ===== src/Inbox/Rows.antt =====
-- The rows of prisma/models that the inbox reads and writes: threads, messages, attachments and read
-- cursors; and the exceptions of src/modules/messaging/domain/exceptions that sending throws.
use campusgig_backend.Prelude.{ℕ, Option, none, some, List, Bool, false, ◌==◌, not}
use campusgig_backend.Db.Types.{Text}
use campusgig_backend.Db.Table.{Keyed}

pub record Thread : Type 0 where
  pub id : ℕ
  pub user_a_id : ℕ
  pub user_b_id : ℕ
  pub last_message_at : Option ℕ
  pub created_at : ℕ

-- A message without a sender is a system event.
pub record ChatMessage : Type 0 where
  pub id : ℕ
  pub thread_id : ℕ
  pub sender_id : Option ℕ
  pub body : Option Text
  pub order_id : Option ℕ
  pub created_at : ℕ

pub record Attachment : Type 0 where
  pub id : ℕ
  pub message_id : Option ℕ

pub record ReadCursor : Type 0 where
  pub thread_id : ℕ
  pub user_id : ℕ
  pub last_read_message_id : Option ℕ
  pub last_read_at : ℕ

pub record Inbox : Type 0 where
  pub threads : List Thread
  pub messages : List ChatMessage
  pub attachments : List Attachment
  pub cursors : List ReadCursor

pub data SendError : Type 0 where
  empty_message thread_frozen thread_missing : SendError
  too_many_attachments : ℕ → ℕ → SendError
  not_a_thread_participant : ℕ → ℕ → SendError

instance abbrev pub thread_keyed : Keyed Thread
thread_keyed = record { key = λ r. r.id }

instance abbrev pub chat_message_keyed : Keyed ChatMessage
chat_message_keyed = record { key = λ r. r.id }

-- Sent by somebody, and not by this user.
abbrev pub from_peer : ℕ → Option ℕ → Bool
from_peer user_id none = false
from_peer user_id (some s) = not (s == user_id)
