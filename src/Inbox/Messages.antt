-- ===== src/Inbox/Messages.antt =====
-- `listMessages` of src/modules/messaging/infrastructure/persistence/prisma-messaging.repository.ts,
-- page by page backwards from a cursor.
use campusgig_backend.Prelude.{
  ℕ, ◌==◌, ◌||◌, ◌&&◌, ltb, leb, not, if◌then◌else◌, List, [], ◌∷◌, Option, none, some, Bool, true,
  false, filter, take,
}
use campusgig_backend.Db.Types.{OrderStatus, status_is}
use campusgig_backend.Db.Rows.{Order}
use campusgig_backend.Db.Table.{find, order_keyed}
use campusgig_backend.Inbox.Rows.{ChatMessage, ReadCursor, Inbox, chat_message_keyed}

-- `createdAt` descending, then `id` descending. Ids are compared as numbers.
unfoldable pub newer : ChatMessage → ChatMessage → Bool
newer a b = ltb b.created_at a.created_at || a.created_at == b.created_at && ltb b.id a.id

unfoldable pub insert_message_row : ChatMessage → List ChatMessage → List ChatMessage
unfolding newer
insert_message_row m [] = m ∷ []
insert_message_row m (x ∷ xs) =
    let rest = insert_message_row m xs in if newer m x then m ∷ x ∷ xs else x ∷ rest

unfoldable pub newest_first : List ChatMessage → List ChatMessage
unfolding insert_message_row
newest_first [] = []
newest_first (m ∷ ms) = insert_message_row m (newest_first ms)

-- The end of the window of an order's user messages.
abbrev pub terminal_at : Order → Option ℕ
terminal_at o =
    if status_is o.status OrderStatus.completed
    then o.completed_at
    else if status_is o.status OrderStatus.cancelled
    then o.cancelled_at
    else none

abbrev pub up_to : Option ℕ → ℕ → Bool
up_to none at = true
up_to (some last) at = leb at last

abbrev pub tagged : Option ℕ → ℕ → Bool
tagged none order_id = false
tagged (some o) order_id = o == order_id

-- System events of the order, and user messages in its window.
unfoldable pub in_order : Order → ChatMessage → Bool
in_order o m = elim m.sender_id [
  | none ↦ tagged m.order_id o.id
  | some _ ↦ leb o.placed_at m.created_at && up_to (terminal_at o) m.created_at
]

-- The messages of a thread, or of an order's workspace in it; `none` where the order is missing.
unfoldable pub scope : ℕ → Option ℕ → List Order → Option (ChatMessage → Bool)
unfolding in_order
scope thread_id none orders = some (λ m. m.thread_id == thread_id)
scope thread_id (some order_id) orders = elim (find order_id orders) [
  | none ↦ none
  | some o ↦ some (λ m. m.thread_id == thread_id && in_order o m)
]

-- The row of `beforeId`, where it is given and exists.
abbrev pub before_row : Option ℕ → List ChatMessage → Option ChatMessage
before_row none ms = none
before_row (some id) ms = find id ms

-- Rows that the cursor comes before; without a cursor, all.
abbrev pub older_than : Option ChatMessage → ChatMessage → Bool
older_than none m = true
older_than (some b) m = newer b m

-- The rows of a page.
unfoldable pub page_before :
    (ChatMessage → Bool) → Option ℕ → ℕ → List ChatMessage → List ChatMessage
unfolding newest_first newer
page_before shown before_id size ms =
    take size (filter (older_than (before_row before_id ms)) (newest_first (filter shown ms)))

unfoldable pub page_in :
    Option (ChatMessage → Bool) → Option ℕ → ℕ → List ChatMessage → List ChatMessage
unfolding page_before
page_in none before_id size ms = []
page_in (some shown) before_id size ms = page_before shown before_id size ms

-- `listMessages`, as rows
unfoldable pub list_messages : ℕ → Option ℕ → ℕ → Option ℕ → List Order → Inbox → List ChatMessage
unfolding scope page_in
list_messages thread_id before_id size order_id orders x =
    page_in (scope thread_id order_id orders) before_id size x.messages

abbrev pub read_at : Option ReadCursor → ℕ → Bool
read_at none at = false
read_at (some c) at = leb at c.last_read_at

-- The first cursor of another user than the sender.
abbrev pub peer_cursor : ℕ → ℕ → List ReadCursor → Option ReadCursor
peer_cursor thread_id sender_id [] = none
peer_cursor thread_id sender_id (c ∷ cs) =
    let rest = peer_cursor thread_id sender_id cs in
    if c.thread_id == thread_id && not (c.user_id == sender_id) then some c else rest

-- `readByRecipient` of a listed message
unfoldable pub read_by_recipient : List ReadCursor → ChatMessage → Bool
read_by_recipient cs m = elim m.sender_id [
  | none ↦ false
  | some s ↦ read_at (peer_cursor m.thread_id s cs) m.created_at
]
