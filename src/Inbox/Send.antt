-- ===== src/Inbox/Send.antt =====
-- Sending and reading: send-message.handler.ts of src/modules/messaging/application/commands, with
-- `insertMessage` and `markThreadRead` of
-- src/modules/messaging/infrastructure/persistence/prisma-messaging.repository.ts.
use campusgig_backend.Prelude.{
  ℕ, ◌==◌, ◌||◌, ◌&&◌, ltb, not, if◌then◌else◌, List, [], ◌∷◌, Option, none, some, Bool, true,
  false, length, map, includes, count_where, trim, Outcome, done, and_then, refuse_if, present,
}
use campusgig_backend.Db.Types.{Text}
use campusgig_backend.Db.Rows.{Order}
use campusgig_backend.Db.Table.{find, put}
use campusgig_backend.Inbox.Rows.{
  ChatMessage, Attachment, ReadCursor, Inbox, SendError, empty_message, thread_frozen,
  thread_missing, too_many_attachments, not_a_thread_participant, thread_keyed, from_peer,
}
use campusgig_backend.Inbox.Threads.{get_thread_by_id, frozen_counterpart_ids, last_read, after}

-- The newest message of a thread: by time, then by id.
unfoldable pub latest : ℕ → List ChatMessage → Option ChatMessage
latest thread_id [] = none
latest thread_id (m ∷ ms) =
    let rest = latest thread_id ms in
    if m.thread_id == thread_id
    then elim rest [
      | none ↦ some m
      | some n ↦
          if ltb n.created_at m.created_at || n.created_at == m.created_at && ltb n.id m.id
          then some m
          else some n
    ]
    else rest

-- `upsert` on the cursor of a thread and a user
unfoldable pub upsert_cursor : ReadCursor → List ReadCursor → List ReadCursor
upsert_cursor c [] = c ∷ []
upsert_cursor c (x ∷ xs) =
    let rest = upsert_cursor c xs in
    if x.thread_id == c.thread_id && x.user_id == c.user_id then c ∷ xs else x ∷ rest

abbrev pub id_of : Option ChatMessage → Option ℕ
id_of none = none
id_of (some m) = some m.id

-- `markThreadRead`: what it counts as cleared, and the new cursor
unfoldable pub mark_thread_read : ℕ → ℕ → ℕ → Inbox → ℕ × Inbox
unfolding latest upsert_cursor last_read
mark_thread_read now thread_id user_id x =
    let prev = last_read thread_id user_id x.cursors in
    (
      count_where
          (λ m.
            m.thread_id == thread_id && from_peer user_id m.sender_id && after prev m.created_at)
          x.messages,
      record x {
        cursors =
            upsert_cursor
              (record {
                thread_id = thread_id;
                user_id = user_id;
                last_read_message_id = id_of (latest thread_id x.messages);
                last_read_at = now;
              })
              x.cursors;
      },
    )

-- `updateMany({ where: { id: { in }, messageId: null } })` on one row
abbrev pub claim_attachment : List ℕ → ℕ → Attachment → Attachment
claim_attachment ids message_id a = elim a.message_id [
  | none ↦ if includes ids a.id then record a { message_id = some message_id } else a
  | some _ ↦ a
]

-- `insertMessage`
unfoldable pub insert_message :
    ℕ
    → ℕ
    → ℕ
    → ℕ
    → Option Text
    → Option ℕ
    → List ℕ
    → Inbox
    → Outcome SendError (ChatMessage × Inbox)
insert_message now id thread_id sender_id body order_id attachment_ids x =
    let message : ChatMessage = record {
      id = id;
      thread_id = thread_id;
      sender_id = some sender_id;
      body = body;
      order_id = order_id;
      created_at = now;
    } in
    and_then (present (find thread_id x.threads) thread_missing) λ t. done (
      message,
      record x {
        messages = message ∷ x.messages;
        attachments = map (claim_attachment attachment_ids id) x.attachments;
        threads = put (record t { last_message_at = some now }) x.threads;
      },
    )

-- `command.body?.trim() || null`
abbrev pub body_of : Option Text → Option Text
body_of none = none
body_of (some t) = if length (trim t) == 0 then none else some (trim t)

abbrev pub no_body : Option Text → Bool
no_body none = true
no_body (some t) = false

abbrev pub max_attachments_per_message : ℕ
max_attachments_per_message = 5

-- `SendMessageHandler.execute`, with the sender's cursor moved in the end; `later` is the time of
-- that.
unfoldable pub send_message :
    ℕ
    → ℕ
    → ℕ
    → ℕ
    → ℕ
    → Option Text
    → Option ℕ
    → List ℕ
    → List Order
    → Inbox
    → Outcome SendError (ChatMessage × Inbox)
unfolding insert_message mark_thread_read get_thread_by_id frozen_counterpart_ids
send_message now later id thread_id sender_id body order_id attachment_ids orders x =
    refuse_if (no_body (body_of body) && length attachment_ids == 0) empty_message (
      refuse_if (ltb max_attachments_per_message (length attachment_ids))
        (too_many_attachments (length attachment_ids) max_attachments_per_message)
        (and_then
          (present (get_thread_by_id thread_id sender_id x.threads)
            (not_a_thread_participant thread_id sender_id))
          λ other.
            refuse_if (not (length (frozen_counterpart_ids sender_id (other ∷ []) orders) == 0))
              thread_frozen
              (and_then
                (insert_message now id thread_id sender_id (body_of body) order_id attachment_ids x)
                λ (message, x').
                  done (message, (mark_thread_read later thread_id sender_id x').1))))
