-- ===== src/Messaging.antt =====
-- modules/messaging: the part of the Prisma repository that orders and disputes call within their
-- transactions (src/modules/messaging/infrastructure/persistence/prisma-messaging.repository.ts).
-- The code looks the thread up outside the caller's transaction; nothing throws after that.
use campusgig_backend.Prelude.{ℕ, ltb, ◌==◌, ◌&&◌, if◌then◌else◌, List, [], ◌∷◌, Option, none, some}
use campusgig_backend.Db.Types.{SystemEventType}
use campusgig_backend.Db.Rows.{MessageThread, Message}
use campusgig_backend.Db.Tx.{Tx, ok, ◌>>=◌, ◌>>◌, return, modify}

-- The smaller id comes first.
unfoldable pub normalize_pair : ℕ → ℕ → ℕ × ℕ
normalize_pair a b = if ltb a b then (a, b) else (b, a)

unfoldable pub find_thread : ℕ × ℕ → List MessageThread → Option MessageThread
find_thread p [] = none
find_thread p (t ∷ ts) =
    if t.user_a_id == p.0 && t.user_b_id == p.1 then some t else find_thread p ts

-- The id of a pair's thread, `new_id` where it has none yet.
unfoldable pub thread_id : ℕ → ℕ × ℕ → List MessageThread → ℕ
unfolding find_thread
thread_id new_id p ts = elim (find_thread p ts) [ some t ↦ t.id | none ↦ new_id ]

-- The threads with the pair's own among them.
unfoldable pub with_thread : ℕ → ℕ × ℕ → List MessageThread → List MessageThread
unfolding find_thread
with_thread new_id p ts = elim (find_thread p ts) [
  | some t ↦ ts
  | none ↦ record { id = new_id; user_a_id = p.0; user_b_id = p.1 } ∷ ts
]

-- `new_id` is the UUID that a new thread would get.
unfoldable pub create_or_get_thread : ℕ → ℕ → ℕ → Tx ℕ
unfolding thread_id with_thread normalize_pair
create_or_get_thread new_id a b d = ok (
  thread_id new_id (normalize_pair a b) d.message_threads,
  record d { message_threads = with_thread new_id (normalize_pair a b) d.message_threads },
)

unfoldable pub insert_system_event : ℕ → ℕ → SystemEventType → ℕ → Tx Message
insert_system_event thread_id order_id type at =
    let m : Message = record {
      thread_id = thread_id;
      order_id = order_id;
      type = type;
      created_at = at;
    } in
    do modify (λ d. record d { messages = m ∷ d.messages }); return m

-- What every order transaction ends with: the thread of buyer and seller, and a message in it.
unfoldable pub announce : ℕ → ℕ → ℕ → ℕ → SystemEventType → ℕ → Tx Message
unfolding create_or_get_thread insert_system_event
announce new_id buyer_id seller_id order_id type at = do
  thread_id ← create_or_get_thread new_id buyer_id seller_id
  insert_system_event thread_id order_id type at
