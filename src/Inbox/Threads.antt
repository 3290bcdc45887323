-- ===== src/Inbox/Threads.antt =====
-- Threads and their read cursors: `getThreadById`, `frozenCounterpartIds`, `listConversations`,
-- `markThreadRead` and `getUnreadCount` of
-- src/modules/messaging/infrastructure/persistence/prisma-messaging.repository.ts.
use campusgig_backend.Prelude.{
  ℕ, ◌-◌, ◌*◌, ◌==◌, ◌||◌, ◌&&◌, ltb, leb, if◌then◌else◌, List, [], ◌∷◌, Option, none, some, Bool,
  true, false, length, map, filter, includes, count_where, take, drop,
}
use campusgig_backend.Db.Types.{OrderStatus, status_is}
use campusgig_backend.Db.Rows.{Order}
use campusgig_backend.Db.Table.{find}
use campusgig_backend.Inbox.Rows.{Thread, ChatMessage, ReadCursor, Inbox, thread_keyed, from_peer}

abbrev pub has_user : ℕ → Thread → Bool
has_user user_id t = t.user_a_id == user_id || t.user_b_id == user_id

-- The other user of a thread that has this one.
abbrev pub other_user : ℕ → Thread → ℕ
other_user viewer_id t = if t.user_a_id == viewer_id then t.user_b_id else t.user_a_id

-- `getThreadById`: the other user, where the viewer is one of the two
unfoldable pub get_thread_by_id : ℕ → ℕ → List Thread → Option ℕ
get_thread_by_id thread_id viewer_id ts = elim (find thread_id ts) [
  | none ↦ none
  | some t ↦ if has_user viewer_id t then some (other_user viewer_id t) else none
]

-- A frozen order between the viewer and one of the counterparts.
abbrev pub frozen_with : ℕ → List ℕ → Order → Bool
frozen_with viewer_id ids o =
    status_is o.status OrderStatus.frozen
    && (o.buyer_id == viewer_id && includes ids o.seller_id
        || o.seller_id == viewer_id && includes ids o.buyer_id)

-- The ids without those that came before: what a JavaScript `Set` keeps.
abbrev pub distinct : List ℕ → List ℕ → List ℕ
distinct seen [] = []
distinct seen (i ∷ is) =
    let rest = distinct seen is in
    let more = distinct (i ∷ seen) is in if includes seen i then rest else i ∷ more

-- `frozenCounterpartIds`
unfoldable pub frozen_counterpart_ids : ℕ → List ℕ → List Order → List ℕ
frozen_counterpart_ids viewer_id ids orders =
    if length ids == 0
    then []
    else distinct [] (
        map (λ o. if o.buyer_id == viewer_id then o.seller_id else o.buyer_id)
          (filter (frozen_with viewer_id ids) orders))

-- `findUnique({ where: { threadId_userId } })`: when the user has read the thread, if ever
unfoldable pub last_read : ℕ → ℕ → List ReadCursor → Option ℕ
last_read thread_id user_id [] = none
last_read thread_id user_id (c ∷ cs) =
    if c.thread_id == thread_id && c.user_id == user_id
    then some c.last_read_at
    else last_read thread_id user_id cs

abbrev pub after : Option ℕ → ℕ → Bool
after none at = true
after (some read_at) at = ltb read_at at

-- A message that the user has not read: another user's, later than the user's cursor.
unfoldable pub is_unread : ℕ → List ReadCursor → ChatMessage → Bool
unfolding last_read
is_unread user_id cs m =
    from_peer user_id m.sender_id && after (last_read m.thread_id user_id cs) m.created_at

-- The `unreadCount` of a conversation.
unfoldable pub unread_in : ℕ → ℕ → Inbox → ℕ
unfolding is_unread
unread_in user_id thread_id x =
    count_where (λ m. m.thread_id == thread_id && is_unread user_id x.cursors m) x.messages

-- `lastMessageAt` descending with nulls last, then `createdAt` descending.
unfoldable pub recent_first : Thread → Thread → Bool
recent_first a b = elim a.last_message_at [
  | none ↦ elim b.last_message_at [ none ↦ leb b.created_at a.created_at | some _ ↦ false ]
  | some m ↦ elim b.last_message_at [
    | none ↦ true
    | some n ↦ if m == n then leb b.created_at a.created_at else ltb n m
  ]
]

unfoldable pub insert_thread : Thread → List Thread → List Thread
unfolding recent_first
insert_thread t [] = t ∷ []
insert_thread t (x ∷ xs) =
    let rest = insert_thread t xs in if recent_first t x then t ∷ x ∷ xs else x ∷ rest

unfoldable pub by_recency : List Thread → List Thread
unfolding insert_thread
by_recency [] = []
by_recency (t ∷ ts) = insert_thread t (by_recency ts)

pub record Conversation : Type 0 where
  pub thread_id : ℕ
  pub other_user_id : ℕ
  pub unread_count : ℕ
  pub frozen : Bool

abbrev pub conversation : ℕ → Inbox → List ℕ → Thread → Conversation
conversation viewer_id x frozen_ids t = record {
  thread_id = t.id;
  other_user_id = other_user viewer_id t;
  unread_count = unread_in viewer_id t.id x;
  frozen = includes frozen_ids (other_user viewer_id t);
}

-- `listConversations`, without the names, the preview and the presence that it shows besides
unfoldable pub list_conversations : ℕ → ℕ → ℕ → List Order → Inbox → List Conversation × ℕ
unfolding by_recency frozen_counterpart_ids unread_in
list_conversations viewer_id page size orders x =
    let mine = filter (has_user viewer_id) x.threads in
    let shown = take size (drop ((page - 1) * size) (by_recency mine)) in
    let frozen = frozen_counterpart_ids viewer_id (map (other_user viewer_id) shown) orders in
    (map (conversation viewer_id x frozen) shown, count_where (has_user viewer_id) x.threads)

-- The messages that the query of `getUnreadCount` joins with their threads and the user's cursor.
unfoldable pub unread_of_user : ℕ → Inbox → ChatMessage → Bool
unfolding is_unread
unread_of_user user_id x m =
    elim (find m.thread_id x.threads) [ none ↦ false | some t ↦ has_user user_id t ]
    && is_unread user_id x.cursors m

-- `getUnreadCount`: `COUNT(DISTINCT "threadId")`
unfoldable pub get_unread_count : ℕ → Inbox → ℕ
unfolding unread_of_user
get_unread_count user_id x =
    length (distinct [] (map (λ m. m.thread_id) (filter (unread_of_user user_id x) x.messages)))
