-- ===== src/Inbox/Read.antt =====
-- What reading and sending do to the numbers of unread messages.
use campusgig_backend.Prelude.{
  ℕ, ◌==◌, ◌≡◌, ◌&&◌, ltb, if◌then◌else◌, List, [], ◌∷◌, some, Bool, count_where, arith, refl, sym,
  ◌∙◌, Bool-cases, inl, inr, subst,
}
use campusgig_backend.Inbox.Rows.{ChatMessage, ReadCursor, Inbox, from_peer}
use campusgig_backend.Inbox.Threads.{last_read, after, is_unread, unread_in}
use campusgig_backend.Inbox.Send.{mark_thread_read, upsert_cursor, latest, id_of}

last_read-upsert_cursor :
    (k u : ℕ) (c : ReadCursor) (cs : List ReadCursor)
    → last_read k u (upsert_cursor c cs)
      ≡ (if c.thread_id == k && c.user_id == u then some c.last_read_at else last_read k u cs)
unfolding last_read upsert_cursor
last_read-upsert_cursor k u c [] = ground arith
last_read-upsert_cursor k u c (x ∷ xs) = ground (arith, last_read-upsert_cursor k u c xs)

abbrev pub later_in : ℕ → ℕ → ChatMessage → Bool
later_in thread_id now m = m.thread_id == thread_id && ltb now m.created_at

-- With a cursor at a time that no message of the thread is after, nothing of the thread is unread.
none_unread :
    (user thread now : ℕ) (ms : List ChatMessage)
    → count_where (later_in thread now) ms ≡ 0
    → count_where
        (λ m. m.thread_id == thread && from_peer user m.sender_id && after (some now) m.created_at)
        ms
      ≡ 0
none_unread user thread now [] h = refl
none_unread user thread now (m ∷ ms) h =
    let rest : count_where (later_in thread now) ms ≡ 0 = ground (arith, h) in
    ground (arith, h, none_unread user thread now ms rest)

-- The messages of one thread see one cursor.
unread_in-cursor :
    (user thread : ℕ) (cs : List ReadCursor) (ms : List ChatMessage)
    → count_where (λ m. m.thread_id == thread && is_unread user cs m) ms
      ≡ count_where
          (λ m.
            m.thread_id == thread
            && from_peer user m.sender_id
            && after (last_read thread user cs) m.created_at)
          ms
unfolding is_unread
unread_in-cursor user thread cs [] = refl
unread_in-cursor user thread cs (m ∷ ms) = elim (Bool-cases (m.thread_id == thread)) [
  | inl e ↦
      let same : m.thread_id ≡ thread = ground (arith, e) in
      ground (arith, e, same, unread_in-cursor user thread cs ms)
  | inr e ↦ ground (arith, e, unread_in-cursor user thread cs ms)
]

-- Reading a thread, at a time that none of its messages is after, reports the number of messages
-- that the reader had not read in it and leaves none; what is unread in other threads, and for other
-- users, stays as it was.
pub mark_thread_read_lem :
    (now thread user : ℕ) (x : Inbox)
    → count_where (later_in thread now) x.messages ≡ 0
    → ((mark_thread_read now thread user x).0 ≡ unread_in user thread x)
      × ((u k : ℕ)
          → unread_in u k (mark_thread_read now thread user x).1
            ≡ (if thread == k && user == u then 0 else unread_in u k x))
unfolding mark_thread_read unread_in
mark_thread_read_lem now thread user x none_later = (
  sym (unread_in-cursor user thread x.cursors x.messages),
  λ u k.
      let cursor : ReadCursor = record {
        thread_id = thread;
        user_id = user;
        last_read_message_id = id_of (latest thread x.messages);
        last_read_at = now;
      } in
      unread_in-cursor u k (upsert_cursor cursor x.cursors) x.messages
      ∙ rw (last_read-upsert_cursor k u cursor x.cursors)
          (elim (Bool-cases (thread == k && user == u)) [
            | inl e ↦
                let same : thread ≡ k = ground (arith, e) in
                let none_here =
                  subst (λ i. count_where (later_in i now) x.messages ≡ 0) same none_later in
                rw e (none_unread u k now x.messages none_here)
            | inr e ↦ rw e (sym (unread_in-cursor u k x.cursors x.messages))
          ]),
)
