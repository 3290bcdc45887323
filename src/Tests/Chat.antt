-- ===== src/Tests/Chat.antt =====
-- Messages, pages and order codes.
use campusgig_backend.Prelude.{
  inl, ℕ, ◌≡◌, ◌==◌, ◌&&◌, ◌+◌, ◌++◌, [], ◌∷◌, none, some, true, false, List, drop, refl, text,
  arith, if◌then◌else◌,
}
use campusgig_backend.Db.Table.{find}
use campusgig_backend.Inbox.Rows.{ChatMessage, Inbox, chat_message_keyed}
use campusgig_backend.Inbox.Threads.{unread_in}
use campusgig_backend.Inbox.Send.{mark_thread_read}
use campusgig_backend.Inbox.Read.{mark_thread_read_lem}
use campusgig_backend.Inbox.Messages.{list_messages}
use campusgig_backend.Inbox.Newest.{DistinctIds}
use campusgig_backend.Inbox.Paging.{list_messages-next}
use campusgig_backend.Shared.Pagination.{calculate_pagination, pages, pages-all}
use campusgig_backend.Shared.OrderCode.{
  numeric_like, parse_from, format_order_code-found, format_order_code,
}
use campusgig_backend.Shared.Idempotency.{
  Requests, arrived, conflict, running, run, in_turn, run-in_turn, call, step, advance, happen,
}
use campusgig_backend.Shared.Exclusive.{
  Exclusive, Turn, attended, expired, take_turn, attend, Lasting, serve, serve-Exclusive, unlocked,
  at_rest,
}

-- Message `i` of user `from` in thread 1, at its time.
abbrev message : ℕ → ℕ → ℕ → ChatMessage
message i from at = record {
  id = i;
  thread_id = 1;
  sender_id = some from;
  body = some (text "Hi");
  order_id = none;
  created_at = at;
}

abbrev chat : Inbox
chat = record {
  threads =
      record {
        id = 1;
        user_a_id = 10;
        user_b_id = 20;
        last_message_at = some 102;
        created_at = 100;
      }
      ∷ [];
  messages = message 5 10 102 ∷ message 4 10 101 ∷ message 3 20 101 ∷ [];
  attachments = [];
  cursors = [];
}

mark_thread_read_lem_example :
    ((mark_thread_read 200 1 20 chat).0 ≡ unread_in 20 1 chat)
    × ((u k : ℕ)
        → unread_in u k (mark_thread_read 200 1 20 chat).1
          ≡ (if 1 == k && 20 == u then 0 else unread_in u k chat))
mark_thread_read_lem_example = mark_thread_read_lem 200 1 20 chat refl

-- The seller has two messages to read.
chat_unread : unread_in 20 1 chat ≡ 2
unfolding unread_in
chat_unread = refl

list_messages-next_example :
    list_messages 1 none 2 none [] chat ++ list_messages 1 (some 4) 2 none [] chat
    ≡ list_messages 1 none (2 + 2) none [] chat
unfolding list_messages DistinctIds find
list_messages-next_example =
    list_messages-next 1 2 2 none [] chat (message 4 10 101) (message 5 10 102 ∷ [])
      ((refl, (refl, tt)), ((refl, tt), (tt, tt))) refl refl

pages-all_example :
    pages {A = ℕ} (calculate_pagination 1 2 3).total_pages 2 (7 ∷ 8 ∷ 9 ∷ []) ≡ 7 ∷ 8 ∷ 9 ∷ []
pages-all_example = pages-all 1 2 (7 ∷ 8 ∷ 9 ∷ []) (omega arith)

-- Three rows make two pages of two.
three_rows : (calculate_pagination 1 2 3).total_pages ≡ 2
unfolding calculate_pagination
three_rows = refl

format_order_code-found_example :
    (numeric_like (drop 3 (format_order_code 42)) ≡ true)
    × (parse_from 0 (drop 3 (format_order_code 42)) ≡ 42)
    × (numeric_like (format_order_code 42) ≡ false)
format_order_code-found_example = format_order_code-found 42 (omega arith)

order_42 : format_order_code 42 ≡ text "CG-0042"
unfolding format_order_code
order_42 = refl

-- No request has come yet.
abbrev fresh : Requests
fresh = record { cache = none; phase = λ k. arrived }

run-in_turn_example :
    ((run (in_turn 1 2 (some (text "ok"))) fresh).phase 1 ≡ running)
    × ((run (in_turn 1 2 (some (text "ok"))) fresh).phase 2 ≡ running)
run-in_turn_example = run-in_turn 1 2 (some (text "ok")) fresh refl refl refl refl

-- Two requests, an answer that expires, and a third request that fails.
abbrev three_turns : List Turn
three_turns =
    attended 1 (some (text "ok"))
    ∷ attended 1 (some (text "ok"))
    ∷ attended 2 none
    ∷ expired
    ∷ attended 3 none
    ∷ []

serve-Exclusive_example : Exclusive (serve three_turns fresh)
unfolding Exclusive Lasting take_turn attend step advance unlocked at_rest
serve-Exclusive_example = serve-Exclusive three_turns fresh (refl, tt) (inl (refl, λ k. refl))

-- The request that comes second, uninterrupted, meets the lock of the first.
second_conflicts : (serve (attended 1 none ∷ attended 2 none ∷ []) fresh).phase 2 ≡ conflict
unfolding serve
second_conflicts = refl

-- Where the calls of the second request throw, its handler runs beside that of the first.
second_runs :
    (run
        (call 1 true none
          ∷ call 1 true none
          ∷ call 1 true none
          ∷ call 2 false none
          ∷ call 2 false none
          ∷ [])
        fresh).phase
      2
    ≡ running
unfolding run
second_runs = refl

-- So it does where the lock expires first.
second_runs_late :
    (serve (attended 1 none ∷ expired ∷ attended 2 none ∷ []) fresh).phase 2 ≡ running
unfolding serve happen
second_runs_late = refl
