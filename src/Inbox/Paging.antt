-- ===== src/Inbox/Paging.antt =====
-- Walking back through a thread page by page, each page from the last message of the one before.
use campusgig_backend.Prelude.{
  ℕ, suc, zero, ◌+◌, ◌≡◌, List, [], ◌∷◌, ◌++◌, Option, none, some, Bool, true, arith, refl, sym,
  ◌∙◌, filter, take, drop, take-drop, subst,
}
use campusgig_backend.Db.Rows.{Order}
use campusgig_backend.Db.Table.{find}
use campusgig_backend.Inbox.Rows.{ChatMessage, Inbox, chat_message_keyed}
use campusgig_backend.Inbox.Messages.{
  newer, newest_first, scope, page_before, page_in, list_messages,
}
use campusgig_backend.Inbox.Newest.{
  DistinctIds, NewerThanAll, Descending, newer_asym, newer_self, newest_first-Descending,
  DistinctIds-filter,
}

-- A row is newer than the last one of any page of the rows behind it.
newer_last :
    (x l : ChatMessage) (n : ℕ) (xs ys : List ChatMessage)
    → NewerThanAll x xs
    → take n xs ≡ ys ++ l ∷ []
    → newer x l ≡ true
unfolding NewerThanAll
newer_last x l zero xs [] h e = absurd (ground (arith, e))
newer_last x l zero xs (y ∷ ys) h e = absurd (ground (arith, e))
newer_last x l (suc n) [] [] h e = absurd (ground (arith, e))
newer_last x l (suc n) [] (y ∷ ys) h e = absurd (ground (arith, e))
newer_last x l (suc n) (a ∷ xs) [] (h, hs) e =
    let same : a ≡ l = ground (arith, e) in subst (λ m. newer x m ≡ true) same h
newer_last x l (suc n) (a ∷ xs) (y ∷ ys) (h, hs) e = newer_last x l n xs ys hs (ground (arith, e))

-- Filtering by a row that is newer than all keeps all.
filter-newer :
    (x : ChatMessage) (xs : List ChatMessage) → NewerThanAll x xs → filter (newer x) xs ≡ xs
unfolding NewerThanAll
filter-newer x [] h = refl
filter-newer x (a ∷ xs) (h, hs) = rw (h, filter-newer x xs hs)

drop-take_nil : (n : ℕ) (xs : List ChatMessage) → take n xs ≡ [] → drop n xs ≡ xs
drop-take_nil zero xs e = refl
drop-take_nil (suc n) [] e = refl
drop-take_nil (suc n) (x ∷ xs) e = absurd (ground (arith, e))

-- What is older than the last row of a page is what follows the page.
filter-last :
    (l : ChatMessage) (n : ℕ) (xs ys : List ChatMessage)
    → Descending xs
    → take n xs ≡ ys ++ l ∷ []
    → filter (newer l) xs ≡ drop n xs
unfolding Descending
filter-last l zero xs [] h e = absurd (ground (arith, e))
filter-last l zero xs (y ∷ ys) h e = absurd (ground (arith, e))
filter-last l (suc n) [] [] h e = absurd (ground (arith, e))
filter-last l (suc n) [] (y ∷ ys) h e = absurd (ground (arith, e))
filter-last l (suc n) (x ∷ xs) [] (h, hs) e =
    let same : x ≡ l = ground (arith, e) in
    let none_left : take n xs ≡ [] = ground (arith, e) in
    subst (λ m. filter (newer m) (x ∷ xs) ≡ drop n xs) same
      (rw (newer_self x) (filter-newer x xs h ∙ sym (drop-take_nil n xs none_left)))
filter-last l (suc n) (x ∷ xs) (y ∷ ys) (h, hs) e =
    let page : take n xs ≡ ys ++ l ∷ [] = ground (arith, e) in
    rw (newer_asym x l (newer_last x l n xs ys h page)) (filter-last l n xs ys hs page)

filter-every : (xs : List ChatMessage) → filter (λ m. true) xs ≡ xs
filter-every [] = refl
filter-every (x ∷ xs) = rw (filter-every xs)

page_before-next :
    (shown : ChatMessage → Bool) (n m : ℕ) (l : ChatMessage) (ys ms : List ChatMessage)
    → DistinctIds ms
    → find l.id ms ≡ some l
    → page_before shown none n ms ≡ ys ++ l ∷ []
    → page_before shown none n ms ++ page_before shown (some l.id) m ms
      ≡ page_before shown none (n + m) ms
unfolding page_before
page_before-next shown n m l ys ms distinct found page =
    let rows = newest_first (filter shown ms) in
    let sorted = newest_first-Descending (filter shown ms) (DistinctIds-filter shown ms distinct) in
    let all_rows = filter-every rows in
    let first : take n rows ≡ ys ++ l ∷ [] = rw all_rows at page in
    let behind = filter-last l n rows ys sorted first in
    rw (found, all_rows, behind) (take-drop n m rows)

page_in-next :
    (o : Option (ChatMessage → Bool)) (n m : ℕ) (l : ChatMessage) (ys ms : List ChatMessage)
    → DistinctIds ms
    → find l.id ms ≡ some l
    → page_in o none n ms ≡ ys ++ l ∷ []
    → page_in o none n ms ++ page_in o (some l.id) m ms ≡ page_in o none (n + m) ms
unfolding page_in
page_in-next none n m l ys ms distinct found page = refl
page_in-next (some shown) n m l ys ms distinct found page =
    page_before-next shown n m l ys ms distinct found page

-- Where no two messages have one id: after a page, in a thread or in an order's workspace, the page
-- before its last message is what follows it. The two together are the page of both sizes.
pub list_messages-next :
    (thread n m : ℕ) (order : Option ℕ) (orders : List Order) (x : Inbox) (l : ChatMessage)
    (ys : List ChatMessage)
    → DistinctIds x.messages
    → find l.id x.messages ≡ some l
    → list_messages thread none n order orders x ≡ ys ++ l ∷ []
    → list_messages thread none n order orders x
        ++ list_messages thread (some l.id) m order orders x
      ≡ list_messages thread none (n + m) order orders x
unfolding list_messages
list_messages-next thread n m order orders x l ys distinct found page =
    page_in-next (scope thread order orders) n m l ys x.messages distinct found page
