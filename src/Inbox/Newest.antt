-- ===== src/Inbox/Newest.antt =====
-- The order of messages: newest first, strictly, where no two have one id.
use campusgig_backend.Prelude.{
  ◌==◌, ◌≡◌, List, [], ◌∷◌, Bool, true, false, arith, Bool-cases, inl, inr, filter,
}
use campusgig_backend.Inbox.Rows.{ChatMessage, chat_message_keyed}
use campusgig_backend.Inbox.Messages.{newer, insert_message_row, newest_first}

-- The id is none of theirs.
unfoldable pub Apart : ChatMessage → List ChatMessage → Type 0
Apart m [] = Unit
Apart m (x ∷ xs) = ((m.id == x.id) ≡ false) × Apart m xs

-- The id is a key.
unfoldable pub DistinctIds : List ChatMessage → Type 0
unfolding Apart
DistinctIds [] = Unit
DistinctIds (m ∷ ms) = Apart m ms × DistinctIds ms

unfoldable pub NewerThanAll : ChatMessage → List ChatMessage → Type 0
NewerThanAll m [] = Unit
NewerThanAll m (x ∷ xs) = (newer m x ≡ true) × NewerThanAll m xs

unfoldable pub Descending : List ChatMessage → Type 0
unfolding NewerThanAll
Descending [] = Unit
Descending (m ∷ ms) = NewerThanAll m ms × Descending ms

newer_trans : (a b c : ChatMessage) → newer a b ≡ true → newer b c ≡ true → newer a c ≡ true
unfolding newer
newer_trans a b c h k = ground (arith, h, k)

newer_flip : (a b : ChatMessage) → newer a b ≡ false → (a.id == b.id) ≡ false → newer b a ≡ true
unfolding newer
newer_flip a b h k = ground (arith, h, k)

pub newer_asym : (a b : ChatMessage) → newer a b ≡ true → newer b a ≡ false
unfolding newer
newer_asym a b h = ground (arith, h)

pub newer_self : (a : ChatMessage) → newer a a ≡ false
unfolding newer
newer_self a = ground arith

NewerThanAll-trans :
    (a b : ChatMessage) (xs : List ChatMessage)
    → newer a b ≡ true
    → NewerThanAll b xs
    → NewerThanAll a xs
unfolding NewerThanAll
NewerThanAll-trans a b [] h k = tt
NewerThanAll-trans a b (x ∷ xs) h (k, ks) = (newer_trans a b x h k, NewerThanAll-trans a b xs h ks)

NewerThanAll-insert :
    (a m : ChatMessage) (xs : List ChatMessage)
    → newer a m ≡ true
    → NewerThanAll a xs
    → NewerThanAll a (insert_message_row m xs)
unfolding NewerThanAll insert_message_row
NewerThanAll-insert a m [] h k = (h, tt)
NewerThanAll-insert a m (x ∷ xs) h (k, ks) = elim (Bool-cases (newer m x)) [
  | inl e ↦ rw e (h, (k, ks))
  | inr e ↦ rw e (k, NewerThanAll-insert a m xs h ks)
]

insert-Descending :
    (m : ChatMessage) (xs : List ChatMessage)
    → Apart m xs
    → Descending xs
    → Descending (insert_message_row m xs)
unfolding Descending insert_message_row Apart
insert-Descending m [] apart h = (tt, tt)
insert-Descending m (x ∷ xs) (other, apart) (first, rest) = elim (Bool-cases (newer m x)) [
  | inl e ↦ rw e ((e, NewerThanAll-trans m x xs e first), (first, rest))
  | inr e ↦
      rw e (
        NewerThanAll-insert x m xs (newer_flip m x e other) first,
        insert-Descending m xs apart rest,
      )
]

Apart-insert :
    (a m : ChatMessage) (xs : List ChatMessage)
    → (a.id == m.id) ≡ false
    → Apart a xs
    → Apart a (insert_message_row m xs)
unfolding Apart insert_message_row
Apart-insert a m [] h k = (h, tt)
Apart-insert a m (x ∷ xs) h (k, ks) = elim (Bool-cases (newer m x)) [
  | inl e ↦ rw e (h, (k, ks))
  | inr e ↦ rw e (k, Apart-insert a m xs h ks)
]

Apart-newest_first :
    (a : ChatMessage) (xs : List ChatMessage) → Apart a xs → Apart a (newest_first xs)
unfolding Apart newest_first
Apart-newest_first a [] h = tt
Apart-newest_first a (x ∷ xs) (h, hs) =
    Apart-insert a x (newest_first xs) h (Apart-newest_first a xs hs)

pub newest_first-Descending :
    (xs : List ChatMessage) → DistinctIds xs → Descending (newest_first xs)
unfolding DistinctIds Descending newest_first
newest_first-Descending [] h = tt
newest_first-Descending (x ∷ xs) (h, hs) =
    insert-Descending x (newest_first xs) (Apart-newest_first x xs h)
      (newest_first-Descending xs hs)

Apart-filter :
    (a : ChatMessage) (p : ChatMessage → Bool) (xs : List ChatMessage)
    → Apart a xs
    → Apart a (filter p xs)
unfolding Apart
Apart-filter a p [] h = tt
Apart-filter a p (x ∷ xs) (h, hs) = elim (Bool-cases (p x)) [
  | inl e ↦ rw e (h, Apart-filter a p xs hs)
  | inr e ↦ rw e (Apart-filter a p xs hs)
]

pub DistinctIds-filter :
    (p : ChatMessage → Bool) (xs : List ChatMessage) → DistinctIds xs → DistinctIds (filter p xs)
unfolding DistinctIds
DistinctIds-filter p [] h = tt
DistinctIds-filter p (x ∷ xs) (h, hs) = elim (Bool-cases (p x)) [
  | inl e ↦ rw e (Apart-filter x p xs h, DistinctIds-filter p xs hs)
  | inr e ↦ rw e (DistinctIds-filter p xs hs)
]
