-- ===== src/Reviews/Replied.antt =====
-- When a review is submitted and when it is answered, and what any sequence of such calls keeps.
use campusgig_backend.Prelude.{
  ℕ, ◌≡◌, ◌≢◌, ◌↔◌, none, some, true, inl, inr, arith, done, Option-cases,
}
use campusgig_backend.Db.Types.{Text, is_active}
use campusgig_backend.Db.Table.{find, put, find_key, find-put, order_keyed, gig_keyed}
use campusgig_backend.Db.Rows.{Gig}
use campusgig_backend.Reviews.Rows.{
  Review, Store, gig_rating_keyed, user_rating_keyed, review_keyed,
}
use campusgig_backend.Reviews.Submit.{reply_to_review, already_replied}

abbrev pub replied_review : ℕ → Text → Review → Review
replied_review now body r = record r { reply_body = some body; replied_at = some now }

-- A reply that the seller may give, and what it writes.
abbrev pub Answered : ℕ → ℕ → ℕ → Text → Store → Store → Review → Type 0
Answered now viewer i body s s' r' =
    (r : Review) × (g : Gig) × (find i s.reviews ≡ some r)
    × (find r.gig_id s.db.gigs ≡ some g)
    × (r.seller_id ≡ viewer)
    × (r.reply_body ≡ none)
    × (is_active g.status ≡ true)
    × (r' ≡ replied_review now body r)
    × (s' ≡ record s { reviews = put (replied_review now body r) s.reviews })

-- A reply is given exactly by the seller of a review that has none, while its gig is active; and it
-- writes the reply into that review alone.
pub reply_to_review-Returns :
    (now viewer i : ℕ) (body : Text) (s s' : Store) (r' : Review)
    → (reply_to_review now viewer i body s ≡ done (r', s')) ↔ Answered now viewer i body s s' r'
unfolding reply_to_review already_replied
reply_to_review-Returns now viewer i body s s' r' = (
  λ h. elim (Option-cases (find i s.reviews)) [
    | inl e ↦ absurd (ground (arith, e, h))
    | inr (r, e) ↦ elim (Option-cases (find r.gig_id s.db.gigs)) [
      | inl f ↦ absurd (ground (arith, e, f, h))
      | inr (g, f) ↦ elim (Option-cases r.reply_body) [
        | inr (x, k) ↦ absurd (ground (arith, e, f, k, h))
        | inl k ↦ (
          r,
          g,
          e,
          f,
          ground (arith, e, f, k, h),
          k,
          ground (arith, e, f, k, h),
          ground (arith, e, f, k, h),
          ground (arith, e, f, k, h),
        )
      ]
    ]
  ],
  λ (r, g, e, f, seller, k, active, new, store).
      ground (arith, e, f, seller, k, active, new, store),
)

-- The row that a reply leaves.
pub Answered-found :
    (now viewer i : ℕ) (body : Text) (s s' : Store) (r' : Review)
    → Answered now viewer i body s s' r'
    → find i s'.reviews ≡ some r'
Answered-found now viewer i body s s' r' (r, g, e, f, seller, k, active, new, store) =
    let key = find_key i s.reviews r e in
    rw (store, new) (ground (arith, key, e, find-put i (replied_review now body r) s.reviews r))

Answered-again :
    (now viewer i : ℕ) (body : Text) (s s' : Store) (r' : Review) (later viewer' : ℕ) (body' : Text)
    (s'' : Store) (r'' : Review)
    → Answered now viewer i body s s' r'
    → Answered later viewer' i body' s' s'' r''
    → ⊥
Answered-again now viewer i body s s' r' later viewer' body' s'' r'' first
      (x, g, e, f, seller, k, active, new, store) =
    let found = Answered-found now viewer i body s s' r' first in
    let (r, g2, e2, f2, seller2, k2, active2, new2, store2) = first in
    ground (arith, found, e, k, new2)

-- A review that has been answered is not answered again.
pub reply_to_review-once :
    (now viewer i : ℕ) (body : Text) (s s' : Store) (r' : Review) (later viewer' : ℕ) (body' : Text)
    (x : Review × Store)
    → reply_to_review now viewer i body s ≡ done (r', s')
    → reply_to_review later viewer' i body' s' ≢ done x
reply_to_review-once now viewer i body s s' r' later viewer' body' x h again =
    Answered-again now viewer i body s s' r' later viewer' body' x.1 x.0
      ((reply_to_review-Returns now viewer i body s s' r').0 h)
      ((reply_to_review-Returns later viewer' i body' s' x.1 x.0).0 again)
