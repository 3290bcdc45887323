-- ===== src/Reviews/History.antt =====
-- What any sequence of submissions and replies keeps, with what the other modules do in between where
-- they remove no order, user or gig.
use campusgig_backend.Prelude.{
  ℕ, ◌≡◌, ◌↔◌, List, ◌∷◌, Option, count_where, none, some, Bool, true, false, inl, inr, arith, refl,
  done, Option-cases, Outcome-cases,
}
use campusgig_backend.Db.Types.{Text, OrderStatus, status_is}
use campusgig_backend.Db.Table.{find, put, find_key, order_keyed, gig_keyed, user_keyed}
use campusgig_backend.Db.Rows.{Order, Db}
use campusgig_backend.Db.Tx.{Env}
use campusgig_backend.Reviews.Rows.{
  Review, GigRating, UserRating, Store, gig_rating_keyed, user_rating_keyed, review_keyed,
}
use campusgig_backend.Reviews.Submit.{
  submit_review, submit_review_command, find_by_order_id, reply_to_review,
}
use campusgig_backend.Reviews.Aggregates.{
  AggregatesAgree, GigsAgree, UsersAgree, CountsGig, CountsUser, of_gig, of_seller, stars,
}
use campusgig_backend.Reviews.Unrated.{
  unrated_gig, unrated_user, unrated-GigsAgree, unrated-UsersAgree,
}
use campusgig_backend.Reviews.Submitted.{
  OnePerOrder, submit_review-Agree, submit_review-OnePerOrder, count_where-put, sum_where-put,
  of_order,
}
use campusgig_backend.Reviews.Replied.{Answered, reply_to_review-Returns, replied_review}

-- What no reply and no submission breaks.
abbrev pub Sound : Store → Type 0
Sound s = AggregatesAgree s × OnePerOrder s

Answered-CountsGig :
    (i : ℕ) (r old : Review) (rs : List Review) (o : Option GigRating)
    → find r.id rs ≡ some old
    → r.gig_id ≡ old.gig_id
    → r.rating_half_stars ≡ old.rating_half_stars
    → CountsGig i rs o
    → CountsGig i (put r rs) o
Answered-CountsGig i r old rs none e gig rating h = tt
Answered-CountsGig i r old rs (some g) e gig rating h =
    rw
      (
        count_where-put (of_gig i) r old rs e (rw gig),
        sum_where-put (of_gig i) stars r old rs e (rw gig) rating,
      )
      h

Answered-CountsUser :
    (i : ℕ) (r old : Review) (rs : List Review) (o : Option UserRating)
    → find r.id rs ≡ some old
    → r.seller_id ≡ old.seller_id
    → r.rating_half_stars ≡ old.rating_half_stars
    → CountsUser i rs o
    → CountsUser i (put r rs) o
Answered-CountsUser i r old rs none e seller rating h = tt
Answered-CountsUser i r old rs (some u) e seller rating h =
    rw
      (
        count_where-put (of_seller i) r old rs e (rw seller),
        sum_where-put (of_seller i) stars r old rs e (rw seller) rating,
      )
      h

Answered-Sound :
    (now viewer i : ℕ) (body : Text) (s s' : Store) (r' : Review)
    → Sound s
    → Answered now viewer i body s s' r'
    → Sound s'
unfolding GigsAgree UsersAgree OnePerOrder
Answered-Sound now viewer i body s s' r' ((gigs, users), one)
      (r, g, e, f, seller, k, active, new, store) =
    let key = find_key i s.reviews r e in
    let found : find r.id s.reviews ≡ some r = ground (arith, key, e) in
    let answered = replied_review now body r in
    rw store (
      (
        λ j.
            Answered-CountsGig j answered r s.reviews (find j s.gig_ratings) found refl refl
              (gigs j),
        λ j.
            Answered-CountsUser j answered r s.reviews (find j s.user_ratings) found refl refl
              (users j),
      ),
      λ j. rw (count_where-put (of_order j) answered r s.reviews found refl) (one j),
    )

abbrev pub is_there : {A : Type 0} → Option A → Bool
is_there none = false
is_there (some a) = true

-- Every order, user and gig that was there still is: the schema deletes the reviews of an order or a
-- user that is deleted, which the code outside of prisma/ never does.
unfoldable pub StillThere : Db → Db → Type 0
StillThere d d' =
    (i : ℕ)
    → (is_there (find i d.orders) ≡ true → is_there (find i d'.orders) ≡ true)
      × (is_there (find i d.users) ≡ true → is_there (find i d'.users) ≡ true)
      × (is_there (find i d.gigs) ≡ true → is_there (find i d'.gigs) ≡ true)

-- A call that returned, the work of another module on rows that stay, or the row of a new gig or user,
-- which has no reviews yet.
pub data Step : Store → Store → Type 0 where
  submitted :
      (env : Env) (viewer order_id rating : ℕ) (body : Text) (s s' : Store) (r : Review)
      → submit_review_command env viewer order_id rating body s ≡ done (r, s')
      → Step s s'
  replied :
      (now viewer i : ℕ) (body : Text) (s s' : Store) (r : Review)
      → reply_to_review now viewer i body s ≡ done (r, s')
      → Step s s'
  elsewhere : (s : Store) (d : Db) → StillThere s.db d → Step s (record s { db = d })
  listed :
      (id : ℕ) (s : Store)
      → count_where (of_gig id) s.reviews ≡ 0
      → Step s (record s { gig_ratings = unrated_gig id ∷ s.gig_ratings })
  joined :
      (id : ℕ) (s : Store)
      → count_where (of_seller id) s.reviews ≡ 0
      → Step s (record s { user_ratings = unrated_user id ∷ s.user_ratings })

pub data Steps : Store → Store → Type 0 where
  stop : (s : Store) → Steps s s
  step : (s s' s'' : Store) → Step s s' → Steps s' s'' → Steps s s''

-- A submission is accepted exactly from the buyer of a completed order that has no review, whose
-- gig and seller are in the tables.
pub submit_review_command-Returns :
    (env : Env) (viewer order_id rating : ℕ) (body : Text) (s : Store)
    → ((x : Review × Store) × (submit_review_command env viewer order_id rating body s ≡ done x))
      ↔ ((o : Order) × (g : GigRating) × (u : UserRating) × (find order_id s.db.orders ≡ some o)
          × (status_is o.status OrderStatus.completed ≡ true)
          × (o.buyer_id ≡ viewer)
          × (find_by_order_id order_id s.reviews ≡ none)
          × (find o.gig_id s.gig_ratings ≡ some g)
          × (find o.seller_id s.user_ratings ≡ some u))
unfolding submit_review_command submit_review
submit_review_command-Returns env viewer order_id rating body s = (
  λ (x, h). elim (Option-cases (find order_id s.db.orders)) [
    | inl e ↦ absurd (ground (arith, e, h))
    | inr (o, e) ↦
        let key = find_key order_id s.db.orders o e in
        elim (Option-cases (find_by_order_id order_id s.reviews)) [
          | inr (y, f) ↦ absurd (ground (arith, e, f, h))
          | inl f ↦
              let f' : find_by_order_id o.id s.reviews ≡ none = rw key f in
              elim (Option-cases (find o.gig_id s.gig_ratings)) [
                | inl k ↦ absurd (ground (arith, e, f, f', k, h))
                | inr (g, k) ↦ elim (Option-cases (find o.seller_id s.user_ratings)) [
                  | inl l ↦ absurd (ground (arith, e, f, f', k, l, h))
                  | inr (u, l) ↦ (
                    o,
                    g,
                    u,
                    e,
                    ground (arith, e, f, k, l, h),
                    ground (arith, e, f, k, l, h),
                    f,
                    k,
                    l,
                  )
                ]
              ]
        ]
  ],
  λ (o, g, u, e, completed, buyer, f, k, l).
      let key = find_key order_id s.db.orders o e in
      let f' : find_by_order_id o.id s.reviews ≡ none = rw key f in
      elim (Outcome-cases (submit_review_command env viewer order_id rating body s)) [
        | inl (x, q) ↦ absurd (ground (arith, e, completed, buyer, f, f', k, l, q))
        | inr (x, q) ↦ (x, q)
      ],
)

-- What the handler returns is what the repository returns.
command-submits :
    (env : Env) (viewer order_id rating : ℕ) (body : Text) (s : Store) (x : Review × Store)
    → submit_review_command env viewer order_id rating body s ≡ done x
    → submit_review env order_id viewer rating body s ≡ done x
unfolding submit_review_command
command-submits env viewer order_id rating body s x h =
    elim (Option-cases (find order_id s.db.orders)) [
      | inl e ↦ absurd (ground (arith, e, h))
      | inr (o, e) ↦ elim (Option-cases (find_by_order_id order_id s.reviews)) [
        | inr (y, f) ↦ absurd (ground (arith, e, f, h))
        | inl f ↦ ground (arith, e, f, h)
      ]
    ]

Step-Sound : {s s' : Store} → Step s s' → Sound s → Sound s'
unfolding GigsAgree UsersAgree OnePerOrder
Step-Sound (submitted env viewer order_id rating body s s' r h) (agree, one) =
    let h' = command-submits env viewer order_id rating body s (r, s') h in
    (
      submit_review-Agree env order_id viewer rating body s s' r agree h',
      submit_review-OnePerOrder env order_id viewer rating body s s' r one h',
    )
Step-Sound (replied now viewer i body s s' r h) sound =
    Answered-Sound now viewer i body s s' r sound
      ((reply_to_review-Returns now viewer i body s s' r).0 h)
Step-Sound (elsewhere s d kept) sound = sound
Step-Sound (listed id s fresh) ((gigs, users), one) =
    ((unrated-GigsAgree id s.reviews s.gig_ratings fresh gigs, users), one)
Step-Sound (joined id s fresh) ((gigs, users), one) =
    ((gigs, unrated-UsersAgree id s.reviews s.user_ratings fresh users), one)

-- However submissions and replies follow each other, with what the other modules do in between as
-- long as no order, user or gig is removed from its table, new gigs and users without reviews
-- included: each gig's and each seller's counters stay the number and the sum of their reviews, each
-- gig's average their quotient, and no order has two reviews, if it was so at first.
pub Steps-Sound : {s s' : Store} → Steps s s' → Sound s → Sound s'
Steps-Sound (stop s) sound = sound
Steps-Sound (step s s' s'' here rest) sound = Steps-Sound rest (Step-Sound here sound)
