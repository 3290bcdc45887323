-- ===== src/Reviews/Submitted.antt =====
-- What the submission of a review and a reply do, and what they keep.
use campusgig_backend.Prelude.{
  ℕ, ◌==◌, ◌≡◌, ◌≤◌, List, [], ◌∷◌, none, some, Bool, inl, inr, count_where, sum_where, arith, refl,
  done, Option-cases,
}
use campusgig_backend.Db.Types.{Text}
use campusgig_backend.Db.Table.{Keyed, find, put, order_keyed, gig_keyed}
use campusgig_backend.Db.Rows.{Order}
use campusgig_backend.Db.Tx.{Env}
use campusgig_backend.Reviews.Rows.{
  Review, GigRating, UserRating, Store, gig_rating_keyed, user_rating_keyed, review_keyed,
}
use campusgig_backend.Reviews.Submit.{
  rate_gig, rate_user, submit_review, find_by_order_id, new_review,
}
use campusgig_backend.Reviews.Aggregates.{AggregatesAgree, rate_gig-Agree, rate_user-Agree}

abbrev pub of_order : ℕ → Review → Bool
of_order i r = r.order_id == i

-- A submission that returns.
abbrev Submitted : Env → ℕ → ℕ → ℕ → Text → Store → Store → Type 0
Submitted env order_id buyer_id rating body s s' =
    (o : Order) × (g : GigRating) × (u : UserRating) × (find order_id s.db.orders ≡ some o)
    × (find_by_order_id o.id s.reviews ≡ none)
    × (find o.gig_id s.gig_ratings ≡ some g)
    × (find o.seller_id s.user_ratings ≡ some u)
    × (s'.reviews ≡ new_review env buyer_id rating body o ∷ s.reviews)
    × (s'.gig_ratings ≡ put (rate_gig rating g) s.gig_ratings)
    × (s'.user_ratings ≡ put (rate_user rating u) s.user_ratings)

submit_review-Submitted :
    (env : Env) (order_id buyer_id rating : ℕ) (body : Text) (s s' : Store) (r : Review)
    → submit_review env order_id buyer_id rating body s ≡ done (r, s')
    → Submitted env order_id buyer_id rating body s s'
unfolding submit_review
submit_review-Submitted env order_id buyer_id rating body s s' r h =
    elim (Option-cases (find order_id s.db.orders)) [
      | inl e ↦ absurd (ground (arith, e, h))
      | inr (o, e) ↦ elim (Option-cases (find_by_order_id o.id s.reviews)) [
        | inr (x, f) ↦ absurd (ground (arith, e, f, h))
        | inl f ↦ elim (Option-cases (find o.gig_id s.gig_ratings)) [
          | inl k ↦ absurd (ground (arith, e, f, k, h))
          | inr (g, k) ↦ elim (Option-cases (find o.seller_id s.user_ratings)) [
            | inl l ↦ absurd (ground (arith, e, f, k, l, h))
            | inr (u, l) ↦ (
              o,
              g,
              u,
              e,
              f,
              k,
              l,
              ground (arith, e, f, k, l, h),
              ground (arith, e, f, k, l, h),
              ground (arith, e, f, k, l, h),
            )
          ]
        ]
      ]
    ]

Submitted-Agree :
    (env : Env) (order_id buyer_id rating : ℕ) (body : Text) (s s' : Store)
    → AggregatesAgree s
    → Submitted env order_id buyer_id rating body s s'
    → AggregatesAgree s'
Submitted-Agree env order_id buyer_id rating body s s' agree
      (o, g, u, e, f, k, l, reviews, gigs, users) =
    let new = new_review env buyer_id rating body o in
    (
      rw (reviews, gigs) (rate_gig-Agree new s.reviews s.gig_ratings g k agree.0),
      rw (reviews, users) (rate_user-Agree new s.reviews s.user_ratings u l agree.1),
    )

-- A review that is submitted keeps the counters of gigs and users equal to the reviews.
pub submit_review-Agree :
    (env : Env) (order_id buyer_id rating : ℕ) (body : Text) (s s' : Store) (r : Review)
    → AggregatesAgree s
    → submit_review env order_id buyer_id rating body s ≡ done (r, s')
    → AggregatesAgree s'
submit_review-Agree env order_id buyer_id rating body s s' r agree h =
    Submitted-Agree env order_id buyer_id rating body s s' agree
      (submit_review-Submitted env order_id buyer_id rating body s s' r h)

-- No order has two reviews.
unfoldable pub OnePerOrder : Store → Type 0
OnePerOrder s = (i : ℕ) → count_where (of_order i) s.reviews ≤ 1

none-of_order :
    (i : ℕ) (rs : List Review) → find_by_order_id i rs ≡ none → count_where (of_order i) rs ≡ 0
unfolding find_by_order_id
none-of_order i [] h = refl
none-of_order i (r ∷ rs) h = ground (arith, h, none-of_order i rs)

Submitted-OnePerOrder :
    (env : Env) (order_id buyer_id rating : ℕ) (body : Text) (s s' : Store)
    → OnePerOrder s
    → Submitted env order_id buyer_id rating body s s'
    → OnePerOrder s'
unfolding OnePerOrder
Submitted-OnePerOrder env order_id buyer_id rating body s s' one
      (o, g, u, e, f, k, l, reviews, gigs, users) i =
    rw reviews (ground (arith, one i, none-of_order o.id s.reviews f))

-- A review that is submitted is the only one of its order.
pub submit_review-OnePerOrder :
    (env : Env) (order_id buyer_id rating : ℕ) (body : Text) (s s' : Store) (r : Review)
    → OnePerOrder s
    → submit_review env order_id buyer_id rating body s ≡ done (r, s')
    → OnePerOrder s'
submit_review-OnePerOrder env order_id buyer_id rating body s s' r one h =
    Submitted-OnePerOrder env order_id buyer_id rating body s s' one
      (submit_review-Submitted env order_id buyer_id rating body s s' r h)

-- Writing a row whose fields the test and the sum do not read changes neither.
module _ {R : Type 0} ⦃k : Keyed R⦄ where
  pub count_where-put :
      (p : R → Bool) (r old : R) (rs : List R)
      → find (k.key r) rs ≡ some old
      → p r ≡ p old
      → count_where p (put r rs) ≡ count_where p rs
  unfolding find put
  count_where-put p r old [] h same = refl
  count_where-put p r old (x ∷ rs) h same = ground (arith, h, same, count_where-put p r old rs)

  pub sum_where-put :
      (p : R → Bool) (f : R → ℕ) (r old : R) (rs : List R)
      → find (k.key r) rs ≡ some old
      → p r ≡ p old
      → f r ≡ f old
      → sum_where p f (put r rs) ≡ sum_where p f rs
  unfolding find put
  sum_where-put p f r old [] h same also = refl
  sum_where-put p f r old (x ∷ rs) h same also =
      ground (arith, h, same, also, sum_where-put p f r old rs)
