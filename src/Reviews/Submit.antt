-- ===== src/Reviews/Submit.antt =====
-- `submitReview` and `setReply` of
-- src/modules/reviews/infrastructure/persistence/prisma-reviews.repository.ts, and the handlers
-- src/modules/reviews/application/commands: submit-review and reply-to-review.
use campusgig_backend.Prelude.{
  ℕ, ◌+◌, ◌*◌, ◌==◌, ltb, not, if◌then◌else◌, List, ◌∷◌, Option, none, some, Bool, Outcome, done,
  thrown, and_then, refuse_if, present, [], false, true,
}
use campusgig_backend.Db.Types.{Text, OrderStatus, review_submitted, status_is, is_active}
use campusgig_backend.Db.Rows.{Order, Db}
use campusgig_backend.Db.Table.{find, put, order_keyed, gig_keyed}
use campusgig_backend.Db.Tx.{Env, ok, err}
use campusgig_backend.Messaging.{announce}
use campusgig_backend.Reviews.Rows.{
  Review, GigRating, UserRating, Store, ReviewError, order_not_completed, not_the_buyer,
  review_already_exists, review_not_found, not_the_seller, reply_already_exists,
  gig_not_active_for_reply, record_not_found, review_keyed, gig_rating_keyed, user_rating_keyed,
}

-- `findByOrderId`: `orderId` is unique.
unfoldable pub find_by_order_id : ℕ → List Review → Option Review
find_by_order_id order_id [] = none
find_by_order_id order_id (r ∷ rs) =
    if r.order_id == order_id then some r else find_by_order_id order_id rs

-- `sum / 2 / count`, zero without reviews
unfoldable pub average : ℕ → ℕ → ℕ × ℕ
average count sum = if ltb 0 count then (sum, 2 * count) else (0, 1)

-- The two updates of the gig's row.
unfoldable pub rate_gig : ℕ → GigRating → GigRating
unfolding average
rate_gig rating g = record g {
  review_count = g.review_count + 1;
  rating_sum_half_stars = g.rating_sum_half_stars + rating;
  avg_rating = average (g.review_count + 1) (g.rating_sum_half_stars + rating);
}

unfoldable pub rate_user : ℕ → UserRating → UserRating
rate_user rating u = record u {
  review_count = u.review_count + 1;
  rating_sum_half_stars = u.rating_sum_half_stars + rating;
}

abbrev pub new_review : Env → ℕ → ℕ → Text → Order → Review
new_review env buyer_id rating body order = record {
  id = env.uuid 0;
  order_id = order.id;
  gig_id = order.gig_id;
  seller_id = order.seller_id;
  buyer_id = buyer_id;
  rating_half_stars = rating;
  body = body;
  reply_body = none;
  replied_at = none;
  created_at = env.now;
}

-- The thread of buyer and seller, and the system message in it. Neither throws.
unfoldable pub announce_review : Env → Order → Db → Db
unfolding announce
announce_review env order d =
    elim (announce (env.uuid 1) order.buyer_id order.seller_id order.id review_submitted env.now
      d) [ ok (m, d') ↦ d' | err e ↦ d ]

-- `submitReview`: a new row whose order already has a review violates the unique index.
unfoldable pub submit_review : Env → ℕ → ℕ → ℕ → Text → Store → Outcome ReviewError (Review × Store)
unfolding find_by_order_id rate_gig rate_user announce_review
submit_review env order_id buyer_id rating body s =
    and_then (present (find order_id s.db.orders) (order_not_completed order_id)) λ order.
      refuse_if (not (status_is order.status OrderStatus.completed)) (order_not_completed order_id)
        (elim (find_by_order_id order.id s.reviews) [
          | some _ ↦ thrown (review_already_exists order_id)
          | none ↦ and_then (present (find order.gig_id s.gig_ratings) record_not_found) λ gig.
              and_then (present (find order.seller_id s.user_ratings) record_not_found) λ seller.
                done (
                  new_review env buyer_id rating body order,
                  record {
                    db = announce_review env order s.db;
                    reviews = new_review env buyer_id rating body order ∷ s.reviews;
                    gig_ratings = put (rate_gig rating gig) s.gig_ratings;
                    user_ratings = put (rate_user rating seller) s.user_ratings;
                  },
                )
        ])

-- `SubmitReviewHandler.execute`, up to the event it publishes
unfoldable pub submit_review_command :
    Env → ℕ → ℕ → ℕ → Text → Store → Outcome ReviewError (Review × Store)
unfolding submit_review find_by_order_id
submit_review_command env viewer_id order_id rating body s =
    and_then (present (find order_id s.db.orders) (order_not_completed order_id)) λ order.
      refuse_if (not (status_is order.status OrderStatus.completed)) (order_not_completed order_id)
        (refuse_if (not (order.buyer_id == viewer_id)) (not_the_buyer order_id)
          (elim (find_by_order_id order_id s.reviews) [
            | some _ ↦ thrown (review_already_exists order_id)
            | none ↦ submit_review env order_id viewer_id rating body s
          ]))

-- `replyBody !== null`
unfoldable pub already_replied : Review → Bool
already_replied r = elim r.reply_body [ none ↦ false | some _ ↦ true ]

-- `setReply`
unfoldable pub set_reply : ℕ → ℕ → Text → Store → Outcome ReviewError (Review × Store)
set_reply now review_id body s = and_then (present (find review_id s.reviews) record_not_found) λ r.
    let replied : Review = record r { reply_body = some body; replied_at = some now } in
    done (replied, record s { reviews = put replied s.reviews })

-- `ReplyToReviewHandler.execute`. A review's gig is a foreign key, so the row is there.
unfoldable pub reply_to_review : ℕ → ℕ → ℕ → Text → Store → Outcome ReviewError (Review × Store)
unfolding set_reply already_replied
reply_to_review now viewer_id review_id body s =
    and_then (present (find review_id s.reviews) (review_not_found review_id)) λ r.
      and_then (present (find r.gig_id s.db.gigs) (review_not_found review_id)) λ gig.
        refuse_if (not (r.seller_id == viewer_id)) (not_the_seller review_id) (
          refuse_if (already_replied r) (reply_already_exists review_id) (
            refuse_if (not (is_active gig.status)) (gig_not_active_for_reply review_id)
              (set_reply now review_id body s)))
