-- ===== src/Tests/Community.antt =====
-- Reviews on a completed test order.
use campusgig_backend.Prelude.{
  ℕ, ◌≡◌, ◌≢◌, ◌↔◌, ◌==◌, List, [], ◌∷◌, none, some, true, refl, text, arith, Outcome, done, thrown,
  Bool-cases, inl, inr,
}
use campusgig_backend.Db.Types.{OrderStatus, status_is}
use campusgig_backend.Db.Rows.{Order}
use campusgig_backend.Db.Table.{find, put, order_keyed, gig_keyed}
use campusgig_backend.Reviews.Rows.{
  Review, GigRating, UserRating, Store, ReviewError, gig_rating_keyed, user_rating_keyed,
  review_keyed,
}
use campusgig_backend.Reviews.Submit.{
  submit_review_command, reply_to_review, find_by_order_id, average,
}
use campusgig_backend.Reviews.Aggregates.{
  AggregatesAgree, GigsAgree, UsersAgree, CountsGig, CountsUser,
}
use campusgig_backend.Reviews.Submitted.{OnePerOrder}
use campusgig_backend.Reviews.Replied.{reply_to_review-once, replied_review}
use campusgig_backend.Reviews.Unrated.{unrated_user}
use campusgig_backend.Reviews.History.{
  Sound, Steps-Sound, submitted, joined, elsewhere, StillThere, step, stop,
  submit_review_command-Returns,
}
use campusgig_backend.Reviews.Reconcile.{reconcile, reconcile-Agree}
use campusgig_backend.Reviews.Listing.{list_for_gig, summary_for_gig, PublicReviewTier}
use campusgig_backend.Reviews.Counts.{AllRated, tier_count, list_for_gig-total}
use campusgig_backend.Tests.Fixtures.{test_env, test_db}

abbrev unrated : Store
unrated = record {
  db = test_db OrderStatus.completed;
  reviews = [];
  gig_ratings =
      record { id = 100; review_count = 0; rating_sum_half_stars = 0; avg_rating = (0, 1) } ∷ [];
  user_ratings = record { id = 20; review_count = 0; rating_sum_half_stars = 0 } ∷ [];
}

abbrev store_of : {A : Type 0} → Outcome ReviewError (A × Store) → Store → Store
store_of (done (_, s)) start = s
store_of (thrown e) start = start

abbrev review_of : Outcome ReviewError (Review × Store) → List Review
review_of (done (r, _)) = r ∷ []
review_of (thrown e) = []

unrated-Gigs : (i : ℕ) → CountsGig i [] (find i unrated.gig_ratings)
unfolding find average
unrated-Gigs i = elim (Bool-cases (100 == i)) [ inl e ↦ rw e (refl, refl, refl) | inr e ↦ rw e tt ]

unrated-Users : (i : ℕ) → CountsUser i [] (find i unrated.user_ratings)
unfolding find
unrated-Users i = elim (Bool-cases (20 == i)) [ inl e ↦ rw e (refl, refl) | inr e ↦ rw e tt ]

unrated-Sound : Sound unrated
unfolding GigsAgree UsersAgree OnePerOrder
unrated-Sound = ((unrated-Gigs, unrated-Users), λ i. omega arith)

abbrev rated_store : Store
rated_store = store_of (submit_review_command (test_env 500) 10 400 9 (text "Good") unrated) unrated

-- A new user joins, and another module writes a table.
abbrev later_store : Store
later_store = record rated_store {
  user_ratings = unrated_user 99 ∷ rated_store.user_ratings;
  db = record rated_store.db { messages = [] };
}

Steps-Sound_example : Sound later_store
unfolding submit_review_command find StillThere
Steps-Sound_example =
    let s : Store = record rated_store {
      user_ratings = unrated_user 99 ∷ rated_store.user_ratings;
    } in
    Steps-Sound
      (step unrated rated_store later_store
        (submitted (test_env 500) 10 400 9 (text "Good") unrated rated_store _ refl)
        (step rated_store s later_store (joined 99 rated_store refl) (
          step s later_store later_store
            (elsewhere s (record rated_store.db { messages = [] }) (λ i. (λ h. h, λ h. h, λ h. h)))
            (stop later_store))))
      unrated-Sound

submit_review_command-Returns_example :
    ((x : Review × Store) × (submit_review_command (test_env 500) 10 400 9 (text "Good") unrated
        ≡ done x))
    ↔ ((o : Order) × (g : GigRating) × (u : UserRating) × (find 400 unrated.db.orders ≡ some o)
        × (status_is o.status OrderStatus.completed ≡ true)
        × (o.buyer_id ≡ 10)
        × (find_by_order_id 400 unrated.reviews ≡ none)
        × (find o.gig_id unrated.gig_ratings ≡ some g)
        × (find o.seller_id unrated.user_ratings ≡ some u))
submit_review_command-Returns_example =
    submit_review_command-Returns (test_env 500) 10 400 9 (text "Good") unrated

-- The review that the buyer has given.
abbrev given : Review
given = record {
  id = 500;
  order_id = 400;
  gig_id = 100;
  seller_id = 20;
  buyer_id = 10;
  rating_half_stars = 9;
  body = text "Good";
  reply_body = none;
  replied_at = none;
  created_at = 1500;
}

abbrev one_review : Store
one_review = record unrated { reviews = given ∷ [] }

abbrev answered_store : Store
answered_store = record one_review { reviews = replied_review 2000 (text "Thanks") given ∷ [] }

reply_to_review-once_example :
    reply_to_review 3000 20 500 (text "Again") answered_store ≢ done (given, unrated)
unfolding reply_to_review find put
reply_to_review-once_example =
    reply_to_review-once 2000 20 500 (text "Thanks") one_review answered_store
      (replied_review 2000 (text "Thanks") given) 3000 20 (text "Again") (given, unrated) refl

reconcile-Agree_example : AggregatesAgree (reconcile one_review)
reconcile-Agree_example = reconcile-Agree one_review

list_for_gig-total_example :
    (list_for_gig (λ r. true) 100 PublicReviewTier.five 0 5 (given ∷ [])).1
    ≡ tier_count PublicReviewTier.five (summary_for_gig 100 (given ∷ []))
unfolding AllRated
list_for_gig-total_example =
    list_for_gig-total PublicReviewTier.five 100 0 5 (given ∷ []) (omega arith, omega arith, tt)

-- The script counts the review, and one review of four and a half stars averages 9 / 2.
one_review-reconciled :
    (reconcile one_review).gig_ratings
    ≡ record { id = 100; review_count = 1; rating_sum_half_stars = 9; avg_rating = (9, 2) } ∷ []
unfolding reconcile
one_review-reconciled = refl
