-- ===== src/Reviews/Rows.antt =====
-- Reviews: the row of prisma/models/reviews.prisma, the review counters that gigs and users carry,
-- and the exceptions of src/modules/reviews/domain/exceptions.
use campusgig_backend.Prelude.{ℕ, Option, List}
use campusgig_backend.Db.Types.{Text}
use campusgig_backend.Db.Rows.{Db}
use campusgig_backend.Db.Table.{Keyed}

pub record Review : Type 0 where
  pub id : ℕ
  pub order_id : ℕ
  pub gig_id : ℕ
  pub seller_id : ℕ
  pub buyer_id : ℕ
  pub rating_half_stars : ℕ
  pub body : Text
  pub reply_body : Option Text
  pub replied_at : Option ℕ
  pub created_at : ℕ

-- `reviewCount`, `ratingSumHalfStars` and `avgRating` of a gig. The average is a quotient: its
-- numerator and its denominator.
pub record GigRating : Type 0 where
  pub id : ℕ
  pub review_count : ℕ
  pub rating_sum_half_stars : ℕ
  pub avg_rating : ℕ × ℕ

-- The two counters of a user, over the reviews of the user's gigs.
pub record UserRating : Type 0 where
  pub id : ℕ
  pub review_count : ℕ
  pub rating_sum_half_stars : ℕ

pub record Store : Type 0 where
  pub db : Db
  pub reviews : List Review
  pub gig_ratings : List GigRating
  pub user_ratings : List UserRating

pub data ReviewError : Type 0 where
  order_not_completed not_the_buyer review_already_exists : ℕ → ReviewError
  review_not_found not_the_seller reply_already_exists gig_not_active_for_reply : ℕ → ReviewError
  gig_missing not_your_gig record_not_found : ReviewError

instance abbrev pub review_keyed : Keyed Review
review_keyed = record { key = λ r. r.id }

instance abbrev pub gig_rating_keyed : Keyed GigRating
gig_rating_keyed = record { key = λ r. r.id }

instance abbrev pub user_rating_keyed : Keyed UserRating
user_rating_keyed = record { key = λ r. r.id }
