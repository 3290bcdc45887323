-- ===== src/Reviews/Listing.antt =====
-- The listings of src/modules/reviews/infrastructure/persistence/prisma-reviews.repository.ts: the
-- filters by tier, the counts of the tiers, and the order of the rows.
use campusgig_backend.Prelude.{
  ℕ, ◌+◌, ◌/◌, ◌==◌, ◌&&◌, leb, ltb, not, if◌then◌else◌, List, [], ◌∷◌, Option, none, some, Bool,
  true, filter, count_where, sum_where, take, drop, ◌*◌,
}
use campusgig_backend.Reviews.Rows.{Review}
use campusgig_backend.Reviews.Submit.{already_replied}
use campusgig_backend.Reviews.Aggregates.{of_gig, stars}

pub data PublicReviewTier : Type 0 where
  all five four three two one : PublicReviewTier

pub data ManageReviewTier : Type 0 where
  all five four three one_to_two : ManageReviewTier

pub data ManageReviewStatus : Type 0 where
  all unanswered answered : ManageReviewStatus

pub data ManageReviewSort : Type 0 where
  newest oldest highest lowest : ManageReviewSort

-- The bounds `gte` and `lte`; no filter where there are none.
unfoldable pub public_tier_range : PublicReviewTier → Option (ℕ × ℕ)
public_tier_range five = some (9, 10)
public_tier_range four = some (7, 8)
public_tier_range three = some (5, 6)
public_tier_range two = some (3, 4)
public_tier_range one = some (2, 2)
public_tier_range all = none

unfoldable pub manage_tier_range : ManageReviewTier → Option (ℕ × ℕ)
unfolding public_tier_range
manage_tier_range one_to_two = some (2, 4)
manage_tier_range all = public_tier_range PublicReviewTier.all
manage_tier_range five = public_tier_range PublicReviewTier.five
manage_tier_range four = public_tier_range PublicReviewTier.four
manage_tier_range three = public_tier_range PublicReviewTier.three

-- `Math.round(halfStars / 2)`, a half rounded up
unfoldable pub whole_star : ℕ → ℕ
whole_star half_stars = (half_stars + 1) / 2

abbrev pub in_range : Option (ℕ × ℕ) → ℕ → Bool
in_range none n = true
in_range (some (gte, lte)) n = leb gte n && leb n lte

-- `groupBy({ by: ['ratingHalfStars'], _count: true })`: each rating that occurs, with its number.
abbrev pub bump : ℕ → List (ℕ × ℕ) → List (ℕ × ℕ)
bump n [] = (n, 1) ∷ []
bump n ((k, c) ∷ gs) = if k == n then (k, c + 1) ∷ gs else (k, c) ∷ bump n gs

abbrev pub group_by_rating : List Review → List (ℕ × ℕ)
group_by_rating [] = []
group_by_rating (r ∷ rs) = bump r.rating_half_stars (group_by_rating rs)

pub record Tiers : Type 0 where
  pub five : ℕ
  pub four : ℕ
  pub three : ℕ
  pub two : ℕ
  pub one : ℕ

abbrev pub no_tiers : Tiers
no_tiers = record { five = 0; four = 0; three = 0; two = 0; one = 0 }

-- `tiers[key] += g._count`, nothing where the star has no key
unfoldable pub add_to_tiers : ℕ × ℕ → Tiers → Tiers
unfolding whole_star
add_to_tiers (rating, count) t =
    let star = whole_star rating in
    if star == 5
    then record t { five = t.five + count }
    else if star == 4
    then record t { four = t.four + count }
    else if star == 3
    then record t { three = t.three + count }
    else if star == 2
    then record t { two = t.two + count }
    else if star == 1
    then record t { one = t.one + count }
    else t

unfoldable pub tally : List (ℕ × ℕ) → Tiers → Tiers
unfolding add_to_tiers
tally [] t = t
tally (g ∷ gs) t = tally gs (add_to_tiers g t)

pub record ReviewSummary : Type 0 where
  pub total : ℕ
  -- half of the mean of the ratings: numerator and denominator
  pub average : Option (ℕ × ℕ)
  pub tiers : Tiers

-- `summaryForGig`
unfoldable pub summary_for_gig : ℕ → List Review → ReviewSummary
unfolding tally
summary_for_gig gig_id rs =
    let total = count_where (of_gig gig_id) rs in
    record {
      total = total;
      average = if total == 0 then none else some (sum_where (of_gig gig_id) stars rs, 2 * total);
      tiers = tally (group_by_rating (filter (of_gig gig_id) rs)) no_tiers;
    }

pub record TierCounts : Type 0 where
  pub five : ℕ
  pub four : ℕ
  pub three : ℕ
  pub one_to_two : ℕ

unfoldable pub add_to_counts : ℕ × ℕ → TierCounts → TierCounts
unfolding whole_star
add_to_counts (rating, count) t =
    let s = whole_star rating in
    if s == 5
    then record t { five = t.five + count }
    else if s == 4
    then record t { four = t.four + count }
    else if s == 3
    then record t { three = t.three + count }
    else record t { one_to_two = t.one_to_two + count }

unfoldable pub tally_counts : List (ℕ × ℕ) → TierCounts → TierCounts
unfolding add_to_counts
tally_counts [] t = t
tally_counts (g ∷ gs) t = tally_counts gs (add_to_counts g t)

-- Whether `a` stands before `b` or is level with it, by the `orderBy` of the listing.
unfoldable pub comes_first : ManageReviewSort → Review → Review → Bool
comes_first newest a b = leb b.created_at a.created_at
comes_first oldest a b = leb a.created_at b.created_at
comes_first highest a b =
    if a.rating_half_stars == b.rating_half_stars
    then leb b.created_at a.created_at
    else ltb b.rating_half_stars a.rating_half_stars
comes_first lowest a b =
    if a.rating_half_stars == b.rating_half_stars
    then leb b.created_at a.created_at
    else ltb a.rating_half_stars b.rating_half_stars

-- `orderBy`: sorting by insertion, rows that are level in the table's order.
unfoldable pub insert : ManageReviewSort → Review → List Review → List Review
unfolding comes_first
insert sort r [] = r ∷ []
insert sort r (x ∷ xs) =
    let rest = insert sort r xs in if comes_first sort r x then r ∷ x ∷ xs else x ∷ rest

unfoldable pub order_by : ManageReviewSort → List Review → List Review
unfolding insert
order_by sort [] = []
order_by sort (r ∷ rs) = insert sort r (order_by sort rs)

-- The `where` of `listForGig`; `contains` is the database's case-insensitive search in the body,
-- always true without a query.
abbrev pub public_filter : (Review → Bool) → ℕ → PublicReviewTier → Review → Bool
public_filter contains gig_id tier r =
    r.gig_id == gig_id && in_range (public_tier_range tier) r.rating_half_stars && contains r

-- `listForGig`: a page and the number of all the rows
unfoldable pub list_for_gig :
    (Review → Bool) → ℕ → PublicReviewTier → ℕ → ℕ → List Review → List Review × ℕ
unfolding order_by public_tier_range
list_for_gig contains gig_id tier skip size rs = (
  take size (drop skip (order_by newest (filter (public_filter contains gig_id tier) rs))),
  count_where (public_filter contains gig_id tier) rs,
)

abbrev pub has_status : ManageReviewStatus → Review → Bool
has_status all r = true
has_status answered r = already_replied r
has_status unanswered r = not (already_replied r)

abbrev pub manage_filter : ℕ → ManageReviewStatus → ManageReviewTier → Review → Bool
manage_filter gig_id status tier r =
    r.gig_id == gig_id
    && has_status status r
    && in_range (manage_tier_range tier) r.rating_half_stars

pub record ManageReviewsResult : Type 0 where
  pub items : List Review
  pub total : ℕ
  pub answered_count : ℕ
  pub unanswered_count : ℕ
  pub tier_counts : TierCounts

-- `listForSellerGig`
unfoldable pub list_for_seller_gig :
    ℕ
    → ManageReviewStatus
    → ManageReviewTier
    → ManageReviewSort
    → ℕ
    → ℕ
    → List Review
    → ManageReviewsResult
unfolding order_by manage_tier_range already_replied tally_counts
list_for_seller_gig gig_id status tier sort skip size rs = record {
  items = take size (drop skip (order_by sort (filter (manage_filter gig_id status tier) rs)));
  total = count_where (manage_filter gig_id status tier) rs;
  answered_count = count_where (λ r. r.gig_id == gig_id && already_replied r) rs;
  unanswered_count = count_where (λ r. r.gig_id == gig_id && not (already_replied r)) rs;
  tier_counts =
      tally_counts (group_by_rating (filter (of_gig gig_id) rs))
        (record { five = 0; four = 0; three = 0; one_to_two = 0 });
}
