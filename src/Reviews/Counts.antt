-- ===== src/Reviews/Counts.antt =====
-- The counts that a listing or a summary shows, against the rows that the filters let through.
use campusgig_backend.Prelude.{
  ℕ, ◌+◌, ◌≤◌, ◌==◌, ◌&&◌, leb, not, ◌≡◌, List, [], ◌∷◌, Bool, true, arith, refl, filter,
  count_where, count_if, sum_where, ◌∙◌, sym, Bool-cases, inl, inr,
}
use campusgig_backend.Reviews.Rows.{Review}
use campusgig_backend.Reviews.Aggregates.{of_gig}
use campusgig_backend.Reviews.Listing.{
  PublicReviewTier, whole_star, bump, group_by_rating, Tiers, no_tiers, add_to_tiers, tally,
  ReviewSummary, summary_for_gig, TierCounts, add_to_counts, tally_counts, list_for_gig,
  public_tier_range, in_range, public_filter,
}

-- Ratings are between one star and five, as the controller makes them.
unfoldable pub AllRated : List Review → Type 0
AllRated [] = Unit
AllRated (r ∷ rs) = (2 ≤ r.rating_half_stars) × (r.rating_half_stars ≤ 10) × AllRated rs

-- The groups whose rating passes, by their numbers of rows.
abbrev pub counted : (ℕ → Bool) → List (ℕ × ℕ) → ℕ
counted p gs = sum_where (λ g. p g.0) (λ g. g.1) gs

counted-bump :
    (p : ℕ → Bool) (n : ℕ) (gs : List (ℕ × ℕ))
    → counted p (bump n gs) ≡ count_if (p n) + counted p gs
counted-bump p n [] = ground arith
counted-bump p n ((k, c) ∷ gs) = elim (Bool-cases (k == n)) [
  | inl e ↦ let same : k ≡ n = ground (arith, e) in rw (e, same) (ground arith)
  | inr e ↦ ground (arith, e, counted-bump p n gs)
]

counted-group_by_rating :
    (p : ℕ → Bool) (rs : List Review)
    → counted p (group_by_rating rs) ≡ count_where (λ r. p r.rating_half_stars) rs
counted-group_by_rating p [] = refl
counted-group_by_rating p (r ∷ rs) =
    counted-bump p r.rating_half_stars (group_by_rating rs) ∙ rw (counted-group_by_rating p rs)

count_where-filter :
    {A : Type 0} (p q : A → Bool) (xs : List A)
    → count_where p (filter q xs) ≡ count_where (λ x. q x && p x) xs
count_where-filter p q [] = refl
count_where-filter p q (x ∷ xs) = ground (arith, count_where-filter p q xs)

abbrev pub has_star : ℕ → ℕ → Bool
has_star n rating = whole_star rating == n

abbrev pub low_star : ℕ → Bool
low_star rating = not (leb 3 (whole_star rating) && leb (whole_star rating) 5)

tally_lem :
    (gs : List (ℕ × ℕ)) (t : Tiers)
    → tally gs t ≡ record {
      five = t.five + counted (has_star 5) gs;
      four = t.four + counted (has_star 4) gs;
      three = t.three + counted (has_star 3) gs;
      two = t.two + counted (has_star 2) gs;
      one = t.one + counted (has_star 1) gs;
    }
unfolding tally add_to_tiers
tally_lem [] t = ground arith
tally_lem ((r, c) ∷ gs) t = tally_lem gs (add_to_tiers (r, c) t) ∙ ground arith

pub tally_counts_lem :
    (gs : List (ℕ × ℕ)) (t : TierCounts)
    → tally_counts gs t ≡ record {
      five = t.five + counted (has_star 5) gs;
      four = t.four + counted (has_star 4) gs;
      three = t.three + counted (has_star 3) gs;
      one_to_two = t.one_to_two + counted low_star gs;
    }
unfolding tally_counts add_to_counts
tally_counts_lem [] t = ground arith
tally_counts_lem ((r, c) ∷ gs) t = tally_counts_lem gs (add_to_counts (r, c) t) ∙ ground arith

-- The reviews of gig `i` whose rating passes.
abbrev pub rated : ℕ → (ℕ → Bool) → List Review → ℕ
rated i p rs = count_where (λ r. r.gig_id == i && p r.rating_half_stars) rs

pub counted-rated :
    (i : ℕ) (p : ℕ → Bool) (rs : List Review)
    → counted p (group_by_rating (filter (of_gig i) rs)) ≡ rated i p rs
counted-rated i p rs =
    counted-group_by_rating p (filter (of_gig i) rs)
    ∙ count_where-filter (λ r. p r.rating_half_stars) (of_gig i) rs

pub summary_for_gig-tiers :
    (i : ℕ) (rs : List Review)
    → (summary_for_gig i rs).tiers ≡ record {
      five = rated i (has_star 5) rs;
      four = rated i (has_star 4) rs;
      three = rated i (has_star 3) rs;
      two = rated i (has_star 2) rs;
      one = rated i (has_star 1) rs;
    }
unfolding summary_for_gig
summary_for_gig-tiers i rs =
    tally_lem (group_by_rating (filter (of_gig i) rs)) no_tiers
    ∙ rw
        (
          counted-rated i (has_star 5) rs,
          counted-rated i (has_star 4) rs,
          counted-rated i (has_star 3) rs,
          counted-rated i (has_star 2) rs,
          counted-rated i (has_star 1) rs,
        )
        (ground arith)

-- Two tests that agree on ratings from one star to five count the same reviews.
pub rated-ext :
    (i : ℕ) (p q : ℕ → Bool) (same : (n : ℕ) → 2 ≤ n → n ≤ 10 → p n ≡ q n) (rs : List Review)
    → AllRated rs
    → rated i p rs ≡ rated i q rs
unfolding AllRated
rated-ext i p q same [] valid = refl
rated-ext i p q same (r ∷ rs) (low, high, valid) =
    ground (arith, same r.rating_half_stars low high, rated-ext i p q same rs valid)

unfoldable tier_test : PublicReviewTier → ℕ → Bool
tier_test PublicReviewTier.all n = true
tier_test PublicReviewTier.five n = has_star 5 n
tier_test PublicReviewTier.four n = has_star 4 n
tier_test PublicReviewTier.three n = has_star 3 n
tier_test PublicReviewTier.two n = has_star 2 n
tier_test PublicReviewTier.one n = has_star 1 n

-- The range of a tier holds just the ratings that round to its stars.
public_tier_range-star :
    (tier : PublicReviewTier) (n : ℕ)
    → 2 ≤ n
    → n ≤ 10
    → in_range (public_tier_range tier) n ≡ tier_test tier n
unfolding public_tier_range tier_test whole_star
public_tier_range-star PublicReviewTier.all n low high = refl
public_tier_range-star PublicReviewTier.five n low high = ground (arith, low, high)
public_tier_range-star PublicReviewTier.four n low high = ground (arith, low, high)
public_tier_range-star PublicReviewTier.three n low high = ground (arith, low, high)
public_tier_range-star PublicReviewTier.two n low high = ground (arith, low, high)
public_tier_range-star PublicReviewTier.one n low high = ground (arith, low, high)

abbrev pub tier_count : PublicReviewTier → ReviewSummary → ℕ
tier_count PublicReviewTier.all s = s.total
tier_count PublicReviewTier.five s = s.tiers.five
tier_count PublicReviewTier.four s = s.tiers.four
tier_count PublicReviewTier.three s = s.tiers.three
tier_count PublicReviewTier.two s = s.tiers.two
tier_count PublicReviewTier.one s = s.tiers.one

pub rated-all : (i : ℕ) (rs : List Review) → rated i (λ n. true) rs ≡ count_where (of_gig i) rs
rated-all i [] = refl
rated-all i (r ∷ rs) = ground (arith, rated-all i rs)

tier_count-rated :
    (tier : PublicReviewTier) (i : ℕ) (rs : List Review)
    → tier_count tier (summary_for_gig i rs) ≡ rated i (tier_test tier) rs
unfolding tier_test summary_for_gig
tier_count-rated PublicReviewTier.all i rs = sym (rated-all i rs)
tier_count-rated PublicReviewTier.five i rs = rw (summary_for_gig-tiers i rs) refl
tier_count-rated PublicReviewTier.four i rs = rw (summary_for_gig-tiers i rs) refl
tier_count-rated PublicReviewTier.three i rs = rw (summary_for_gig-tiers i rs) refl
tier_count-rated PublicReviewTier.two i rs = rw (summary_for_gig-tiers i rs) refl
tier_count-rated PublicReviewTier.one i rs = rw (summary_for_gig-tiers i rs) refl

public_filter-rated :
    (tier : PublicReviewTier) (i : ℕ) (rs : List Review)
    → count_where (public_filter (λ r. true) i tier) rs
      ≡ rated i (λ n. in_range (public_tier_range tier) n) rs
public_filter-rated tier i [] = refl
public_filter-rated tier i (r ∷ rs) = ground (arith, public_filter-rated tier i rs)

-- Where all ratings are from one star to five, the number that the summary of a gig shows for a
-- tier is the total of the listing by that tier, without a search.
pub list_for_gig-total :
    (tier : PublicReviewTier) (i skip size : ℕ) (rs : List Review)
    → AllRated rs
    → (list_for_gig (λ r. true) i tier skip size rs).1 ≡ tier_count tier (summary_for_gig i rs)
unfolding list_for_gig
list_for_gig-total tier i skip size rs valid =
    public_filter-rated tier i rs
    ∙ rated-ext i (λ n. in_range (public_tier_range tier) n) (tier_test tier)
        (public_tier_range-star tier) rs valid
    ∙ sym (tier_count-rated tier i rs)
