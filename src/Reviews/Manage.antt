-- ===== src/Reviews/Manage.antt =====
-- The seller's listing: its counts add up, and its rows stand in the order asked for.
use campusgig_backend.Prelude.{
  ℕ, ◌+◌, ◌==◌, ◌&&◌, not, ◌≡◌, List, [], ◌∷◌, Bool, true, false, arith, refl, filter, count_where,
  count_if, ◌∙◌, Bool-cases, inl, inr,
}
use campusgig_backend.Reviews.Rows.{Review}
use campusgig_backend.Reviews.Submit.{already_replied}
use campusgig_backend.Reviews.Aggregates.{of_gig}
use campusgig_backend.Reviews.Listing.{
  ManageReviewTier, ManageReviewStatus, ManageReviewSort, group_by_rating, list_for_seller_gig,
  comes_first, insert, order_by,
}
use campusgig_backend.Reviews.Counts.{rated, has_star, low_star, tally_counts_lem, counted-rated}

list_for_seller_gig-tier_counts :
    (i : ℕ) (status : ManageReviewStatus) (tier : ManageReviewTier) (sort : ManageReviewSort)
    (skip size : ℕ) (rs : List Review)
    → (list_for_seller_gig i status tier sort skip size rs).tier_counts ≡ record {
      five = rated i (has_star 5) rs;
      four = rated i (has_star 4) rs;
      three = rated i (has_star 3) rs;
      one_to_two = rated i low_star rs;
    }
unfolding list_for_seller_gig
list_for_seller_gig-tier_counts i status tier sort skip size rs =
    tally_counts_lem (group_by_rating (filter (of_gig i) rs))
      (record { five = 0; four = 0; three = 0; one_to_two = 0 })
    ∙ rw
        (
          counted-rated i (has_star 5) rs,
          counted-rated i (has_star 4) rs,
          counted-rated i (has_star 3) rs,
          counted-rated i low_star rs,
        )
        (ground arith)

tiers_sum :
    (i : ℕ) (rs : List Review)
    → rated i (has_star 5) rs
        + rated i (has_star 4) rs
        + rated i (has_star 3) rs
        + rated i low_star rs
      ≡ count_where (of_gig i) rs
tiers_sum i [] = refl
tiers_sum i (r ∷ rs) = ground (arith, tiers_sum i rs)

answers_sum :
    (i : ℕ) (rs : List Review)
    → count_where (λ r. r.gig_id == i && already_replied r) rs
        + count_where (λ r. r.gig_id == i && not (already_replied r)) rs
      ≡ count_where (of_gig i) rs
answers_sum i [] = refl
answers_sum i (r ∷ rs) = ground (arith, answers_sum i rs)

-- Whatever the listing is filtered and sorted by, the numbers on its labels cover every review of
-- the gig once: those of the tiers add up to all, and so do the answered and the unanswered.
pub list_for_seller_gig-labels :
    (i : ℕ) (status : ManageReviewStatus) (tier : ManageReviewTier) (sort : ManageReviewSort)
    (skip size : ℕ) (rs : List Review)
    → let shown = list_for_seller_gig i status tier sort skip size rs in
      (shown.tier_counts.five + shown.tier_counts.four + shown.tier_counts.three
          + shown.tier_counts.one_to_two
        ≡ count_where (of_gig i) rs)
      × (shown.answered_count + shown.unanswered_count ≡ count_where (of_gig i) rs)
unfolding list_for_seller_gig
list_for_seller_gig-labels i status tier sort skip size rs = (
  rw (list_for_seller_gig-tier_counts i status tier sort skip size rs) (tiers_sum i rs),
  answers_sum i rs,
)

-- Each row comes first against the next one.
unfoldable pub Sorted : ManageReviewSort → List Review → Type 0
Sorted sort [] = Unit
Sorted sort (r ∷ []) = Unit
Sorted sort (r ∷ x ∷ xs) = (comes_first sort r x ≡ true) × Sorted sort (x ∷ xs)

comes_first_total :
    (sort : ManageReviewSort) (a b : Review)
    → comes_first sort a b ≡ false
    → comes_first sort b a ≡ true
unfolding comes_first
comes_first_total ManageReviewSort.newest a b h = ground (arith, h)
comes_first_total ManageReviewSort.oldest a b h = ground (arith, h)
comes_first_total ManageReviewSort.highest a b h = ground (arith, h)
comes_first_total ManageReviewSort.lowest a b h = ground (arith, h)

insert-Sorted :
    (sort : ManageReviewSort) (r : Review) (xs : List Review)
    → Sorted sort xs
    → Sorted sort (insert sort r xs)
unfolding Sorted insert
insert-Sorted sort r [] h = tt
insert-Sorted sort r (x ∷ []) h = elim (Bool-cases (comes_first sort r x)) [
  | inl e ↦ rw e (e, tt)
  | inr e ↦ rw e (comes_first_total sort r x e, tt)
]
insert-Sorted sort r (x ∷ y ∷ ys) (first, rest) = elim (Bool-cases (comes_first sort r x)) [
  | inl e ↦ rw e (e, (first, rest))
  | inr e ↦
      let step = insert-Sorted sort r (y ∷ ys) rest in
      elim (Bool-cases (comes_first sort r y)) [
        | inl f ↦ rw (e, f) (comes_first_total sort r x e, (f, rest))
        | inr f ↦ rw (e, f) (first, rw f at step)
      ]
]

-- Every test lets as many rows through after the insertion or the sorting as before.
insert-count_where :
    (sort : ManageReviewSort) (p : Review → Bool) (r : Review) (xs : List Review)
    → count_where p (insert sort r xs) ≡ count_if (p r) + count_where p xs
unfolding insert
insert-count_where sort p r [] = refl
insert-count_where sort p r (x ∷ xs) = ground (arith, insert-count_where sort p r xs)

order_by-count_where :
    (sort : ManageReviewSort) (p : Review → Bool) (xs : List Review)
    → count_where p (order_by sort xs) ≡ count_where p xs
unfolding order_by
order_by-count_where sort p [] = refl
order_by-count_where sort p (x ∷ xs) =
    insert-count_where sort p x (order_by sort xs) ∙ rw (order_by-count_where sort p xs)

order_by-Sorted : (sort : ManageReviewSort) (xs : List Review) → Sorted sort (order_by sort xs)
unfolding order_by Sorted
order_by-Sorted sort [] = tt
order_by-Sorted sort (x ∷ xs) = insert-Sorted sort x (order_by sort xs) (order_by-Sorted sort xs)

-- The rows of a listing stand in the order asked for, and are the same rows as before: every test
-- passes equally many.
pub order_by_lem :
    (sort : ManageReviewSort) (xs : List Review)
    → Sorted sort (order_by sort xs)
      × ((p : Review → Bool) → count_where p (order_by sort xs) ≡ count_where p xs)
order_by_lem sort xs = (order_by-Sorted sort xs, λ p. order_by-count_where sort p xs)
