-- ===== src/Reviews/Unrated.antt =====
-- The counters that prisma/models/gigs.prisma and users.prisma give a new gig and a new user.
use campusgig_backend.Prelude.{
  ℕ, ◌==◌, ◌≡◌, List, ◌∷◌, arith, refl, inl, inr, Bool-cases, subst, sym, count_where,
  sum_where-none,
}
use campusgig_backend.Db.Table.{find}
use campusgig_backend.Reviews.Rows.{
  Review, GigRating, UserRating, gig_rating_keyed, user_rating_keyed,
}
use campusgig_backend.Reviews.Submit.{average}
use campusgig_backend.Reviews.Aggregates.{GigsAgree, UsersAgree, of_gig, of_seller, stars}

-- The counters of a new gig and of a new user, at their defaults.
unfoldable pub unrated_gig : ℕ → GigRating
unrated_gig id = record {
  id = id;
  review_count = 0;
  rating_sum_half_stars = 0;
  avg_rating = (0, 1);
}

unfoldable pub unrated_user : ℕ → UserRating
unrated_user id = record { id = id; review_count = 0; rating_sum_half_stars = 0 }

pub unrated-GigsAgree :
    (id : ℕ) (rs : List Review) (gs : List GigRating)
    → count_where (of_gig id) rs ≡ 0
    → GigsAgree rs gs
    → GigsAgree rs (unrated_gig id ∷ gs)
unfolding GigsAgree unrated_gig find average
unrated-GigsAgree id rs gs fresh h i = elim (Bool-cases (id == i)) [
  | inl e ↦
      let same : id ≡ i = ground (arith, e) in
      let none_yet = subst (λ k. count_where (of_gig k) rs ≡ 0) same fresh in
      rw e (sym none_yet, sym (sum_where-none (of_gig i) stars rs none_yet), refl)
  | inr e ↦ rw e (h i)
]

pub unrated-UsersAgree :
    (id : ℕ) (rs : List Review) (us : List UserRating)
    → count_where (of_seller id) rs ≡ 0
    → UsersAgree rs us
    → UsersAgree rs (unrated_user id ∷ us)
unfolding UsersAgree unrated_user find
unrated-UsersAgree id rs us fresh h i = elim (Bool-cases (id == i)) [
  | inl e ↦
      let same : id ≡ i = ground (arith, e) in
      let none_yet = subst (λ k. count_where (of_seller k) rs ≡ 0) same fresh in
      rw e (sym none_yet, sym (sum_where-none (of_seller i) stars rs none_yet))
  | inr e ↦ rw e (h i)
]
