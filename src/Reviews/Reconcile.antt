-- ===== src/Reviews/Reconcile.antt =====
-- prisma/reconcile-review-aggregates.ts: the counters of every gig and user recomputed from the
-- reviews, and the completed orders of every gig from the orders.
use campusgig_backend.Prelude.{
  ℕ, ◌==◌, ◌&&◌, ◌≡◌, if◌then◌else◌, List, [], ◌∷◌, map, Bool-cases, inl, inr, count_where,
  sum_where, arith, refl, Bool,
}
use campusgig_backend.Db.Types.{OrderStatus, status_is}
use campusgig_backend.Db.Rows.{Gig, Order}
use campusgig_backend.Db.Table.{find}
use campusgig_backend.Reviews.Rows.{
  Review, GigRating, UserRating, Store, gig_rating_keyed, user_rating_keyed,
}
use campusgig_backend.Reviews.Submit.{average}
use campusgig_backend.Reviews.Aggregates.{
  AggregatesAgree, GigsAgree, UsersAgree, of_gig, of_seller, stars,
}

abbrev real_gig : List Review → GigRating → GigRating
real_gig rs g = record {
  id = g.id;
  review_count = count_where (of_gig g.id) rs;
  rating_sum_half_stars = sum_where (of_gig g.id) stars rs;
  avg_rating = average (count_where (of_gig g.id) rs) (sum_where (of_gig g.id) stars rs);
}

-- `reconcileGigs` on one row: a row that is right is not written.
unfoldable pub reconcile_gig : List Review → GigRating → GigRating
unfolding average
reconcile_gig rs g =
    let real = real_gig rs g in
    if g.review_count == real.review_count
      && g.rating_sum_half_stars == real.rating_sum_half_stars
      && g.avg_rating.0 == real.avg_rating.0
      && g.avg_rating.1 == real.avg_rating.1
    then g
    else real

abbrev real_user : List Review → UserRating → UserRating
real_user rs u = record {
  id = u.id;
  review_count = count_where (of_seller u.id) rs;
  rating_sum_half_stars = sum_where (of_seller u.id) stars rs;
}

-- `reconcileUsers` on one row
unfoldable pub reconcile_user : List Review → UserRating → UserRating
reconcile_user rs u =
    let real = real_user rs u in
    if u.review_count == real.review_count && u.rating_sum_half_stars == real.rating_sum_half_stars
    then u
    else real

abbrev pub completed_of_gig : ℕ → Order → Bool
completed_of_gig i o = o.gig_id == i && status_is o.status OrderStatus.completed

-- `reconcileCompletedOrders` on one row
unfoldable pub reconcile_completed : List Order → Gig → Gig
reconcile_completed os g =
    let real = count_where (completed_of_gig g.id) os in
    if g.completed_order_count == real then g else record g { completed_order_count = real }

-- `main`
unfoldable pub reconcile : Store → Store
unfolding reconcile_gig reconcile_user reconcile_completed
reconcile s = record s {
  gig_ratings = map (reconcile_gig s.reviews) s.gig_ratings;
  user_ratings = map (reconcile_user s.reviews) s.user_ratings;
  db = record s.db { gigs = map (reconcile_completed s.db.orders) s.db.gigs };
}

-- Whether it was right or is rewritten, a row becomes the real one.
reconcile_gig_lem : (rs : List Review) (g : GigRating) → reconcile_gig rs g ≡ real_gig rs g
unfolding reconcile_gig
reconcile_gig_lem rs g = ground arith

reconcile_user_lem : (rs : List Review) (u : UserRating) → reconcile_user rs u ≡ real_user rs u
unfolding reconcile_user
reconcile_user_lem rs u = ground arith

reconcile_gigs-Agree :
    (rs : List Review) (gs : List GigRating) → GigsAgree rs (map (reconcile_gig rs) gs)
unfolding GigsAgree find
reconcile_gigs-Agree rs [] i = tt
reconcile_gigs-Agree rs (g ∷ gs) i = rw (reconcile_gig_lem rs g) (elim (Bool-cases (g.id == i)) [
  | inl e ↦ rw e (ground (arith, e), ground (arith, e), refl)
  | inr e ↦ rw e (reconcile_gigs-Agree rs gs i)
])

reconcile_users-Agree :
    (rs : List Review) (us : List UserRating) → UsersAgree rs (map (reconcile_user rs) us)
unfolding UsersAgree find
reconcile_users-Agree rs [] i = tt
reconcile_users-Agree rs (u ∷ us) i = rw (reconcile_user_lem rs u) (elim (Bool-cases (u.id == i)) [
  | inl e ↦ rw e (ground (arith, e), ground (arith, e))
  | inr e ↦ rw e (reconcile_users-Agree rs us i)
])

-- Whatever the counters were, the script leaves those of every gig and user equal to the number and
-- the sum of their reviews.
pub reconcile-Agree : (s : Store) → AggregatesAgree (reconcile s)
unfolding reconcile
reconcile-Agree s =
    (reconcile_gigs-Agree s.reviews s.gig_ratings, reconcile_users-Agree s.reviews s.user_ratings)

reconcile_gig_twice :
    (rs : List Review) (g : GigRating) → reconcile_gig rs (reconcile_gig rs g) ≡ reconcile_gig rs g
reconcile_gig_twice rs g = rw (reconcile_gig_lem rs g, reconcile_gig_lem rs (real_gig rs g))

reconcile_user_twice :
    (rs : List Review) (u : UserRating)
    → reconcile_user rs (reconcile_user rs u) ≡ reconcile_user rs u
reconcile_user_twice rs u = rw (reconcile_user_lem rs u, reconcile_user_lem rs (real_user rs u))

reconcile_completed_twice :
    (os : List Order) (g : Gig)
    → reconcile_completed os (reconcile_completed os g) ≡ reconcile_completed os g
unfolding reconcile_completed
reconcile_completed_twice os g = ground arith

map_twice :
    {A : Type 0} (f : A → A) (same : (a : A) → f (f a) ≡ f a) (xs : List A)
    → map f (map f xs) ≡ map f xs
map_twice f same [] = refl
map_twice f same (x ∷ xs) = rw (same x, map_twice f same xs)

-- Running the script again changes nothing.
pub reconcile_twice : (s : Store) → reconcile (reconcile s) ≡ reconcile s
unfolding reconcile
reconcile_twice s =
    let gigs = map_twice (reconcile_gig s.reviews) (reconcile_gig_twice s.reviews) s.gig_ratings in
    let users =
      map_twice (reconcile_user s.reviews) (reconcile_user_twice s.reviews) s.user_ratings in
    let counts =
      map_twice (reconcile_completed s.db.orders) (reconcile_completed_twice s.db.orders)
        s.db.gigs in
    rw (gigs, users, counts)
