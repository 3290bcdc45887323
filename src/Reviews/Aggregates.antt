-- ===== src/Reviews/Aggregates.antt =====
-- The counters of gigs and users against the reviews themselves, and the script that recomputes
-- them (prisma/reconcile-review-aggregates.ts).
use campusgig_backend.Prelude.{
  ℕ, ◌==◌, ◌≡◌, if◌then◌else◌, List, ◌∷◌, Option, none, some, Bool, Bool-cases, inl, inr,
  count_where, sum_where, arith, refl, subst,
}
use campusgig_backend.Db.Table.{find, put, find_key, find-put, order_keyed}
use campusgig_backend.Reviews.Rows.{
  Review, GigRating, UserRating, Store, gig_rating_keyed, user_rating_keyed,
}
use campusgig_backend.Reviews.Submit.{average, rate_gig, rate_user}

abbrev pub of_gig : ℕ → Review → Bool
of_gig i r = r.gig_id == i

abbrev pub of_seller : ℕ → Review → Bool
of_seller i r = r.seller_id == i

abbrev pub stars : Review → ℕ
stars r = r.rating_half_stars

-- The row of gig `i`, where there is one, counts and sums the gig's reviews.
abbrev pub CountsGig : ℕ → List Review → Option GigRating → Type 0
CountsGig i rs none = Unit
CountsGig i rs (some g) =
    (g.review_count ≡ count_where (of_gig i) rs)
    × (g.rating_sum_half_stars ≡ sum_where (of_gig i) stars rs)
    × (g.avg_rating ≡ average g.review_count g.rating_sum_half_stars)

abbrev pub CountsUser : ℕ → List Review → Option UserRating → Type 0
CountsUser i rs none = Unit
CountsUser i rs (some u) =
    (u.review_count ≡ count_where (of_seller i) rs)
    × (u.rating_sum_half_stars ≡ sum_where (of_seller i) stars rs)

unfoldable pub GigsAgree : List Review → List GigRating → Type 0
GigsAgree rs gs = (i : ℕ) → CountsGig i rs (find i gs)

unfoldable pub UsersAgree : List Review → List UserRating → Type 0
UsersAgree rs us = (i : ℕ) → CountsUser i rs (find i us)

abbrev pub AggregatesAgree : Store → Type 0
AggregatesAgree s = GigsAgree s.reviews s.gig_ratings × UsersAgree s.reviews s.user_ratings

CountsGig-next :
    (i : ℕ) (r : Review) (rs : List Review) (o : Option GigRating)
    → (r.gig_id == i) ≡ Bool.false
    → CountsGig i rs o
    → CountsGig i (r ∷ rs) o
CountsGig-next i r rs none e h = tt
CountsGig-next i r rs (some g) e h = (ground (arith, e, h.0), ground (arith, e, h.1), h.2)

CountsUser-next :
    (i : ℕ) (r : Review) (rs : List Review) (o : Option UserRating)
    → (r.seller_id == i) ≡ Bool.false
    → CountsUser i rs o
    → CountsUser i (r ∷ rs) o
CountsUser-next i r rs none e h = tt
CountsUser-next i r rs (some g) e h = (ground (arith, e, h.0), ground (arith, e, h.1))

-- What `find` meets after the write of one row of a gig.
find_rated_gig :
    (i k : ℕ) (rating : ℕ) (gs : List GigRating) (g : GigRating)
    → find k gs ≡ some g
    → find i (put (rate_gig rating g) gs) ≡ (if k == i then some (rate_gig rating g) else find i gs)
unfolding rate_gig
find_rated_gig i k rating gs g found =
    let key = find_key k gs g found in
    ground (arith, key, found, find-put i (rate_gig rating g) gs g)

find_rated_user :
    (i k : ℕ) (rating : ℕ) (us : List UserRating) (u : UserRating)
    → find k us ≡ some u
    → find i (put (rate_user rating u) us)
      ≡ (if k == i then some (rate_user rating u) else find i us)
unfolding rate_user
find_rated_user i k rating us u found =
    let key = find_key k us u found in
    ground (arith, key, found, find-put i (rate_user rating u) us u)

pub rate_gig-Agree :
    (r : Review) (rs : List Review) (gs : List GigRating) (g : GigRating)
    → find r.gig_id gs ≡ some g
    → GigsAgree rs gs
    → GigsAgree (r ∷ rs) (put (rate_gig r.rating_half_stars g) gs)
unfolding GigsAgree rate_gig
rate_gig-Agree r rs gs g found agree i =
    rw (find_rated_gig i r.gig_id r.rating_half_stars gs g found)
      (elim (Bool-cases (r.gig_id == i)) [
        | inl e ↦
            let here_too : find i gs ≡ some g = ground (arith, e, found) in
            let here = subst (CountsGig i rs) here_too (agree i) in
            rw e (ground (arith, e, here.0), ground (arith, e, here.1), refl)
        | inr e ↦ rw e (CountsGig-next i r rs (find i gs) e (agree i))
      ])

pub rate_user-Agree :
    (r : Review) (rs : List Review) (us : List UserRating) (u : UserRating)
    → find r.seller_id us ≡ some u
    → UsersAgree rs us
    → UsersAgree (r ∷ rs) (put (rate_user r.rating_half_stars u) us)
unfolding UsersAgree rate_user
rate_user-Agree r rs us u found agree i =
    rw (find_rated_user i r.seller_id r.rating_half_stars us u found)
      (elim (Bool-cases (r.seller_id == i)) [
        | inl e ↦
            let here_too : find i us ≡ some u = ground (arith, e, found) in
            let here = subst (CountsUser i rs) here_too (agree i) in
            rw e (ground (arith, e, here.0), ground (arith, e, here.1))
        | inr e ↦ rw e (CountsUser-next i r rs (find i us) e (agree i))
      ])
