-- ===== src/Gigs/Validate.antt =====
-- The checks that create-gig.handler.ts and update-gig.handler.ts of
-- src/modules/gigs/application/commands make of a gig's content, each returning it cleaned.
use campusgig_backend.Prelude.{
  ℕ, ◌==◌, ◌||◌, ◌&&◌, ltb, if◌then◌else◌, List, [], ◌∷◌, Option, none, some, Bool, false, length,
  map, filter, includes, trim, Outcome, done, thrown, refuse_if,
}
use campusgig_backend.Db.Types.{Text}
use campusgig_backend.Db.Table.{find}
use campusgig_backend.Gigs.Rows.{
  Faq, GigImage, GigError, BadGig, bad_gig, image_required, bullet_length, question_length,
  answer_length, duplicate_image, gig_image_cap_reached, gig_bullet_cap_reached,
  gig_faq_cap_reached, image_not_owned, gig_image_keyed, is_orphan,
}

abbrev pub title_min : ℕ
title_min = 10

abbrev pub title_max : ℕ
title_max = 100

abbrev pub description_min : ℕ
description_min = 30

abbrev pub description_max : ℕ
description_max = 5000

abbrev pub price_min : ℕ
price_min = 10000

abbrev pub price_max : ℕ
price_max = 50000000

abbrev pub delivery_min : ℕ
delivery_min = 1

abbrev pub delivery_max : ℕ
delivery_max = 30

abbrev pub max_images : ℕ
max_images = 10

abbrev pub max_bullets : ℕ
max_bullets = 5

abbrev pub max_faqs : ℕ
max_faqs = 5

abbrev pub outside : ℕ → ℕ → ℕ → Bool
outside low high n = ltb n low || ltb high n

-- A text trimmed, with its length in the bounds.
unfoldable pub check_text : ℕ → ℕ → BadGig → Text → Outcome GigError Text
check_text low high e t = refuse_if (outside low high (length (trim t))) (bad_gig e) (done (trim t))

-- A number in the bounds; `none` is a number that is negative or has a fraction.
unfoldable pub check_number : ℕ → ℕ → BadGig → Option ℕ → Outcome GigError ℕ
check_number low high e none = thrown (bad_gig e)
check_number low high e (some n) = refuse_if (outside low high n) (bad_gig e) (done n)

abbrev pub any_outside : ℕ → ℕ → List Text → Bool
any_outside low high [] = false
any_outside low high (t ∷ ts) = outside low high (length t) || any_outside low high ts

unfoldable pub check_bullets : List Text → Outcome GigError (List Text)
check_bullets bs =
    let trimmed = filter (λ b. ltb 0 (length b)) (map trim bs) in
    refuse_if (ltb max_bullets (length bs)) gig_bullet_cap_reached
      (refuse_if (any_outside 5 80 trimmed) (bad_gig bullet_length) (done trimmed))

abbrev pub clean_faq : Faq → Faq
clean_faq f = record { question = trim f.question; answer = trim f.answer }

-- The first problem of the entries, in their order.
abbrev pub faq_problem : List Faq → Option BadGig
faq_problem [] = none
faq_problem (f ∷ fs) =
    let rest = faq_problem fs in
    if outside 5 120 (length f.question)
    then some question_length
    else if outside 10 500 (length f.answer)
    then some answer_length
    else rest

unfoldable pub check_faqs : List Faq → Outcome GigError (List Faq)
check_faqs fs =
    refuse_if (ltb max_faqs (length fs)) gig_faq_cap_reached
      (elim (faq_problem (map clean_faq fs)) [
        | some e ↦ thrown (bad_gig e)
        | none ↦ done (map clean_faq fs)
      ])

-- The loop over the ids: none twice, each an image that `usable` allows. `seen` is the set so far.
unfoldable pub image_problem : (GigImage → Bool) → List GigImage → List ℕ → List ℕ → Option GigError
image_problem usable images seen [] = none
image_problem usable images seen (i ∷ is) =
    let rest = image_problem usable images (i ∷ seen) is in
    if includes seen i then some (bad_gig (duplicate_image i)) else elim (find i images) [
      | none ↦ some (image_not_owned i)
      | some image ↦ if usable image then rest else some (image_not_owned i)
    ]

unfoldable pub check_images : (GigImage → Bool) → List GigImage → List ℕ → Outcome GigError (List ℕ)
unfolding image_problem
check_images usable images is = refuse_if (ltb (length is) 1) (bad_gig image_required) (
    refuse_if (ltb max_images (length is)) gig_image_cap_reached
      (elim (image_problem usable images [] is) [ some e ↦ thrown e | none ↦ done is ]))

-- An image that its uploader has not attached yet.
unfoldable pub own_orphan : ℕ → GigImage → Bool
unfolding is_orphan
own_orphan caller_id i = is_orphan i && i.uploader_id == caller_id

-- One of the gig's own images, or such an orphan.
unfoldable pub attachable : ℕ → ℕ → GigImage → Bool
unfolding own_orphan
attachable gig_id caller_id i =
    elim i.gig_id [ some g ↦ g == gig_id | none ↦ false ] || own_orphan caller_id i
