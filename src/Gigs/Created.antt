-- ===== src/Gigs/Created.antt =====
-- What a gig that create-gig.handler.ts has created is like.
use campusgig_backend.Prelude.{
  ℕ, ◌≡◌, ◌≤◌, ◌∙◌, ap, ◌∷◌, count_where, not, List, Bool, true, false, arith, refl, done,
  and_then-done, refuse_if-done, length, includes,
}
use campusgig_backend.Db.Types.{Text, GigStatus}
use campusgig_backend.Gigs.Rows.{
  GigRow, GigImage, GigStore, gig_row_keyed, title_length, description_length, price_range,
  delivery_range,
}
use campusgig_backend.Gigs.Validate.{
  check_text, check_number, check_bullets, check_faqs, check_images, title_min, title_max,
  description_min, description_max, price_min, price_max, delivery_min, delivery_max, own_orphan,
  max_images,
}
use campusgig_backend.Gigs.Edit.{
  create_gig, CreateGig, new_gig, attach_images, attached_to, images_of,
}
use campusgig_backend.Gigs.Attached.{
  Attached, attach_images-Attached, check_images-Free, length-images_of,
}
use campusgig_backend.Gigs.Bounds.{bounded, check_text-inside, check_number-inside}

-- The checks that a creation has passed, and the rows that it wrote.
abbrev Created : ℕ → ℕ → CreateGig → GigStore → GigStore → GigRow → Type 0
Created now id c s s' g =
    (title : Text) × (description : Text) × (price : ℕ) × (days : ℕ) × (image_ids : List ℕ) × (g
      ≡ new_gig now id c title description price days)
    × (check_text title_min title_max title_length c.title ≡ done title)
    × (check_text description_min description_max description_length c.description
        ≡ done description)
    × (check_number price_min price_max price_range c.price_vnd ≡ done price)
    × (check_number delivery_min delivery_max delivery_range c.delivery_days ≡ done days)
    × (not (includes s.categories c.category_id) ≡ false)
    × (check_images (own_orphan c.caller_id) s.images c.image_ids ≡ done image_ids)
    × (attach_images id 0 image_ids s.images ≡ done s'.images)
    × (s'.gigs ≡ g ∷ s.gigs)

create_gig-Created :
    (now id : ℕ) (c : CreateGig) (s s' : GigStore) (g : GigRow)
    → create_gig now id c s ≡ done (g, s')
    → Created now id c s s' g
unfolding create_gig
create_gig-Created now id c s s' g h =
    let (not_admin, h0) = refuse_if-done c.caller_is_admin _ _ (g, s') h in
    let (title, a, h1) =
      and_then-done (check_text title_min title_max title_length c.title) _ (g, s') h0 in
    let (description, b, h2) =
      and_then-done (check_text description_min description_max description_length c.description) _
        (g, s') h1 in
    let (price, n, h3) =
      and_then-done (check_number price_min price_max price_range c.price_vnd) _ (g, s') h2 in
    let (days, m, h4) =
      and_then-done (check_number delivery_min delivery_max delivery_range c.delivery_days) _
        (g, s') h3 in
    let (known, h5) = refuse_if-done (not (includes s.categories c.category_id)) _ _ (g, s') h4 in
    let (image_ids, i, h6) =
      and_then-done (check_images (own_orphan c.caller_id) s.images c.image_ids) _ (g, s') h5 in
    let (bullets, k, h7) = and_then-done (check_bullets c.bullets) _ (g, s') h6 in
    let (faqs, l, h8) = and_then-done (check_faqs c.faqs) _ (g, s') h7 in
    let row = new_gig now id c title description price days in
    let (images, w, h9) = and_then-done (attach_images id 0 image_ids s.images) _ (g, s') h8 in
    let written : g ≡ row = ground (arith, h9) in
    let attached : images ≡ s'.images = ground (arith, h9) in
    (
      title,
      description,
      price,
      days,
      image_ids,
      written,
      a,
      b,
      n,
      m,
      known,
      i,
      w ∙ ap done attached,
      ground (arith, h9),
    )

image_count :
    (usable : GigImage → Bool) (images : List GigImage) (is js : List ℕ)
    → check_images usable images is ≡ done js
    → (1 ≤ length is) × (length is ≤ max_images)
unfolding check_images
image_count usable images is js h = (ground (arith, h), ground (arith, h))

Created-bounds :
    (now id : ℕ) (c : CreateGig) (s s' : GigStore) (g : GigRow)
    → Created now id c s s' g
    → (g.status ≡ GigStatus.pending)
      × (g.seller_id ≡ c.caller_id)
      × (includes s.categories g.category_id ≡ true)
      × (bounded g ≡ true)
unfolding bounded
Created-bounds now id c s s' g (t, d, n, m, is, written, a, b, price, days, known, i, w, row) =
    let titles = check_text-inside title_min title_max title_length c.title t a in
    let texts =
      check_text-inside description_min description_max description_length c.description d b in
    let prices = check_number-inside price_min price_max price_range c.price_vnd n price in
    let lengths =
      check_number-inside delivery_min delivery_max delivery_range c.delivery_days m days in
    rw written (refl, refl, ground (arith, known), rw (titles, texts, prices, lengths))

-- The images of the new gig are those of the request.
Created-images :
    (now id : ℕ) (c : CreateGig) (s s' : GigStore) (g : GigRow)
    → count_where (attached_to id) s.images ≡ 0
    → Created now id c s s' g
    → Attached id 0 c.image_ids s'.images
      × (length (images_of id s'.images) ≡ length c.image_ids)
      × (1 ≤ length (images_of id s'.images))
      × (length (images_of id s'.images) ≤ max_images)
Created-images now id c s s' g none_yet
      (t, d, n, m, is, written, a, b, price, days, known, i, w, row) =
    let (some_image, few) = image_count (own_orphan c.caller_id) s.images c.image_ids is i in
    let (same, free) = check_images-Free c.caller_id s.images c.image_ids is i in
    let w' : attach_images id 0 c.image_ids s.images ≡ done s'.images =
      ap (λ k. attach_images id 0 k s.images) same ∙ w in
    let (attached, counted) = attach_images-Attached id 0 c.image_ids s.images s'.images free w' in
    let total : length (images_of id s'.images) ≡ length c.image_ids =
      length-images_of id s'.images ∙ omega (arith, counted, none_yet) in
    (attached, total, omega (arith, total, some_image), omega (arith, total, few))

-- Where no image belongs to its new id yet, a gig that is created is added to the gigs, is pending,
-- belongs to its caller, has a category that exists, and is within the limits; its images are just
-- those of the request in their order, from one to ten.
pub create_gig_lem :
    (now id : ℕ) (c : CreateGig) (s s' : GigStore) (g : GigRow)
    → count_where (attached_to id) s.images ≡ 0
    → create_gig now id c s ≡ done (g, s')
    → (s'.gigs ≡ g ∷ s.gigs)
      × ((g.status ≡ GigStatus.pending)
          × (g.seller_id ≡ c.caller_id)
          × (includes s.categories g.category_id ≡ true)
          × (bounded g ≡ true))
      × Attached id 0 c.image_ids s'.images
      × (length (images_of id s'.images) ≡ length c.image_ids)
      × (1 ≤ length (images_of id s'.images))
      × (length (images_of id s'.images) ≤ max_images)
create_gig_lem now id c s s' g none_yet h =
    let created = create_gig-Created now id c s s' g h in
    let (t, d, n, m, is, written, a, b, price, days, known, i, w, row) = created in
    let (attached, total, some_image, few) = Created-images now id c s s' g none_yet created in
    (row, Created-bounds now id c s s' g created, attached, total, some_image, few)
