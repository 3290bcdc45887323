-- ===== src/Gigs/Edit.antt =====
-- Creating and editing a gig: create-gig.handler.ts and update-gig.handler.ts of
-- src/modules/gigs/application/commands, with `create`, `update` and `findByIdWithRelations` of
-- src/modules/gigs/infrastructure/persistence/prisma-gig.repository.ts.
use campusgig_backend.Prelude.{
  ℕ, suc, ◌==◌, leb, not, if◌then◌else◌, List, [], ◌∷◌, ◌++◌, Option, none, some, Bool, false, map,
  filter, includes, Outcome, done, and_then, refuse_if, present,
}
use campusgig_backend.Db.Types.{Text, GigStatus}
use campusgig_backend.Db.Table.{find, put}
use campusgig_backend.Gigs.Rows.{
  GigRow, GigImage, Faq, Child, GigStore, GigError, title_length, description_length, price_range,
  delivery_range, admin_cannot_create_gig, category_not_found, gig_record_not_found, gig_row_keyed,
  gig_image_keyed,
}
use campusgig_backend.Gigs.Validate.{
  check_text, check_number, check_bullets, check_faqs, check_images, own_orphan, title_min,
  title_max, description_min, description_max, price_min, price_max, delivery_min, delivery_max,
}
use campusgig_backend.Gigs.Sensitive.{Amount, Content}

module _ {A : Type 0} where
  abbrev pub of_parent : ℕ → Child A → Bool
  of_parent g c = c.gig_id == g

  -- `createMany`, each value with its place
  abbrev pub numbered : ℕ → ℕ → List A → List (Child A)
  numbered g k [] = []
  numbered g k (a ∷ vs) = record { gig_id = g; value = a; position = k } ∷ numbered g (suc k) vs

  -- `deleteMany` and then `createMany`
  unfoldable pub replace_children : ℕ → List A → List (Child A) → List (Child A)
  replace_children g vs rows = filter (λ c. not (of_parent g c)) rows ++ numbered g 0 vs

  abbrev pub insert_by_position : Child A → List (Child A) → List (Child A)
  insert_by_position c [] = c ∷ []
  insert_by_position c (x ∷ xs) =
      let rest = insert_by_position c xs in
      if leb c.position x.position then c ∷ x ∷ xs else x ∷ rest

  abbrev pub by_position : List (Child A) → List (Child A)
  by_position [] = []
  by_position (c ∷ cs) = insert_by_position c (by_position cs)

  -- `include: { orderBy: { position: 'asc' } }`
  unfoldable pub children_of : ℕ → List (Child A) → List A
  children_of g rows = map (λ c. c.value) (by_position (filter (of_parent g) rows))

abbrev pub attached_to : ℕ → GigImage → Bool
attached_to g i = elim i.gig_id [ some h ↦ h == g | none ↦ false ]

abbrev pub insert_image : GigImage → List GigImage → List GigImage
insert_image i [] = i ∷ []
insert_image i (x ∷ xs) =
    let rest = insert_image i xs in if leb i.position x.position then i ∷ x ∷ xs else x ∷ rest

abbrev pub images_by_position : List GigImage → List GigImage
images_by_position [] = []
images_by_position (i ∷ is) = insert_image i (images_by_position is)

-- `findGigImages`
unfoldable pub images_of : ℕ → List GigImage → List GigImage
images_of g is = images_by_position (filter (attached_to g) is)

-- `findByIdWithRelations`, without the names that only the answer shows
unfoldable pub content_of : GigStore → GigRow → Content
unfolding children_of images_of
content_of s g = record {
  gig = g;
  images = images_of g.id s.images;
  bullets = children_of g.id s.bullets;
  faqs = children_of g.id s.faqs;
}

-- The loop that attaches the images in their order.
unfoldable pub attach_images : ℕ → ℕ → List ℕ → List GigImage → Outcome GigError (List GigImage)
attach_images g k [] images = done images
attach_images g k (i ∷ is) images = and_then (present (find i images) gig_record_not_found) λ image.
    attach_images g (suc k) is (put (record image { gig_id = some g; position = k }) images)

abbrev pub first_of : List ℕ → Option ℕ
first_of [] = none
first_of (i ∷ is) = some i

pub record CreateGig : Type 0 where
  pub caller_id : ℕ
  pub caller_is_admin : Bool
  pub title : Text
  pub category_id : ℕ
  pub description : Text
  pub price_vnd : Amount
  pub delivery_days : Amount
  pub bullets : List Text
  pub faqs : List Faq
  pub image_ids : List ℕ

-- A new gig with the checked content.
abbrev pub new_gig : ℕ → ℕ → CreateGig → Text → Text → ℕ → ℕ → GigRow
new_gig now id c title description price days = record {
  id = id;
  seller_id = c.caller_id;
  category_id = c.category_id;
  title = title;
  description = description;
  price_vnd = price;
  delivery_days = days;
  status = GigStatus.pending;
  rejection_category = none;
  rejection_reason = none;
  cover_image_id = first_of c.image_ids;
  submitted_at = some now;
  approved_at = none;
  paused_at = none;
  deleted_at = none;
  deleted_by = none;
}

-- `create` of the repository, with the row that its two writes make
unfoldable pub insert_gig :
    GigRow → List ℕ → List Text → List Faq → GigStore → Outcome GigError (GigRow × GigStore)
unfolding attach_images
insert_gig g image_ids bullets faqs s = and_then (attach_images g.id 0 image_ids s.images) λ images.
    done (
      g,
      record s {
        gigs = g ∷ s.gigs;
        images = images;
        bullets = s.bullets ++ numbered g.id 0 bullets;
        faqs = s.faqs ++ numbered g.id 0 faqs;
      },
    )

-- `CreateGigHandler.execute`; `id` is the UUID of the new row.
unfoldable pub create_gig : ℕ → ℕ → CreateGig → GigStore → Outcome GigError (GigRow × GigStore)
unfolding insert_gig check_text check_number check_bullets check_faqs check_images own_orphan
create_gig now id c s = refuse_if c.caller_is_admin admin_cannot_create_gig (
    and_then (check_text title_min title_max title_length c.title) λ title.
      and_then (check_text description_min description_max description_length c.description)
        λ description. and_then (check_number price_min price_max price_range c.price_vnd) λ price.
          and_then (check_number delivery_min delivery_max delivery_range c.delivery_days) λ days.
            refuse_if (not (includes s.categories c.category_id)) (category_not_found c.category_id)
              (and_then (check_images (own_orphan c.caller_id) s.images c.image_ids) λ image_ids.
                and_then (check_bullets c.bullets) λ bullets. and_then (check_faqs c.faqs) λ faqs.
                  insert_gig (new_gig now id c title description price days) image_ids bullets faqs
                    s))
