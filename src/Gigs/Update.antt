-- ===== src/Gigs/Update.antt =====
-- Editing a gig: update-gig.handler.ts of src/modules/gigs/application/commands and `update` of
-- src/modules/gigs/infrastructure/persistence/prisma-gig.repository.ts.
use campusgig_backend.Prelude.{
  ℕ, ◌==◌, ◌||◌, ◌&&◌, not, if◌then◌else◌, List, Option, none, some, Bool, filter, includes,
  Outcome, done, and_then, refuse_if, present,
}
use campusgig_backend.Db.Types.{GigStatus}
use campusgig_backend.Db.Table.{find, put}
use campusgig_backend.Gigs.Rows.{
  GigRow, GigImage, Child, GigStore, GigError, title_length, description_length, price_range,
  delivery_range, category_not_found, gig_not_found, gig_locked_for_review, gig_row_keyed, gig_is,
  is_deleted, is_none, gig_record_not_found,
}
use campusgig_backend.Gigs.Validate.{
  check_text, check_number, check_bullets, check_faqs, check_images, attachable, title_min,
  title_max, description_min, description_max, price_min, price_max, delivery_min, delivery_max,
}
use campusgig_backend.Gigs.Sensitive.{Amount, Patch, is_sensitive_change}
use campusgig_backend.Gigs.Edit.{replace_children, content_of, attach_images, attached_to, first_of}

-- A check that only a field that is there has to pass.
abbrev pub check_field :
    {A B : Type 0} → (A → Outcome GigError B) → Option A → Outcome GigError (Option B)
check_field check none = done none
check_field check (some a) = and_then (check a) λ b. done (some b)

-- The category must exist where it is another one.
abbrev pub check_category : List ℕ → ℕ → Option ℕ → Outcome GigError (Option ℕ)
check_category categories current none = done none
check_category categories current (some c) =
    refuse_if (not (c == current) && not (includes categories c)) (category_not_found c)
      (done (some c))

-- The checks of the handler, which leave the patch cleaned.
unfoldable pub check_patch : ℕ → GigRow → GigStore → Patch Amount → Outcome GigError (Patch ℕ)
unfolding check_text check_number check_bullets check_faqs check_images attachable
check_patch caller_id g s p =
    and_then (check_field (check_text title_min title_max title_length) p.title) λ title.
      and_then
        (check_field (check_text description_min description_max description_length) p.description)
        λ description.
          and_then (check_field (check_number price_min price_max price_range) p.price_vnd) λ price.
            and_then
              (check_field (check_number delivery_min delivery_max delivery_range) p.delivery_days)
              λ days. and_then (check_category s.categories g.category_id p.category_id) λ category.
                and_then (check_field check_bullets p.bullets) λ bullets.
                  and_then (check_field check_faqs p.faqs) λ faqs.
                    and_then
                      (check_field (check_images (attachable g.id caller_id) s.images) p.image_ids)
                      λ image_ids. done (record {
                        title = title;
                        category_id = category;
                        description = description;
                        price_vnd = price;
                        delivery_days = days;
                        bullets = bullets;
                        faqs = faqs;
                        image_ids = image_ids;
                      })

-- `Object.keys(patch).length > 0`
abbrev pub has_field : {N : Type 0} → Patch N → Bool
has_field p = not (
    is_none p.title
    && is_none p.category_id
    && is_none p.description
    && is_none p.price_vnd
    && is_none p.delivery_days
    && is_none p.bullets
    && is_none p.faqs
    && is_none p.image_ids)

-- The status that an edit leads to; `none` leaves it as it is.
unfoldable pub next_status : Bool → Bool → GigStatus → Option GigStatus
next_status sensitive has_fields previous =
    if sensitive
    then if gig_is previous GigStatus.active
        || gig_is previous GigStatus.paused
        || gig_is previous GigStatus.rejected
      then some GigStatus.pending
      else none
    else if gig_is previous GigStatus.rejected && has_fields
    then some GigStatus.pending
    else none

abbrev pub or_else : {A : Type 0} → Option A → A → A
or_else none old = old
or_else (some new) old = new

-- `updatedFields` on the gig's row. Every status that `next_status` gives is pending.
unfoldable pub patched : ℕ → Patch ℕ → Option GigStatus → GigRow → GigRow
patched now p next g = record g {
  title = or_else p.title g.title;
  category_id = or_else p.category_id g.category_id;
  description = or_else p.description g.description;
  price_vnd = or_else p.price_vnd g.price_vnd;
  delivery_days = or_else p.delivery_days g.delivery_days;
  status = or_else next g.status;
  submitted_at = elim next [
    | none ↦ g.submitted_at
    | some t ↦ if gig_is t GigStatus.pending then some now else g.submitted_at
  ];
  cover_image_id = elim p.image_ids [ none ↦ g.cover_image_id | some is ↦ first_of is ];
}

-- The images that the patch no longer names are deleted, those that it names are attached.
unfoldable pub patch_images : ℕ → Option (List ℕ) → List GigImage → Outcome GigError (List GigImage)
unfolding attach_images
patch_images g none images = done images
patch_images g (some is) images =
    attach_images g 0 is (filter (λ i. not (attached_to g i && not (includes is i.id))) images)

abbrev pub patch_children : {A : Type 0} → ℕ → Option (List A) → List (Child A) → List (Child A)
patch_children g none rows = rows
patch_children g (some vs) rows = replace_children g vs rows

-- `update` of the repository
unfoldable pub update_row :
    ℕ → ℕ → Patch ℕ → Option GigStatus → GigStore → Outcome GigError (GigRow × GigStore)
unfolding patched patch_images replace_children
update_row now id p next s = and_then (patch_images id p.image_ids s.images) λ images.
    and_then (present (find id s.gigs) gig_record_not_found) λ g. done (
      patched now p next g,
      record s {
        gigs = put (patched now p next g) s.gigs;
        images = images;
        bullets = patch_children id p.bullets s.bullets;
        faqs = patch_children id p.faqs s.faqs;
      },
    )

pub record UpdateGigResult : Type 0 where
  pub gig : GigRow
  pub status_changed : Bool
  pub previous_status : GigStatus

-- `UpdateGigHandler.execute`; the new status is that of the row.
unfoldable pub update_gig :
    ℕ → ℕ → ℕ → Patch Amount → GigStore → Outcome GigError (UpdateGigResult × GigStore)
unfolding check_patch content_of is_sensitive_change next_status update_row is_deleted
update_gig now caller_id id p s = and_then (present (find id s.gigs) (gig_not_found id)) λ g.
    refuse_if (not (g.seller_id == caller_id) || is_deleted g) (gig_not_found id) (
      refuse_if (gig_is g.status GigStatus.pending) (gig_locked_for_review id) (
        and_then (check_patch caller_id g s p) λ clean.
          let next =
            next_status (is_sensitive_change (content_of s g) clean) (has_field clean) g.status in
          and_then (update_row now id clean next s) λ (row, s'). done (
            record { gig = row; status_changed = not (is_none next); previous_status = g.status },
            s',
          )))
