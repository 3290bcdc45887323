-- ===== src/Tests/Shop.antt =====
-- Gigs: created, edited and moderated on small tables.
use campusgig_backend.Prelude.{
  ℕ, ◌≡◌, ◌≤◌, ◌==◌, ◌++◌, List, [], ◌∷◌, none, some, true, false, refl, text, Outcome, done,
  thrown, if◌then◌else◌, includes, length, trim,
}
use campusgig_backend.Db.Types.{GigStatus}
use campusgig_backend.Db.Table.{find, put}
use campusgig_backend.Gigs.Rows.{
  GigRow, GigImage, GigStore, GigError, gig_row_keyed, gig_image_keyed,
}
use campusgig_backend.Gigs.Validate.{max_images}
use campusgig_backend.Gigs.Sensitive.{
  Amount, Patch, is_sensitive_change, is_sensitive_change-collides,
}
use campusgig_backend.Gigs.Edit.{CreateGig, create_gig, images_of, children_of, replace_children}
use campusgig_backend.Gigs.Update.{update_gig, UpdateGigResult}
use campusgig_backend.Gigs.Moderate.{approve_gig}
use campusgig_backend.Gigs.Status.{Moved}
use campusgig_backend.Gigs.Commands.{Performed, Performed-Moved, approve}
use campusgig_backend.Gigs.Bounds.{bounded, update_gig-bounded}
use campusgig_backend.Gigs.Attached.{Attached}
use campusgig_backend.Gigs.Created.{create_gig_lem}
use campusgig_backend.Gigs.Children.{children_of-replace_children}
use campusgig_backend.Gigs.Reviewed.{update_gig-live}

abbrev photo : GigImage
photo = record { id = 7; gig_id = none; image_key = text "k"; position = 0; uploader_id = 20 }

abbrev empty_shop : GigStore
empty_shop = record { gigs = []; images = photo ∷ []; bullets = []; faqs = []; categories = 3 ∷ [] }

abbrev offer : CreateGig
offer = record {
  caller_id = 20;
  caller_is_admin = false;
  title = text " A logo for your club ";
  category_id = 3;
  description = text "Three drafts, two rounds of changes, all files.";
  price_vnd = some 50000;
  delivery_days = some 3;
  bullets = text "Vector files" ∷ [];
  faqs = [];
  image_ids = 7 ∷ [];
}

abbrev gig_of : Outcome GigError (GigRow × GigStore) → List GigRow
gig_of (done (g, _)) = g ∷ []
gig_of (thrown e) = []

abbrev shop_of : {A : Type 0} → Outcome GigError (A × GigStore) → GigStore
shop_of (done (_, s)) = s
shop_of (thrown e) = empty_shop

abbrev listed : GigRow
listed = record {
  id = 100;
  seller_id = 20;
  category_id = 3;
  title = text "A logo for your club";
  description = text "Three drafts, two rounds of changes, all files.";
  price_vnd = 50000;
  delivery_days = 3;
  status = GigStatus.pending;
  rejection_category = none;
  rejection_reason = none;
  cover_image_id = some 7;
  submitted_at = some 1000;
  approved_at = none;
  paused_at = none;
  deleted_at = none;
  deleted_by = none;
}

abbrev new_shop : GigStore
new_shop = shop_of (create_gig 1000 100 offer empty_shop)

create_gig_lem_example :
    (new_shop.gigs ≡ listed ∷ [])
    × ((listed.status ≡ GigStatus.pending)
        × (listed.seller_id ≡ offer.caller_id)
        × (includes empty_shop.categories listed.category_id ≡ true)
        × (bounded listed ≡ true))
    × Attached 100 0 offer.image_ids new_shop.images
    × (length (images_of 100 new_shop.images) ≡ length offer.image_ids)
    × (1 ≤ length (images_of 100 new_shop.images))
    × (length (images_of 100 new_shop.images) ≤ max_images)
unfolding create_gig trim find put
create_gig_lem_example = create_gig_lem 1000 100 offer empty_shop new_shop listed refl refl

abbrev shop : GigStatus → GigStore
shop t = record empty_shop {
  gigs = record listed { status = t } ∷ [];
  bullets = record { gig_id = 100; value = text "Vector files"; position = 0 } ∷ [];
}

abbrev approved_shop : GigStore
approved_shop = record (shop GigStatus.pending) {
  gigs = record listed { status = GigStatus.active; approved_at = some 2000 } ∷ [];
}

Performed-Moved_example : Moved 100 (shop GigStatus.pending) approved_shop
unfolding Performed approve_gig find put
Performed-Moved_example =
    Performed-Moved (approve 2000) 100 (shop GigStatus.pending) approved_shop (_, refl)

-- A higher price, and nothing else.
abbrev dearer : Patch Amount
dearer = record {
  title = none;
  category_id = none;
  description = none;
  price_vnd = some (some 60000);
  delivery_days = none;
  bullets = none;
  faqs = none;
  image_ids = none;
}

abbrev live : GigRow
live = record listed { status = GigStatus.active }

abbrev repriced : UpdateGigResult
repriced = record {
  gig = record live { price_vnd = 60000 };
  status_changed = false;
  previous_status = GigStatus.active;
}

abbrev repriced_shop : GigStore
repriced_shop = record (shop GigStatus.active) { gigs = repriced.gig ∷ [] }

update_gig-live_example :
    (repriced.gig.title ≡ live.title)
    × (repriced.gig.category_id ≡ live.category_id)
    × (repriced.gig.description ≡ live.description)
    × (children_of 100 repriced_shop.bullets ≡ children_of 100 (shop GigStatus.active).bullets)
unfolding update_gig find put
update_gig-live_example =
    update_gig-live 3000 20 100 dearer (shop GigStatus.active) repriced_shop repriced live refl refl
      refl refl

update_gig-bounded_example : bounded repriced.gig ≡ true
unfolding update_gig find put bounded
update_gig-bounded_example =
    update_gig-bounded 3000 20 100 dearer (shop GigStatus.active) repriced_shop repriced live refl
      refl refl

children_of-replace_children_example :
    children_of 100 (
      replace_children 100
        (text "Print files" ∷ text "Source files" ∷ [])
        (shop GigStatus.active).bullets)
    ≡ (if 100 == 100
        then text "Print files" ∷ text "Source files" ∷ []
        else children_of 100 (shop GigStatus.active).bullets)
children_of-replace_children_example =
    children_of-replace_children 100 100 (text "Print files" ∷ text "Source files" ∷ [])
      (shop GigStatus.active).bullets

is_sensitive_change-collides_example :
    is_sensitive_change {N = ℕ}
      (record {
        gig = live;
        images = [];
        bullets = [];
        faqs =
            record {
              question = text "How long" ++ 124 ∷ text "usually?";
              answer = text "Three days.";
            }
            ∷ [];
      })
      (record {
        title = none;
        category_id = none;
        description = none;
        price_vnd = none;
        delivery_days = none;
        bullets = none;
        faqs = some (
            record {
              question = text "How long";
              answer = text "usually?" ++ 124 ∷ text "Three days.";
            }
            ∷ []);
        image_ids = none;
      })
    ≡ false
unfolding trim
is_sensitive_change-collides_example =
    is_sensitive_change-collides live [] [] (text "How long") (text "usually?") (text "Three days.")
      refl refl
