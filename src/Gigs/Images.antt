-- ===== src/Gigs/Images.antt =====
-- Images of gigs: upload-gig-image, delete-gig-image and reorder-gig-images of
-- src/modules/gigs/application/commands with the repository's methods. What the object storage does
-- (its failures are ignored) is left out; the upload's key comes from it.
use campusgig_backend.Prelude.{
  ℕ, suc, ◌==◌, not, List, [], ◌∷◌, Option, none, some, Bool, false, if◌then◌else◌, length, filter,
  includes, Outcome, done, thrown, and_then, refuse_if, present, map,
}
use campusgig_backend.Db.Types.{Text}
use campusgig_backend.Db.Table.{find, put}
use campusgig_backend.Gigs.Rows.{
  GigImage, GigStore, GigError, bad_gig, image_ids_empty, duplicate_image, image_not_owned,
  gig_not_found, gig_record_not_found, length_mismatch, gig_row_keyed, gig_image_keyed,
}
use campusgig_backend.Gigs.Edit.{attached_to, first_of}
use campusgig_backend.Gigs.Moderate.{find_live}

-- `createOrphanImage`
unfoldable pub create_orphan_image : ℕ → Text → ℕ → GigStore → GigImage × GigStore
create_orphan_image id key uploader_id s =
    let image : GigImage = record {
      id = id;
      gig_id = none;
      image_key = key;
      position = 0;
      uploader_id = uploader_id;
    } in
    (image, record s { images = image ∷ s.images })

-- Who may delete an image: its uploader while it is an orphan, then the seller of its gig.
unfoldable pub may_delete : ℕ → GigImage → GigStore → Bool
unfolding find_live
may_delete caller_id i s = elim i.gig_id [
  | none ↦ i.uploader_id == caller_id
  | some g ↦ elim (find_live g s.gigs) [ none ↦ false | some row ↦ row.seller_id == caller_id ]
]

-- `DeleteGigImageHandler.execute` with `deleteImage`
unfoldable pub delete_gig_image : ℕ → ℕ → GigStore → Outcome GigError GigStore
unfolding may_delete
delete_gig_image caller_id id s = and_then (present (find id s.images) (image_not_owned id)) λ i.
    refuse_if (not (may_delete caller_id i s)) (image_not_owned id)
      (done (record s { images = filter (λ x. not (x.id == id)) s.images }))

-- The first id that stands twice; `seen` is the set of the ids before.
abbrev pub first_duplicate : List ℕ → List ℕ → Option ℕ
first_duplicate seen [] = none
first_duplicate seen (i ∷ is) =
    let rest = first_duplicate (i ∷ seen) is in if includes seen i then some i else rest

abbrev pub first_foreign : List ℕ → List ℕ → Option ℕ
first_foreign known [] = none
first_foreign known (i ∷ is) =
    let rest = first_foreign known is in if includes known i then rest else some i

-- The loop that writes the positions.
unfoldable pub place_images : ℕ → List ℕ → List GigImage → Outcome GigError (List GigImage)
place_images k [] images = done images
place_images k (i ∷ is) images =
    and_then (present (find i images) gig_record_not_found)
      λ image. place_images (suc k) is (put (record image { position = k }) images)

-- `reorderImages`
unfoldable pub reorder_images : ℕ → List ℕ → GigStore → Outcome GigError GigStore
unfolding place_images
reorder_images gig_id is s =
    let current = map (λ i. i.id) (filter (attached_to gig_id) s.images) in
    elim (first_foreign current is) [
      | some i ↦ thrown (gig_not_found i)
      | none ↦ refuse_if (not (length is == length current)) length_mismatch (
          and_then (place_images 0 is s.images) λ images.
            and_then (present (find gig_id s.gigs) gig_record_not_found) λ g. done (record s {
              images = images;
              gigs = put (record g { cover_image_id = first_of is }) s.gigs;
            }))
    ]

-- `ReorderGigImagesHandler.execute`
unfoldable pub reorder_gig_images : ℕ → ℕ → List ℕ → GigStore → Outcome GigError GigStore
unfolding reorder_images find_live
reorder_gig_images caller_id id is s =
    and_then (present (find_live id s.gigs) (gig_not_found id)) λ g.
      refuse_if (not (g.seller_id == caller_id)) (gig_not_found id) (
        refuse_if (length is == 0) (bad_gig image_ids_empty) (elim (first_duplicate [] is) [
          | some i ↦ thrown (bad_gig (duplicate_image i))
          | none ↦ reorder_images id is s
        ]))
