-- ===== src/Gigs/Attached.antt =====
-- What the loop of a creation that attaches the images leaves: `create` of
-- src/modules/gigs/infrastructure/persistence/prisma-gig.repository.ts.
use campusgig_backend.Prelude.{
  ℕ, suc, ◌+◌, ◌==◌, ◌≡◌, ◌∙◌, List, [], ◌∷◌, none, some, Bool, true, false, Bool-cases,
  Option-cases, inl, inr, arith, refl, ap, done, length, includes, count_where, length-filter,
}
use campusgig_backend.Db.Table.{find, put, find_key, find-put}
use campusgig_backend.Gigs.Rows.{GigImage, gig_image_keyed, is_orphan}
use campusgig_backend.Gigs.Validate.{image_problem, own_orphan, check_images}
use campusgig_backend.Gigs.Edit.{
  attach_images, attached_to, images_of, images_by_position, insert_image,
}

-- The images of these ids belong to gig `g`, in this order from place `k` on.
unfoldable pub Attached : ℕ → ℕ → List ℕ → List GigImage → Type 0
Attached g k [] images = Unit
Attached g k (i ∷ is) images =
    (x : GigImage) × (find i images ≡ some x)
    × (x.gig_id ≡ some g)
    × (x.position ≡ k)
    × Attached g (suc k) is images

-- Different images that belong to no gig.
unfoldable pub Free : List ℕ → List GigImage → Type 0
Free [] images = Unit
Free (i ∷ is) images =
    (x : GigImage) × (find i images ≡ some x)
    × (x.gig_id ≡ none)
    × (includes is i ≡ false)
    × Free is images

-- An id that was seen does not come again where nothing is wrong.
image_problem-seen :
    (usable : GigImage → Bool) (images : List GigImage) (seen is : List ℕ) (j : ℕ)
    → image_problem usable images seen is ≡ none
    → includes seen j ≡ true
    → includes is j ≡ false
unfolding image_problem
image_problem-seen usable images seen [] j h s = refl
image_problem-seen usable images seen (i ∷ is) j h s = elim (Option-cases (find i images)) [
  | inl e ↦ absurd (ground (arith, e, h))
  | inr (x, e) ↦
      let rest : image_problem usable images (i ∷ seen) is ≡ none = ground (arith, e, h) in
      let new : includes seen i ≡ false = ground (arith, e, h) in
      let later = image_problem-seen usable images (i ∷ seen) is j rest in
      elim (Bool-cases (i == j)) [
        | inl q ↦ let same : i ≡ j = ground (arith, q) in absurd (ground (arith, new, same, s))
        | inr q ↦
            let after : includes is j ≡ false = later (ground (arith, q, s)) in
            ground (arith, q, after)
      ]
]

image_problem-Free :
    (caller_id : ℕ) (images : List GigImage) (seen is : List ℕ)
    → image_problem (own_orphan caller_id) images seen is ≡ none
    → Free is images
unfolding image_problem own_orphan is_orphan Free
image_problem-Free caller_id images seen [] h = tt
image_problem-Free caller_id images seen (i ∷ is) h = elim (Option-cases (find i images)) [
  | inl e ↦ absurd (ground (arith, e, h))
  | inr (x, e) ↦
      let rest : image_problem (own_orphan caller_id) images (i ∷ seen) is ≡ none =
        ground (arith, e, h) in
      (
        x,
        e,
        ground (arith, e, h),
        image_problem-seen (own_orphan caller_id) images (i ∷ seen) is i rest (ground arith),
        image_problem-Free caller_id images (i ∷ seen) is rest,
      )
]

-- What is written under an id leaves what is found under others.
Free-put :
    (n : GigImage) (old : GigImage) (is : List ℕ) (images : List GigImage)
    → find n.id images ≡ some old
    → includes is n.id ≡ false
    → Free is images
    → Free is (put n images)
unfolding Free
Free-put n old [] images e h free = tt
Free-put n old (i ∷ is) images e h (x, found, orphan, once, rest) =
    let other : (n.id == i) ≡ false = ground (arith, h) in
    (
      x,
      rw (find-put i n images old e, other) found,
      orphan,
      once,
      Free-put n old is images e (ground (arith, h)) rest,
    )

-- One more image of the gig, where the image belonged to none.
count_where-attached :
    (g : ℕ) (n old : GigImage) (images : List GigImage)
    → find n.id images ≡ some old
    → old.gig_id ≡ none
    → n.gig_id ≡ some g
    → count_where (attached_to g) (put n images) ≡ count_where (attached_to g) images + 1
unfolding find put
count_where-attached g n old [] e was now = absurd (ground (arith, e))
count_where-attached g n old (x ∷ xs) e was now = elim (Bool-cases (x.id == n.id)) [
  | inl q ↦
      let same : x ≡ old = ground (arith, e, q) in
      let none_before : x.gig_id ≡ none = ap (λ y. y.gig_id) same ∙ was in
      rw (q, none_before, now) (ground arith)
  | inr q ↦
      let later : find n.id xs ≡ some old = ground (arith, e, q) in
      let rest = count_where-attached g n old xs later was now in rw (q, rest) (omega arith)
]

-- The loop leaves the images of other ids.
find-attach_images :
    (g k j : ℕ) (is : List ℕ) (images images' : List GigImage)
    → includes is j ≡ false
    → attach_images g k is images ≡ done images'
    → find j images' ≡ find j images
unfolding attach_images
find-attach_images g k j [] images images' h w = ground (arith, w)
find-attach_images g k j (i ∷ is) images images' h w = elim (Option-cases (find i images)) [
  | inl e ↦ absurd (ground (arith, e, w))
  | inr (x, e) ↦
      let n : GigImage = record x { gig_id = some g; position = k } in
      let key = find_key i images x e in
      let found : find n.id images ≡ some x = simp key e in
      let other : (n.id == j) ≡ false = ground (arith, key, h) in
      let rest : attach_images g (suc k) is (put n images) ≡ done images' = ground (arith, e, w) in
      find-attach_images g (suc k) j is (put n images) images' (ground (arith, h)) rest
      ∙ find-put j n images x found
      ∙ rw other refl
]

-- The loop attaches every one of the images, in their order, and no other.
pub attach_images-Attached :
    (g k : ℕ) (is : List ℕ) (images images' : List GigImage)
    → Free is images
    → attach_images g k is images ≡ done images'
    → Attached g k is images'
      × (count_where (attached_to g) images' ≡ count_where (attached_to g) images + length is)
unfolding attach_images Free Attached
attach_images-Attached g k [] images images' free w =
    let same : images' ≡ images = ground (arith, w) in (tt, rw same (omega arith))
attach_images-Attached g k (i ∷ is) images images' (x, e, orphan, once, free) w =
    let n : GigImage = record x { gig_id = some g; position = k } in
    let key = find_key i images x e in
    let found : find n.id images ≡ some x = simp key e in
    let rest : attach_images g (suc k) is (put n images) ≡ done images' = ground (arith, e, w) in
    let (attached, counted) =
      attach_images-Attached g (suc k) is (put n images) images'
        (Free-put n x is images found (rw key once) free) rest in
    let self : (n.id == i) ≡ true = ground (arith, key) in
    let here : find i images' ≡ some n =
      find-attach_images g (suc k) i is (put n images) images' once rest
      ∙ find-put i n images x found
      ∙ rw self refl in
    let one = count_where-attached g n x images found orphan refl in
    ((n, here, refl, refl, attached), omega (arith, counted, one))

length-insert_image :
    (x : GigImage) (xs : List GigImage) → length (insert_image x xs) ≡ suc (length xs)
length-insert_image x [] = refl
length-insert_image x (y ∷ ys) = ground (arith, length-insert_image x ys)

length-images_by_position : (xs : List GigImage) → length (images_by_position xs) ≡ length xs
length-images_by_position [] = refl
length-images_by_position (x ∷ xs) =
    length-insert_image x (images_by_position xs) ∙ ap suc (length-images_by_position xs)

pub length-images_of :
    (g : ℕ) (xs : List GigImage) → length (images_of g xs) ≡ count_where (attached_to g) xs
unfolding images_of
length-images_of g xs = length-images_by_position _ ∙ length-filter (attached_to g) xs

-- Images that pass the check of a creation are different and belong to no gig.
pub check_images-Free :
    (caller_id : ℕ) (images : List GigImage) (is js : List ℕ)
    → check_images (own_orphan caller_id) images is ≡ done js
    → (is ≡ js) × Free is images
unfolding check_images
check_images-Free caller_id images is js h =
    elim (Option-cases (image_problem (own_orphan caller_id) images [] is)) [
      | inl e ↦ (ground (arith, e, h), image_problem-Free caller_id images [] is e)
      | inr (x, e) ↦ absurd (ground (arith, e, h))
    ]
