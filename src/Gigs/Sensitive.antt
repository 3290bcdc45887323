-- ===== src/Gigs/Sensitive.antt =====
-- src/modules/gigs/domain/services/is-sensitive-change.ts: whether an edit must be reviewed again.
use campusgig_backend.Prelude.{
  ℕ, ◌==◌, ◌||◌, ◌&&◌, not, ◌≡◌, List, [], ◌∷◌, ◌++◌, Option, none, some, Bool, true, false, map,
  trim, arith, refl,
}
use campusgig_backend.Db.Types.{Text}
use campusgig_backend.Gigs.Rows.{GigRow, GigImage, Faq}

-- A price or a number of days in an edit: `none` is a number that is negative or has a fraction.
abbrev pub Amount : Type 0
Amount = Option ℕ

-- `UpdateGigData`: a field that is `none` is undefined. The numbers are amounts before the checks
-- and natural numbers after them.
pub record Patch (N : Type 0) : Type 0 where
  pub title : Option Text
  pub category_id : Option ℕ
  pub description : Option Text
  pub price_vnd : Option N
  pub delivery_days : Option N
  pub bullets : Option (List Text)
  pub faqs : Option (List Faq)
  pub image_ids : Option (List ℕ)

-- `GigWithRelations`, the rows of each kind in the order of their positions.
pub record Content : Type 0 where
  pub gig : GigRow
  pub images : List GigImage
  pub bullets : List Text
  pub faqs : List Faq

-- `===` on texts
abbrev pub text_eq : Text → Text → Bool
text_eq [] [] = true
text_eq [] (y ∷ ys) = false
text_eq (x ∷ xs) [] = false
text_eq (x ∷ xs) (y ∷ ys) = x == y && text_eq xs ys

-- `arraysEqualOrdered`
abbrev pub texts_eq : List Text → List Text → Bool
texts_eq [] [] = true
texts_eq [] (y ∷ ys) = false
texts_eq (x ∷ xs) [] = false
texts_eq (x ∷ xs) (y ∷ ys) = text_eq x y && texts_eq xs ys

-- The entry as one text, its parts joined by `|`.
unfoldable pub joined : Faq → Text
joined f = f.question ++ 124 ∷ f.answer

abbrev pub text_changed : Option Text → Text → Bool
text_changed none old = false
text_changed (some t) old = not (text_eq (trim t) old)

abbrev pub id_changed : Option ℕ → ℕ → Bool
id_changed none old = false
id_changed (some i) old = not (i == old)

abbrev pub texts_changed : Option (List Text) → List Text → Bool
texts_changed none old = false
texts_changed (some ts) old = not (texts_eq (map trim ts) old)

abbrev trimmed : Faq → Faq
trimmed f = record { question = trim f.question; answer = trim f.answer }

unfoldable pub faqs_changed : Option (List Faq) → List Faq → Bool
unfolding joined
faqs_changed none old = false
faqs_changed (some fs) old = not (texts_eq (map (λ f. joined (trimmed f)) fs) (map joined old))

-- Ids are compared as the texts they are.
abbrev pub ids_changed : Option (List ℕ) → List ℕ → Bool
ids_changed none old = false
ids_changed (some is) old = not (text_eq is old)

unfoldable pub is_sensitive_change : {N : Type 0} → Content → Patch N → Bool
unfolding faqs_changed
is_sensitive_change c p =
    text_changed p.title c.gig.title
    || id_changed p.category_id c.gig.category_id
    || text_changed p.description c.gig.description
    || texts_changed p.bullets c.bullets
    || faqs_changed p.faqs c.faqs
    || ids_changed p.image_ids (map (λ i. i.id) c.images)

pub text_eq_sound : (xs ys : Text) → text_eq xs ys ≡ true → xs ≡ ys
text_eq_sound [] [] h = refl
text_eq_sound [] (y ∷ ys) h = absurd (ground (arith, h))
text_eq_sound (x ∷ xs) [] h = absurd (ground (arith, h))
text_eq_sound (x ∷ xs) (y ∷ ys) h = ground (arith, h, text_eq_sound xs ys)

pub texts_eq_sound : (xs ys : List Text) → texts_eq xs ys ≡ true → xs ≡ ys
texts_eq_sound [] [] h = refl
texts_eq_sound [] (y ∷ ys) h = absurd (ground (arith, h))
texts_eq_sound (x ∷ xs) [] h = absurd (ground (arith, h))
texts_eq_sound (x ∷ xs) (y ∷ ys) h = ground (arith, h, text_eq_sound x y, texts_eq_sound xs ys)

text_eq_refl : (xs : Text) → text_eq xs xs ≡ true
text_eq_refl [] = refl
text_eq_refl (x ∷ xs) = ground (arith, text_eq_refl xs)

append_assoc : (xs ys zs : Text) → (xs ++ ys) ++ zs ≡ xs ++ (ys ++ zs)
append_assoc [] ys zs = refl
append_assoc (x ∷ xs) ys zs = rw (append_assoc xs ys zs)

-- Replacing a lone entry whose question ends in `|` and a text by the one whose answer begins with
-- them is no sensitive change, whatever the texts are.
pub is_sensitive_change-collides :
    (gig : GigRow) (images : List GigImage) (bullets : List Text) (a b c : Text)
    → trim a ≡ a
    → trim (b ++ 124 ∷ c) ≡ b ++ 124 ∷ c
    → is_sensitive_change {N = ℕ}
        (record {
          gig = gig;
          images = images;
          bullets = bullets;
          faqs = record { question = a ++ 124 ∷ b; answer = c } ∷ [];
        })
        (record {
          title = none;
          category_id = none;
          description = none;
          price_vnd = none;
          delivery_days = none;
          bullets = none;
          faqs = some (record { question = a; answer = b ++ 124 ∷ c } ∷ []);
          image_ids = none;
        })
      ≡ false
unfolding is_sensitive_change
is_sensitive_change-collides gig images bullets a b c h k =
    rw (h, k, append_assoc a (124 ∷ b) (124 ∷ c), text_eq_refl (a ++ 124 ∷ (b ++ 124 ∷ c)))
