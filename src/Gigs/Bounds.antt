-- ===== src/Gigs/Bounds.antt =====
-- The content of gigs stays within the limits of create-gig.handler.ts and update-gig.handler.ts.
use campusgig_backend.Prelude.{
  ℕ, ◌≡◌, ◌&&◌, not, Option, none, some, Bool, true, false, Bool-cases, inl, inr, arith, Outcome,
  done, Outcome-cases, and_then-done, ◌∙◌, length, trim,
}
use campusgig_backend.Db.Types.{Text, GigStatus}
use campusgig_backend.Db.Table.{find}
use campusgig_backend.Gigs.Rows.{
  GigRow, GigStore, GigError, BadGig, gig_row_keyed, title_length, description_length, price_range,
  delivery_range,
}
use campusgig_backend.Gigs.Validate.{
  check_text, check_number, check_bullets, check_faqs, check_images, outside, title_min, title_max,
  description_min, description_max, price_min, price_max, delivery_min, delivery_max, attachable,
}
use campusgig_backend.Gigs.Sensitive.{Amount, Patch, is_sensitive_change}
use campusgig_backend.Gigs.Edit.{content_of}
use campusgig_backend.Gigs.Update.{
  update_gig, check_patch, next_status, patched, has_field, UpdateGigResult, patch_images, or_else,
  check_field, check_category,
}

-- Title, description, price and days are within their limits.
unfoldable pub bounded : GigRow → Bool
bounded g =
    not (outside title_min title_max (length g.title))
    && not (outside description_min description_max (length g.description))
    && not (outside price_min price_max g.price_vnd)
    && not (outside delivery_min delivery_max g.delivery_days)

pub check_text-inside :
    (low high : ℕ) (e : BadGig) (t t' : Text)
    → check_text low high e t ≡ done t'
    → outside low high (length t') ≡ false
unfolding check_text
check_text-inside low high e t t' h = elim (Bool-cases (outside low high (length (trim t)))) [
  | inl b ↦ absurd (ground (arith, b, h))
  | inr b ↦ let same : t' ≡ trim t = ground (arith, b, h) in rw same b
]

pub check_number-inside :
    (low high : ℕ) (e : BadGig) (n : Option ℕ) (m : ℕ)
    → check_number low high e n ≡ done m
    → outside low high m ≡ false
unfolding check_number
check_number-inside low high e none m h = absurd (ground (arith, h))
check_number-inside low high e (some n) m h = elim (Bool-cases (outside low high n)) [
  | inl b ↦ absurd (ground (arith, b, h))
  | inr b ↦ let same : m ≡ n = ground (arith, b, h) in rw same b
]

-- The value that a field has after an edit passes a test, where the old one and every checked one do.
field-inside :
    {A B : Type 0} (check : A → Outcome GigError B) (bad : B → Bool)
    (sound : (a : A) (b : B) → check a ≡ done b → bad b ≡ false) (o : Option A) (o' : Option B)
    (old : B)
    → bad old ≡ false
    → check_field check o ≡ done o'
    → bad (or_else o' old) ≡ false
field-inside check bad sound none none old h k = h
field-inside check bad sound none (some b) old h k = absurd (ground (arith, k))
field-inside check bad sound (some a) o' old h k = elim (Outcome-cases (check a)) [
  | inl (e, c) ↦ absurd (ground (arith, c, k))
  | inr (b, c) ↦ let same : o' ≡ some b = ground (arith, c, k) in rw same (sound a b c)
]

-- What the checks of a patch have let through, against the gig's present values.
abbrev Checked : GigRow → Patch ℕ → Type 0
Checked g p =
    (outside title_min title_max (length (or_else p.title g.title)) ≡ false)
    × (outside description_min description_max (length (or_else p.description g.description))
        ≡ false)
    × (outside price_min price_max (or_else p.price_vnd g.price_vnd) ≡ false)
    × (outside delivery_min delivery_max (or_else p.delivery_days g.delivery_days) ≡ false)

-- Fields of a cleaned patch, each by its check.
pub check_patch-fields :
    (caller : ℕ) (g : GigRow) (s : GigStore) (p : Patch Amount) (q : Patch ℕ)
    → check_patch caller g s p ≡ done q
    → (check_field (check_text title_min title_max title_length) p.title ≡ done q.title)
      × (check_field (check_text description_min description_max description_length) p.description
          ≡ done q.description)
      × (check_field (check_number price_min price_max price_range) p.price_vnd ≡ done q.price_vnd)
      × (check_field (check_number delivery_min delivery_max delivery_range) p.delivery_days
          ≡ done q.delivery_days)
      × (check_field check_bullets p.bullets ≡ done q.bullets)
unfolding check_patch
check_patch-fields caller g s p q h =
    let title = check_field (check_text title_min title_max title_length) p.title in
    let description =
      check_field (check_text description_min description_max description_length) p.description in
    let price = check_field (check_number price_min price_max price_range) p.price_vnd in
    let days =
      check_field (check_number delivery_min delivery_max delivery_range) p.delivery_days in
    let category = check_category s.categories g.category_id p.category_id in
    let images = check_field (check_images (attachable g.id caller) s.images) p.image_ids in
    let (t, a, h1) = and_then-done title _ q h in
    let (d, b, h2) = and_then-done description _ q h1 in
    let (n, c, h3) = and_then-done price _ q h2 in
    let (m, e, h4) = and_then-done days _ q h3 in
    let (x, e5, h5) = and_then-done category _ q h4 in
    let (y, e6, h6) = and_then-done (check_field check_bullets p.bullets) _ q h5 in
    let (z, e7, h7) = and_then-done (check_field check_faqs p.faqs) _ q h6 in
    let (w, e8, h8) = and_then-done images _ q h7 in
    let titles : t ≡ q.title = ground (arith, h8) in
    let descriptions : d ≡ q.description = ground (arith, h8) in
    let prices : n ≡ q.price_vnd = ground (arith, h8) in
    let lengths : m ≡ q.delivery_days = ground (arith, h8) in
    let texts : y ≡ q.bullets = ground (arith, h8) in
    (a ∙ rw titles, b ∙ rw descriptions, c ∙ rw prices, e ∙ rw lengths, e6 ∙ rw texts)

bounded-parts :
    (g : GigRow)
    → bounded g ≡ true
    → (outside title_min title_max (length g.title) ≡ false)
      × (outside description_min description_max (length g.description) ≡ false)
      × (outside price_min price_max g.price_vnd ≡ false)
      × (outside delivery_min delivery_max g.delivery_days ≡ false)
unfolding bounded
bounded-parts g h = (ground (arith, h), ground (arith, h), ground (arith, h), ground (arith, h))

patched-bounded :
    (now : ℕ) (q : Patch ℕ) (next : Option GigStatus) (g : GigRow)
    → Checked g q
    → bounded (patched now q next g) ≡ true
unfolding bounded patched
patched-bounded now q next g (a, b, c, d) = rw (a, b, c, d)

check_patch-Checked :
    (caller : ℕ) (g : GigRow) (s : GigStore) (p : Patch Amount) (q : Patch ℕ)
    → bounded g ≡ true
    → check_patch caller g s p ≡ done q
    → Checked g q
check_patch-Checked caller g s p q inside h =
    let (a, b, c, d, e) = check_patch-fields caller g s p q h in
    let (t, u, v, w) = bounded-parts g inside in
    (
      field-inside (check_text title_min title_max title_length)
          (λ x. outside title_min title_max (length x))
          (check_text-inside title_min title_max title_length) p.title q.title g.title t a,
      field-inside (check_text description_min description_max description_length)
          (λ x. outside description_min description_max (length x))
          (check_text-inside description_min description_max description_length) p.description
          q.description g.description u b,
      field-inside (check_number price_min price_max price_range) (outside price_min price_max)
          (check_number-inside price_min price_max price_range) p.price_vnd q.price_vnd g.price_vnd
          v c,
      field-inside (check_number delivery_min delivery_max delivery_range)
          (outside delivery_min delivery_max)
          (check_number-inside delivery_min delivery_max delivery_range) p.delivery_days
          q.delivery_days g.delivery_days w d,
    )

-- An edit that returns leaves the gig within the limits, where it was within them.
pub update_gig-bounded :
    (now caller id : ℕ) (p : Patch Amount) (s s' : GigStore) (r : UpdateGigResult) (g : GigRow)
    → find id s.gigs ≡ some g
    → bounded g ≡ true
    → update_gig now caller id p s ≡ done (r, s')
    → bounded r.gig ≡ true
unfolding update_gig
update_gig-bounded now caller id p s s' r g found inside h =
    elim (Outcome-cases (check_patch caller g s p)) [
      | inl (x, c) ↦ absurd (ground (arith, found, c, h))
      | inr (clean, c) ↦
          let sensitive = is_sensitive_change (content_of s g) clean in
          let next = next_status sensitive (has_field clean) g.status in
          elim (Outcome-cases (patch_images id clean.image_ids s.images)) [
            | inl (x, i) ↦ absurd (ground (arith, found, c, i, h))
            | inr (images, i) ↦
                let written : r.gig ≡ patched now clean next g = ground (arith, found, c, i, h) in
                rw written (
                  patched-bounded now clean next g
                    (check_patch-Checked caller g s p clean inside c))
          ]
    ]
