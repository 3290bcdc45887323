-- ===== src/Gigs/Reviewed.antt =====
-- What an administrator has approved stays as it was approved while the gig is live.
use campusgig_backend.Prelude.{
  ℕ, ◌==◌, ◌≡◌, List, [], ◌∷◌, Option, none, some, Bool, true, false, Bool-cases, inl, inr, arith,
  refl, done, Outcome-cases, and_then-done, ◌∙◌, refuse_if-done, length, trim, trim-trim, map,
  filter, ltb, subst, ap, ◌≢◌, sym,
}
use campusgig_backend.Db.Types.{Text, GigStatus}
use campusgig_backend.Db.Table.{find, find_key}
use campusgig_backend.Gigs.Rows.{
  GigRow, Child, GigStore, BadGig, gig_row_keyed, title_length, description_length,
}
use campusgig_backend.Gigs.Validate.{
  check_text, check_bullets, outside, title_min, title_max, description_min, description_max,
  max_bullets, any_outside,
}
use campusgig_backend.Gigs.Sensitive.{
  Amount, Patch, is_sensitive_change, text_changed, id_changed, texts_changed, text_eq_sound,
  texts_eq_sound, text_eq, texts_eq,
}
use campusgig_backend.Gigs.Edit.{content_of, children_of}
use campusgig_backend.Gigs.Bounds.{check_patch-fields}
use campusgig_backend.Gigs.Children.{children_of-replace_children}
use campusgig_backend.Gigs.Update.{
  update_gig, check_patch, next_status, patched, has_field, UpdateGigResult, patch_images, or_else,
  check_field, patch_children,
}

-- A text field that passes its check and is no change keeps its value.
unchanged_text :
    (low high : ℕ) (e : BadGig) (o o' : Option Text) (old : Text)
    → check_field (check_text low high e) o ≡ done o'
    → text_changed o' old ≡ false
    → or_else o' old ≡ old
unfolding check_text
unchanged_text low high e none none old h k = refl
unchanged_text low high e none (some t) old h k = absurd (ground (arith, h))
unchanged_text low high e (some t) none old h k =
    elim (Bool-cases (outside low high (length (trim t)))) [
      | inl b ↦ absurd (ground (arith, b, h))
      | inr b ↦ absurd (ground (arith, b, h))
    ]
unchanged_text low high e (some t) (some t') old h k =
    elim (Bool-cases (outside low high (length (trim t)))) [
      | inl b ↦ absurd (ground (arith, b, h))
      | inr b ↦
          let trimmed : t' ≡ trim t = ground (arith, b, h) in
          let again : trim t' ≡ t' = rw trimmed (trim-trim t) in
          let equal : text_eq (trim t') old ≡ true = ground (arith, k) in
          sym again ∙ text_eq_sound (trim t') old equal
    ]

unchanged_id : (o : Option ℕ) (old : ℕ) → id_changed o old ≡ false → or_else o old ≡ old
unchanged_id none old h = refl
unchanged_id (some i) old h = ground (arith, h)

trimmed_all :
    (p : Text → Bool) (bs : List Text) → map trim (filter p (map trim bs)) ≡ filter p (map trim bs)
trimmed_all p [] = refl
trimmed_all p (b ∷ bs) = elim (Bool-cases (p (trim b))) [
  | inl e ↦ rw (e, trim-trim b, trimmed_all p bs) refl
  | inr e ↦ rw (e, trimmed_all p bs) refl
]

check_bullets-cleaned :
    (bs ts : List Text)
    → check_bullets bs ≡ done ts
    → ts ≡ filter (λ b. ltb 0 (length b)) (map trim bs)
unfolding check_bullets
check_bullets-cleaned bs ts h =
    let cleaned = filter (λ b. ltb 0 (length b)) (map trim bs) in
    let (few, h1) = refuse_if-done (ltb max_bullets (length bs)) _ _ ts h in
    let (fit, h2) = refuse_if-done (any_outside 5 80 cleaned) _ _ ts h1 in ground (arith, h2)

-- Bullets that pass the check and are no change are read back as before.
unchanged_bullets :
    (g : ℕ) (o o' : Option (List Text)) (rows : List (Child Text))
    → check_field check_bullets o ≡ done o'
    → texts_changed o' (children_of g rows) ≡ false
    → children_of g (patch_children g o' rows) ≡ children_of g rows
unchanged_bullets g o none rows h k = refl
unchanged_bullets g none (some ts) rows h k = absurd (ground (arith, h))
unchanged_bullets g (some bs) (some ts) rows h k =
    let written : ts ≡ filter (λ b. ltb 0 (length b)) (map trim bs) =
      let (us, c, d) = and_then-done (check_bullets bs) _ (some ts) h in
      let same : us ≡ ts = ground (arith, d) in sym same ∙ check_bullets-cleaned bs us c in
    let again : map trim ts ≡ ts = rw written (trimmed_all (λ b. ltb 0 (length b)) bs) in
    let equal : texts_eq (map trim ts) (children_of g rows) ≡ true = ground (arith, k) in
    let same : (g == g) ≡ true = ground arith in
    rw (children_of-replace_children g g ts rows, same)
      (sym again ∙ texts_eq_sound (map trim ts) (children_of g rows) equal)

-- What an edit that is no sensitive change leaves as it was.
insensitive :
    (caller id : ℕ) (s : GigStore) (g : GigRow) (p : Patch Amount) (q : Patch ℕ)
    → find id s.gigs ≡ some g
    → check_patch caller g s p ≡ done q
    → is_sensitive_change (content_of s g) q ≡ false
    → (or_else q.title g.title ≡ g.title)
      × (or_else q.category_id g.category_id ≡ g.category_id)
      × (or_else q.description g.description ≡ g.description)
      × (children_of id (patch_children id q.bullets s.bullets) ≡ children_of id s.bullets)
unfolding is_sensitive_change content_of
insensitive caller id s g p q found checked same =
    let (a, b, c, d, e) = check_patch-fields caller g s p q checked in
    let key = find_key id s.gigs g found in
    let titles : text_changed q.title g.title ≡ false = ground (arith, same) in
    let ids : id_changed q.category_id g.category_id ≡ false = ground (arith, same) in
    let texts : text_changed q.description g.description ≡ false = ground (arith, same) in
    let bullets : texts_changed q.bullets (children_of g.id s.bullets) ≡ false =
      ground (arith, same) in
    (
      unchanged_text title_min title_max title_length p.title q.title g.title a titles,
      unchanged_id q.category_id g.category_id ids,
      unchanged_text description_min description_max description_length p.description q.description
          g.description b texts,
      unchanged_bullets id p.bullets q.bullets s.bullets e
          (subst (λ k. texts_changed q.bullets (children_of k s.bullets) ≡ false) key bullets),
    )

-- A sensitive change takes a live gig off the market.
live_edit :
    (sensitive has_fields : Bool) (t : GigStatus)
    → sensitive ≡ true
    → t ≡ GigStatus.active
    → or_else (next_status sensitive has_fields t) t ≡ GigStatus.pending
unfolding next_status
live_edit sensitive has_fields t h live = rw (h, live)

live_not_pending : GigStatus.active ≢ GigStatus.pending
live_not_pending h = ground (arith, h)

-- An edit that leaves a live gig live changes neither its title, its category, its description nor
-- its bullets.
pub update_gig-live :
    (now caller id : ℕ) (p : Patch Amount) (s s' : GigStore) (r : UpdateGigResult) (g : GigRow)
    → find id s.gigs ≡ some g
    → g.status ≡ GigStatus.active
    → update_gig now caller id p s ≡ done (r, s')
    → r.gig.status ≡ GigStatus.active
    → (r.gig.title ≡ g.title)
      × (r.gig.category_id ≡ g.category_id)
      × (r.gig.description ≡ g.description)
      × (children_of id s'.bullets ≡ children_of id s.bullets)
unfolding update_gig
update_gig-live now caller id p s s' r g found live h still =
    elim (Outcome-cases (check_patch caller g s p)) [
      | inl (x, c) ↦ absurd (ground (arith, found, c, h))
      | inr (clean, c) ↦
          let sensitive = is_sensitive_change (content_of s g) clean in
          let next = next_status sensitive (has_field clean) g.status in
          elim (Outcome-cases (patch_images id clean.image_ids s.images)) [
            | inl (x, i) ↦ absurd (ground (arith, found, c, i, h))
            | inr (images, i) ↦ elim (Bool-cases sensitive) [
              | inl e ↦
                  let row : r.gig ≡ patched now clean next g = ground (arith, found, c, i, h) in
                  let moved = ap (λ x. x.status) row in
                  absurd (
                    live_not_pending
                      (sym still ∙ moved ∙ live_edit sensitive (has_field clean) g.status e live))
              | inr e ↦
                  let (titles, ids, texts, bullets) = insensitive caller id s g p clean found c e in
                  let row : r.gig ≡ patched now clean next g = ground (arith, found, c, i, h) in
                  let rows : s'.bullets ≡ patch_children id clean.bullets s.bullets =
                    ground (arith, found, c, i, h) in
                  (rw row titles, rw row ids, rw row texts, rw rows bullets)
            ]
          ]
    ]
