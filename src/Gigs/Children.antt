-- ===== src/Gigs/Children.antt =====
-- The bullets and FAQ entries of a gig: what is written is what is read.
use campusgig_backend.Prelude.{
  ℕ, suc, ◌==◌, ◌≡◌, not, List, [], ◌∷◌, ◌++◌, Bool, arith, refl, filter, map, if◌then◌else◌,
  Bool-cases, inl, inr,
}
use campusgig_backend.Gigs.Rows.{Child}
use campusgig_backend.Gigs.Edit.{of_parent, numbered, replace_children, children_of, by_position}

module _ {A : Type 0} where
  filter-append :
      (p : Child A → Bool) (xs ys : List (Child A))
      → filter p (xs ++ ys) ≡ filter p xs ++ filter p ys
  filter-append p [] ys = refl
  filter-append p (x ∷ xs) ys = ground (arith, filter-append p xs ys)

  -- The old rows of the gig are gone, and those of another one are kept.
  filter-others :
      (g h : ℕ) (rows : List (Child A))
      → filter (of_parent h) (filter (λ c. not (of_parent g c)) rows)
        ≡ (if g == h then [] else filter (of_parent h) rows)
  filter-others g h [] = ground arith
  filter-others g h (x ∷ xs) = ground (arith, filter-others g h xs)

  filter-numbered :
      (g h k : ℕ) (vs : List A)
      → filter (of_parent h) (numbered g k vs) ≡ (if g == h then numbered g k vs else [])
  filter-numbered g h k [] = ground arith
  filter-numbered g h k (v ∷ vs) = ground (arith, filter-numbered g h (suc k) vs)

  by_position-numbered : (g k : ℕ) (vs : List A) → by_position (numbered g k vs) ≡ numbered g k vs
  by_position-numbered g k [] = refl
  by_position-numbered g k (v ∷ []) = refl
  by_position-numbered g k (v ∷ w ∷ vs) =
      rw (by_position-numbered g (suc k) (w ∷ vs)) (ground arith)

  values-numbered : (g k : ℕ) (vs : List A) → map (λ c. c.value) (numbered g k vs) ≡ vs
  values-numbered g k [] = refl
  values-numbered g k (v ∷ vs) = rw (values-numbered g (suc k) vs)

  append_nil : (xs : List (Child A)) → xs ++ [] ≡ xs
  append_nil [] = refl
  append_nil (x ∷ xs) = rw (append_nil xs)

  -- After an edit replaces the bullets or the FAQ entries of a gig, the gig reads back just the new
  -- ones in their order, and every other gig reads what it read before.
  pub children_of-replace_children :
      (g h : ℕ) (vs : List A) (rows : List (Child A))
      → children_of h (replace_children g vs rows) ≡ (if g == h then vs else children_of h rows)
  unfolding children_of replace_children
  children_of-replace_children g h vs rows =
      rw
        (
          filter-append (of_parent h) (filter (λ c. not (of_parent g c)) rows) (numbered g 0 vs),
          filter-others g h rows,
          filter-numbered g h 0 vs,
        )
        (elim (Bool-cases (g == h)) [
          | inl e ↦ rw e (rw (by_position-numbered g 0 vs) (values-numbered g 0 vs))
          | inr e ↦ rw (e, append_nil (filter (of_parent h) rows)) refl
        ])
