-- ===== src/Prelude/Queries.antt =====
-- What a query does with the rows of a table: `where`, `_count`, `_sum`, `skip` and `take`.
use Prim.Native.Nat.{ℕ, zero, suc, ◌+◌, ◌-◌}
use mathlib.Core.Path.{◌≡◌, refl}
use mathlib.Core.Bool.{Bool, true, false}
use mathlib.Core.List.{List, [], ◌∷◌, ◌++◌}
use mathlib.Core.Logic.{inl, inr}
use native.Mathlib.Omega.{arith}
use campusgig_backend.Prelude.Tests.{if◌then◌else◌, Bool-cases}
use campusgig_backend.Prelude.Lists.{length}

abbrev pub count_if : Bool → ℕ
count_if true = 1
count_if false = 0

zero_add : (n : ℕ) → 0 + n ≡ n
zero_add n = omega arith

suc_add : (m n : ℕ) → suc m + n ≡ suc (m + n)
suc_add m n = omega arith

module _ {ℓ} {A : Type ℓ} where
  abbrev pub filter : (A → Bool) → List A → List A
  filter p [] = []
  filter p (x ∷ xs) = let rest = filter p xs in if p x then x ∷ rest else rest

  abbrev pub count_where : (A → Bool) → List A → ℕ
  count_where p [] = 0
  count_where p (x ∷ xs) = count_if (p x) + count_where p xs

  -- The sum of `f` over the rows that pass.
  abbrev pub sum_where : (A → Bool) → (A → ℕ) → List A → ℕ
  sum_where p f [] = 0
  sum_where p f (x ∷ xs) = (if p x then f x else 0) + sum_where p f xs

  abbrev pub take : ℕ → List A → List A
  take zero xs = []
  take (suc n) [] = []
  take (suc n) (x ∷ xs) = x ∷ take n xs

  abbrev pub drop : ℕ → List A → List A
  drop zero xs = xs
  drop (suc n) [] = []
  drop (suc n) (x ∷ xs) = drop n xs

  pub length-filter : (p : A → Bool) (xs : List A) → length (filter p xs) ≡ count_where p xs
  length-filter p [] = refl
  length-filter p (x ∷ xs) = ground (arith, length-filter p xs)

  -- Rows that pass both tests alike are counted alike.
  pub count_where-ext :
      (p q : A → Bool) (same : (x : A) → p x ≡ q x) (xs : List A)
      → count_where p xs ≡ count_where q xs
  count_where-ext p q same [] = refl
  count_where-ext p q same (x ∷ xs) = ground (arith, same x, count_where-ext p q same xs)

  pub take-all : (n : ℕ) (xs : List A) → length xs - n ≡ 0 → take n xs ≡ xs
  take-all zero [] h = refl
  take-all zero (x ∷ xs) h = absurd (omega (arith, h))
  take-all (suc n) [] h = refl
  take-all (suc n) (x ∷ xs) h = rw (take-all n xs (omega (arith, h)))

  pub take-drop : (m n : ℕ) (xs : List A) → take m xs ++ take n (drop m xs) ≡ take (m + n) xs
  take-drop zero n xs = rw (zero_add n)
  take-drop (suc m) zero [] = rw (suc_add m zero)
  take-drop (suc m) (suc n) [] = rw (suc_add m (suc n))
  take-drop (suc m) n (x ∷ xs) = rw (suc_add m n, take-drop m n xs)

  -- Where no row passes, there is nothing to sum.
  pub sum_where-none :
      (p : A → Bool) (f : A → ℕ) (xs : List A) → count_where p xs ≡ 0 → sum_where p f xs ≡ 0
  sum_where-none p f [] h = refl
  sum_where-none p f (x ∷ xs) h = elim (Bool-cases (p x)) [
    | inl e ↦ absurd (ground (arith, e, h))
    | inr e ↦ let rest = sum_where-none p f xs (ground (arith, e, h)) in rw e (omega (arith, rest))
  ]
