-- ===== src/Prelude/Trimmed.antt =====
-- Trimming a trimmed text changes nothing.
use Prim.Native.Nat.{ℕ, ◌≤◌}
use mathlib.Core.Path.{◌≡◌, refl, sym, ap, ◌∙◌, subst}
use mathlib.Core.Logic.{inl, inr}
use mathlib.Core.List.{List, [], ◌∷◌, ◌++◌, reverse, reverse-reverse, reverse-append}
use native.Mathlib.Omega.{arith}
use campusgig_backend.Prelude.Tests.{Bool-cases}
use campusgig_backend.Prelude.Lists.{length}
use campusgig_backend.Prelude.Text.{is_space, trim_start, trim}

trim_start-twice : (s : List ℕ) → trim_start (trim_start s) ≡ trim_start s
unfolding trim_start
trim_start-twice [] = refl
trim_start-twice (c ∷ cs) = elim (Bool-cases (is_space c)) [
  | inl e ↦ rw e (trim_start-twice cs)
  | inr e ↦ rw (e, e) refl
]

-- What is dropped stands before what is left.
trim_start-suffix : (s : List ℕ) → (d : List ℕ) × (s ≡ d ++ trim_start s)
unfolding trim_start
trim_start-suffix [] = ([], refl)
trim_start-suffix (c ∷ cs) = elim (Bool-cases (is_space c)) [
  | inl e ↦ let (d, h) = trim_start-suffix cs in (c ∷ d, rw e (ap (λ t. c ∷ t) h))
  | inr e ↦ ([], rw e refl)
]

trim_start-shorter : (s : List ℕ) → length (trim_start s) ≤ length s
unfolding trim_start
trim_start-shorter [] = omega arith
trim_start-shorter (c ∷ cs) = elim (Bool-cases (is_space c)) [
  | inl e ↦ rw e (omega (arith, trim_start-shorter cs))
  | inr e ↦ rw e (omega arith)
]

-- A text that does not begin with a space has no beginning that does.
trim_start-prefix : (p c : List ℕ) → trim_start (p ++ c) ≡ p ++ c → trim_start p ≡ p
unfolding trim_start
trim_start-prefix [] c h = refl
trim_start-prefix (x ∷ p) c h = elim (Bool-cases (is_space x)) [
  | inl e ↦
      let shorter = trim_start-shorter (p ++ c) in
      let dropped : trim_start (p ++ c) ≡ x ∷ (p ++ c) = rw e at h in
      let same = ap length dropped in absurd (omega (arith, shorter, same))
  | inr e ↦ rw e refl
]

pub trim-trim : (s : List ℕ) → trim (trim s) ≡ trim s
unfolding trim
trim-trim s =
    let a = trim_start s in
    let b = trim_start (reverse a) in
    let (d, h) = trim_start-suffix (reverse a) in
    let whole : a ≡ reverse b ++ reverse d =
      sym (reverse-reverse a) ∙ ap reverse h ∙ reverse-append d b in
    let kept : trim_start (reverse b) ≡ reverse b =
      trim_start-prefix (reverse b) (reverse d)
        (subst (λ t. trim_start t ≡ t) whole (trim_start-twice s)) in
    rw (kept, reverse-reverse b, trim_start-twice (reverse a))
