-- ===== src/Prelude/Fallible.antt =====
-- What a handler does: it returns a value, or throws one of its module's exceptions.
use mathlib.Core.Path.{◌≡◌, refl}
use mathlib.Core.Logic.{◌⊎◌, inl, inr}
use mathlib.Core.Bool.{Bool, true, false}
use mathlib.Core.Option.{Option, none, some}
use native.Mathlib.Omega.{arith}

pub data Outcome (E : Type 0) (A : Type 0) : Type 0 where
  done : A → Outcome E A
  thrown : E → Outcome E A

module _ {E : Type 0} where
  abbrev pub and_then : {A B : Type 0} → Outcome E A → (A → Outcome E B) → Outcome E B
  and_then r k = elim r [ done a ↦ k a | thrown e ↦ thrown e ]

  -- `if (b) throw e`
  abbrev pub refuse_if : {A : Type 0} → Bool → E → Outcome E A → Outcome E A
  refuse_if true e rest = thrown e
  refuse_if false e rest = rest

  abbrev pub present : {A : Type 0} → Option A → E → Outcome E A
  present none e = thrown e
  present (some a) e = done a

  pub Outcome-cases :
      {A : Type 0} (r : Outcome E A) → ((e : E) × (r ≡ thrown e)) ⊎ ((a : A) × (r ≡ done a))
  Outcome-cases (done a) = inr (a, refl)
  Outcome-cases (thrown e) = inl (e, refl)

  -- Where a chain returned, its first step did, and so did the rest on what that gave.
  pub and_then-done :
      {A B : Type 0} (r : Outcome E A) (k : A → Outcome E B) (b : B)
      → and_then r k ≡ done b
      → (a : A) × (r ≡ done a) × (k a ≡ done b)
  and_then-done (done a) k b h = (a, refl, h)
  and_then-done (thrown e) k b h = absurd (ground (arith, h))

  pub refuse_if-done :
      {A : Type 0} (c : Bool) (e : E) (rest : Outcome E A) (a : A)
      → refuse_if c e rest ≡ done a
      → (c ≡ false) × (rest ≡ done a)
  refuse_if-done true e rest a h = absurd (ground (arith, h))
  refuse_if-done false e rest a h = (refl, h)
