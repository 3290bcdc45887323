-- ===== src/Db/Table.antt =====
-- A table keyed by id: `findUnique`, the write of one row, and the laws that the proofs use.
use campusgig_backend.Prelude.{
  ℕ, ◌==◌, if◌then◌else◌, ◌≡◌, List, [], ◌∷◌, Option, none, some, arith,
}
use campusgig_backend.Db.Rows.{
  User, Gig, Order, Extension, Cancellation, WithdrawalRequest, Dispute,
}

pub record Keyed (R : Type 0) : Type 0 where
  pub key : R → ℕ

instance abbrev pub user_keyed : Keyed User
user_keyed = record { key = λ r. r.id }

instance abbrev pub gig_keyed : Keyed Gig
gig_keyed = record { key = λ r. r.id }

instance abbrev pub order_keyed : Keyed Order
order_keyed = record { key = λ r. r.id }

instance abbrev pub extension_keyed : Keyed Extension
extension_keyed = record { key = λ r. r.id }

instance abbrev pub cancellation_keyed : Keyed Cancellation
cancellation_keyed = record { key = λ r. r.id }

instance abbrev pub withdrawal_request_keyed : Keyed WithdrawalRequest
withdrawal_request_keyed = record { key = λ r. r.id }

instance abbrev pub dispute_keyed : Keyed Dispute
dispute_keyed = record { key = λ r. r.id }

module _ {R : Type 0} ⦃k : Keyed R⦄ where
  -- `findUnique({ where: { id } })`
  unfoldable pub find : ℕ → List R → Option R
  find i [] = none
  find i (r ∷ rs) = if k.key r == i then some r else find i rs

  -- The row with the key of `r` becomes `r`.
  unfoldable pub put : R → List R → List R
  put r [] = []
  put r (x ∷ xs) = if k.key x == k.key r then r ∷ xs else x ∷ put r xs

  pub find_key : (i : ℕ) (rs : List R) (r : R) → find i rs ≡ some r → k.key r ≡ i
  unfolding find
  find_key i [] r h = cc
  find_key i (x ∷ xs) r h = ground (arith, find_key i xs r)

  pub find-put :
      (i : ℕ) (r : R) (rs : List R) (old : R)
      → find (k.key r) rs ≡ some old
      → find i (put r rs) ≡ (if k.key r == i then some r else find i rs)
  unfolding find put
  find-put i r [] old h = cc
  find-put i r (x ∷ xs) old h = ground (arith, find-put i r xs old)
