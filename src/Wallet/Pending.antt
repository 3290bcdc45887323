-- ===== src/Wallet/Pending.antt =====
-- What users await: the sum of a user's pending withdrawal requests, and the invariant that the
-- pending balance of every user is that sum.
use campusgig_backend.Prelude.{
  ℕ, ℤ, pos, ◌+ℤ◌, ◌==◌, ◌&&◌, if◌then◌else◌, ◌≡◌, ◌∙◌, List, [], ◌∷◌, none, some, arith, int_laws,
  parts_of_eq, inl, inr, Bool-cases, true, false,
}
use campusgig_backend.Db.Types.{payment_is_pending}
use campusgig_backend.Db.Rows.{User, WithdrawalRequest}
use campusgig_backend.Db.Table.{find, put, find_key, find-put, user_keyed, withdrawal_request_keyed}
use campusgig_backend.Db.Tx.{Delta, apply_delta}
use campusgig_backend.Ledger.Balances.{Adjust}

-- The pending balance of a user; zero where there is no such user.
unfoldable pub pending_of : ℕ → List User → ℤ
pending_of i us = elim (find i us) [ none ↦ pos 0 | some u ↦ u.pending_withdrawal_balance ]

pub pending_of-Adjust :
    (j i : ℕ) (c : Delta) (us us' : List User)
    → Adjust i c us us'
    → pending_of j us' ≡ (if i == j then pending_of j us +ℤ c.held else pending_of j us)
unfolding pending_of apply_delta
pending_of-Adjust j i c us us' a =
    let k = find_key i us a.old a.found in
    ground (arith, k, a.found, a.written, find-put j (apply_delta c a.old) us a.old)

-- What one request asks for, as long as it is pending.
unfoldable pub requested_by : ℕ → WithdrawalRequest → ℤ
requested_by u r = if r.user_id == u && payment_is_pending r.status then r.amount_vnd else pos 0

unfoldable pub requested : ℕ → List WithdrawalRequest → ℤ
requested u [] = pos 0
requested u (r ∷ rs) = requested_by u r +ℤ requested u rs

-- A new pending row of user `i` over `x` adds to the sum of that user.
pub requested-cons :
    (u i : ℕ) (x : ℤ) (r : WithdrawalRequest) (rs : List WithdrawalRequest)
    → r.user_id ≡ i
    → r.amount_vnd ≡ x
    → payment_is_pending r.status ≡ true
    → requested u (r ∷ rs) ≡ (if i == u then x else pos 0) +ℤ requested u rs
unfolding requested requested_by
requested-cons u i x r rs owner amount e = ground (arith, owner, amount, e)

requested-put :
    (u : ℕ) (rs : List WithdrawalRequest) (r old : WithdrawalRequest)
    → find r.id rs ≡ some old
    → requested u (put r rs) +ℤ requested_by u old ≡ requested u rs +ℤ requested_by u r
unfolding requested find put
requested-put u [] r old h = cc
requested-put u (x ∷ rs) r old h = elim (Bool-cases (x.id == r.id)) [
  | inl hit ↦ let same : x ≡ old = ground (arith, hit, h) in rw (hit, ← same) (omega int_laws)
  | inr miss ↦
      let rest : find r.id rs ≡ some old = ground (arith, miss, h) in
      rw miss (omega (int_laws, parts_of_eq _ _ (requested-put u rs r old rest)))
]

-- Deciding a pending request takes its amount out of its user's sum.
pub requested-decide :
    (u : ℕ) (rs : List WithdrawalRequest) (r old : WithdrawalRequest)
    → find r.id rs ≡ some old
    → payment_is_pending old.status ≡ true
    → payment_is_pending r.status ≡ false
    → requested u (put r rs) +ℤ (if old.user_id == u then old.amount_vnd else pos 0)
      ≡ requested u rs
unfolding requested_by
requested-decide u rs r old h e f =
    let law = requested-put u rs r old h in
    let paid : requested_by u old ≡ (if old.user_id == u then old.amount_vnd else pos 0) =
      ground (arith, e) in
    let free : requested_by u r ≡ pos 0 = ground (arith, f) in
    (rw (paid, free) at law) ∙ omega int_laws

-- Every user's pending balance is what the user's pending requests ask for.
abbrev pub PendingBacked : List User → List WithdrawalRequest → Type 0
PendingBacked us rs = (u : ℕ) → pending_of u us ≡ requested u rs
