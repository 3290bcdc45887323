-- ===== src/Ledger/Balances.antt =====
-- The balances of a table of users, and how one update of a row changes them.
use campusgig_backend.Prelude.{
  ℕ, ℤ, pos, ◌+ℤ◌, ◌==◌, if◌then◌else◌, ◌≡◌, List, [], ◌∷◌, none, some, arith, int_laws, inl, inr,
  parts_of_eq, Bool-cases,
}
use campusgig_backend.Db.Rows.{User}
use campusgig_backend.Db.Table.{find, put, find_key, find-put, user_keyed}
use campusgig_backend.Db.Tx.{Delta, apply_delta}

-- The escrow balance of a user; zero where there is no such user.
unfoldable pub escrow_of : ℕ → List User → ℤ
escrow_of i us = elim (find i us) [ none ↦ pos 0 | some u ↦ u.escrow_balance ]

-- All that a user owns: withdrawable, in escrow and awaiting a withdrawal.
pub worth : User → ℤ
worth u = u.wallet_balance +ℤ u.escrow_balance +ℤ u.pending_withdrawal_balance

pub total_money : List User → ℤ
total_money [] = pos 0
total_money (u ∷ us) = worth u +ℤ total_money us

-- One row's balances change by `c`.
pub record Adjust (i : ℕ) (c : Delta) (us us' : List User) : Type 0 where
  pub old : User
  pub found : find i us ≡ some old
  pub written : us' ≡ put (apply_delta c old) us

pub escrow_of-Adjust :
    (j i : ℕ) (c : Delta) (us us' : List User)
    → Adjust i c us us'
    → escrow_of j us' ≡ (if i == j then escrow_of j us +ℤ c.escrow else escrow_of j us)
unfolding escrow_of apply_delta
escrow_of-Adjust j i c us us' a =
    let k = find_key i us a.old a.found in
    ground (arith, k, a.found, a.written, find-put j (apply_delta c a.old) us a.old)

total_money-put :
    (us : List User) (u old : User)
    → find u.id us ≡ some old
    → total_money (put u us) +ℤ worth old ≡ total_money us +ℤ worth u
unfolding total_money find put
total_money-put [] u old h = cc
total_money-put (x ∷ us) u old h = elim (Bool-cases (x.id == u.id)) [
  | inl hit ↦ let same : x ≡ old = ground (arith, hit, h) in rw (hit, ← same) (omega int_laws)
  | inr miss ↦
      let rest : find u.id us ≡ some old = ground (arith, miss, h) in
      rw miss (omega (int_laws, parts_of_eq _ _ (total_money-put us u old rest)))
]

pub total_money-Adjust :
    (i : ℕ) (c : Delta) (us us' : List User)
    → Adjust i c us us'
    → total_money us' ≡ total_money us +ℤ (c.wallet +ℤ c.escrow +ℤ c.held)
unfolding apply_delta worth
total_money-Adjust i c us us' a =
    let k = find_key i us a.old a.found in
    rw a.written (
      omega (
        int_laws,
        parts_of_eq _ _ (total_money-put us (apply_delta c a.old) a.old (simp k a.found)),
      ))
