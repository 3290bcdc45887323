-- ===== src/Wallet/Outcome.antt =====
-- `approveWithdrawal` and `rejectWithdrawal` as whole transactions: when they return, and what the
-- users' money is then.
use campusgig_backend.Prelude.{
  ℕ, ◌+ℤ◌, ◌≡◌, ◌∙◌, refl, some, arith, int_laws, inl, inr, Option-cases, true, ◌↔◌,
}
use campusgig_backend.Db.Types.{Text, payment_is_pending, WithdrawalRejectionReason}
use campusgig_backend.Db.Rows.{User, WithdrawalRequest, Db}
use campusgig_backend.Db.Table.{find, find_key, user_keyed, withdrawal_request_keyed}
use campusgig_backend.Db.Tx.{Env, ok, Result-cases, update_balances}
use campusgig_backend.Ledger.Balances.{total_money, total_money-Adjust}
use campusgig_backend.Wallet.Funds.{
  approve_withdrawal, reject_withdrawal, finish_approval, finish_rejection,
}
use campusgig_backend.Wallet.Pending.{PendingBacked}
use campusgig_backend.Wallet.Decided.{
  finish_approval-Decided, finish_rejection-Decided, Decided-PendingBacked,
}

-- A pending request of a user that the tables hold.
abbrev pub IsDecidable : ℕ → Db → Type 0
IsDecidable i d =
    (r : WithdrawalRequest) × (find i d.withdrawal_requests ≡ some r)
    × (payment_is_pending r.status ≡ true)
    × (u : User) × (find r.user_id d.users ≡ some u)

-- An approval returns for a pending request of a user that is there, and throws for any other.
pub approve_withdrawal-returns :
    (env : Env) (i admin : ℕ) (d : Db)
    → ((d' : Db) × (approve_withdrawal env i admin d ≡ ok (tt, d'))) ↔ IsDecidable i d
unfolding approve_withdrawal finish_approval update_balances
approve_withdrawal-returns env i admin d = (
  λ (d', h). elim (Option-cases (find i d.withdrawal_requests)) [
    | inl e ↦ absurd (ground (arith, e, h))
    | inr (r, e) ↦
        let k = find_key i d.withdrawal_requests r e in
        elim (Option-cases (find r.user_id d.users)) [
          | inl f ↦ absurd (ground (arith, e, k, f, h))
          | inr (u, f) ↦ (r, e, ground (arith, e, k, f, h), u, f)
        ]
  ],
  λ (r, e, hit, u, f).
      let k = find_key i d.withdrawal_requests r e in
      elim (Result-cases (approve_withdrawal env i admin d)) [
        | inl (x, q) ↦ absurd (ground (arith, e, k, hit, f, q))
        | inr (_, d', q) ↦ (d', q)
      ],
)

-- A rejection returns for a pending request of a user that is there, and throws for any other.
pub reject_withdrawal-returns :
    (env : Env) (i admin : ℕ) (reason : WithdrawalRejectionReason) (note : Text) (d : Db)
    → ((d' : Db) × (reject_withdrawal env i admin reason note d ≡ ok (tt, d'))) ↔ IsDecidable i d
unfolding reject_withdrawal finish_rejection update_balances
reject_withdrawal-returns env i admin reason note d = (
  λ (d', h). elim (Option-cases (find i d.withdrawal_requests)) [
    | inl e ↦ absurd (ground (arith, e, h))
    | inr (r, e) ↦
        let k = find_key i d.withdrawal_requests r e in
        elim (Option-cases (find r.user_id d.users)) [
          | inl f ↦ absurd (ground (arith, e, k, f, h))
          | inr (u, f) ↦ (r, e, ground (arith, e, k, f, h), u, f)
        ]
  ],
  λ (r, e, hit, u, f).
      let k = find_key i d.withdrawal_requests r e in
      elim (Result-cases (reject_withdrawal env i admin reason note d)) [
        | inl (x, q) ↦ absurd (ground (arith, e, k, hit, f, q))
        | inr (_, d', q) ↦ (d', q)
      ],
)

-- An approval that returns takes the amount of its request out of the users' money and writes no
-- order; and pending balances that were what the pending requests ask for still are.
pub approve_withdrawal_lem :
    (env : Env) (i admin : ℕ) (d d' : Db)
    → approve_withdrawal env i admin d ≡ ok (tt, d')
    → (r : WithdrawalRequest) × (find i d.withdrawal_requests ≡ some r)
      × (total_money d'.users +ℤ r.amount_vnd ≡ total_money d.users)
      × (d'.orders ≡ d.orders)
      × (PendingBacked d.users d.withdrawal_requests
          → PendingBacked d'.users d'.withdrawal_requests)
unfolding approve_withdrawal
approve_withdrawal_lem env i admin d d' h = elim (Option-cases (find i d.withdrawal_requests)) [
  | inl e ↦ absurd (ground (arith, e, h))
  | inr (r, e) ↦
      let k = find_key i d.withdrawal_requests r e in
      let run : finish_approval env r admin d ≡ ok (tt, d') = ground (arith, e, h) in
      let m = finish_approval-Decided env r admin d d' run in
      let sum = total_money-Adjust _ _ d.users d'.users m.paid in
      (
        r,
        e,
        rw sum (omega int_laws),
        m.same_orders,
        Decided-PendingBacked r _ d d' (simp k e) refl m,
      )
]

-- A rejection that returns keeps the sum of the users' money and writes no order; and pending
-- balances that were what the pending requests ask for still are.
pub reject_withdrawal_lem :
    (env : Env) (i admin : ℕ) (reason : WithdrawalRejectionReason) (note : Text) (d d' : Db)
    → reject_withdrawal env i admin reason note d ≡ ok (tt, d')
    → (total_money d'.users ≡ total_money d.users)
      × (d'.orders ≡ d.orders)
      × (PendingBacked d.users d.withdrawal_requests
          → PendingBacked d'.users d'.withdrawal_requests)
unfolding reject_withdrawal
reject_withdrawal_lem env i admin reason note d d' h =
    elim (Option-cases (find i d.withdrawal_requests)) [
      | inl e ↦ absurd (ground (arith, e, h))
      | inr (r, e) ↦
          let k = find_key i d.withdrawal_requests r e in
          let run : finish_rejection env r admin reason note d ≡ ok (tt, d') =
            ground (arith, e, h) in
          let m = finish_rejection-Decided env r admin reason note d d' run in
          let sum = total_money-Adjust _ _ d.users d'.users m.paid in
          (sum ∙ omega int_laws, m.same_orders, Decided-PendingBacked r _ d d' (simp k e) refl m)
    ]
