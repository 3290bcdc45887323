-- ===== src/Wallet/Withdraw.antt =====
-- Deposits and withdrawals: what each moves, and that a request is decided once.
use campusgig_backend.Prelude.{
  ℕ, ℤ, pos, ◌+ℤ◌, ◌-ℤ◌, ◌≤ℤ◌, ltb_ℤ, ◌==◌, ◌≡◌, ◌∙◌, ◌∷◌, some, arith, int_laws, inl, inr,
  Bool-cases, Option-cases, true,
}
use campusgig_backend.Db.Types.{payment_is_pending}
use campusgig_backend.Db.Rows.{User, WithdrawalRequest, Db}
use campusgig_backend.Db.Table.{find, user_keyed, withdrawal_request_keyed}
use campusgig_backend.Db.Tx.{Delta, apply_delta, Env, ok, Result-cases, update_balances}
use campusgig_backend.Ledger.Balances.{Adjust, total_money, total_money-Adjust}
use campusgig_backend.Refinement.Escrow.{update_balances-Adjust}
use campusgig_backend.Wallet.Funds.{deposit, request_withdrawal}
use campusgig_backend.Wallet.Pending.{PendingBacked, pending_of-Adjust, requested-cons}

-- The change of a user's balances by a request, its approval and its rejection.
abbrev pub request_delta : ℤ → Delta
request_delta x = record { wallet = pos 0 -ℤ x; escrow = pos 0; held = x }

abbrev pub approval_delta : ℤ → Delta
approval_delta x = record { wallet = pos 0; escrow = pos 0; held = pos 0 -ℤ x }

abbrev pub rejection_delta : ℤ → Delta
rejection_delta x = record { wallet = x; escrow = pos 0; held = pos 0 -ℤ x }

-- A deposit adds its amount to the user's wallet balance alone, and writes neither orders nor
-- withdrawal requests.
pub deposit_lem :
    (env : Env) (i : ℕ) (x : ℤ) (d d' : Db) (u : User)
    → deposit env i x d ≡ ok (u, d')
    → Adjust i (record { wallet = x; escrow = pos 0; held = pos 0 }) d.users d'.users
      × (d'.orders ≡ d.orders)
      × (d'.withdrawal_requests ≡ d.withdrawal_requests)
unfolding deposit
deposit_lem env i x d d' u h =
    let c : Delta = record { wallet = x; escrow = pos 0; held = pos 0 } in
    elim (Result-cases (update_balances i c d)) [
      | inl (e, q) ↦ absurd (ground (arith, q, h))
      | inr (u1, d1, q) ↦
          let a = update_balances-Adjust i c d d1 u1 q in
          let paid : d'.users ≡ d1.users = ground (arith, q, h) in
          (rw paid a.0, ground (arith, q, h, a.1), ground (arith, q, h, a.2))
    ]

-- A withdrawal request that returns was covered by the user's wallet; it moves its amount from the
-- wallet to the pending balance and files one row, pending, of the user and the amount, in front of
-- the others; orders are not written.
pub request_withdrawal_lem :
    (env : Env) (i : ℕ) (x : ℤ) (d d' : Db) (r : WithdrawalRequest)
    → request_withdrawal env i x d ≡ ok (r, d')
    → (u : User) × (find i d.users ≡ some u)
      × (x ≤ℤ u.wallet_balance)
      × Adjust i (request_delta x) d.users d'.users
      × (d'.orders ≡ d.orders)
      × (d'.withdrawal_requests ≡ r ∷ d.withdrawal_requests)
      × (r.user_id ≡ i)
      × (r.amount_vnd ≡ x)
      × (payment_is_pending r.status ≡ true)
unfolding request_withdrawal update_balances apply_delta
request_withdrawal_lem env i x d d' r h = elim (Option-cases (find i d.users)) [
  | inl e ↦ absurd (ground (arith, e, h))
  | inr (u, e) ↦
      let after = u.wallet_balance +ℤ (pos 0 -ℤ x) in
      elim (Bool-cases (ltb_ℤ after (pos 0))) [
        | inl short ↦ absurd (ground (arith, e, short, h))
        | inr covered ↦
            let enough : pos 0 ≤ℤ after = ground (arith, covered) in
            (
              u,
              e,
              omega (int_laws, enough),
              record { old = u; found = e; written = ground (arith, e, covered, h) },
              ground (arith, e, covered, h),
              ground (arith, e, covered, h),
              ground (arith, e, covered, h),
              ground (arith, e, covered, h),
              ground (arith, e, covered, h),
            )
      ]
]

-- A request that goes through neither makes nor loses money.
pub request_withdrawal-total_money :
    (env : Env) (i : ℕ) (x : ℤ) (d d' : Db) (r : WithdrawalRequest)
    → request_withdrawal env i x d ≡ ok (r, d')
    → total_money d'.users ≡ total_money d.users
request_withdrawal-total_money env i x d d' r h =
    let (u, _, _, a, _, _, _, _, _) = request_withdrawal_lem env i x d d' r h in
    total_money-Adjust i (request_delta x) d.users d'.users a ∙ omega int_laws

-- A request keeps every user's pending balance equal to what the user's pending requests ask for.
pub request_withdrawal-PendingBacked :
    (env : Env) (i : ℕ) (x : ℤ) (d d' : Db) (r : WithdrawalRequest)
    → request_withdrawal env i x d ≡ ok (r, d')
    → PendingBacked d.users d.withdrawal_requests
    → PendingBacked d'.users d'.withdrawal_requests
request_withdrawal-PendingBacked env i x d d' r h b u =
    let (w, _, _, a, _, rs, owner, amount, status) = request_withdrawal_lem env i x d d' r h in
    let law = pending_of-Adjust u i (request_delta x) d.users d'.users a in
    let sum = requested-cons u i x r d.withdrawal_requests owner amount status in
    elim (Bool-cases (i == u)) [
      | inl hit ↦
          let now = rw hit at law in
          let more = rw hit at sum in now ∙ rw (rs, more, b u) (omega int_laws)
      | inr miss ↦
          let now = rw miss at law in
          let more = rw miss at sum in now ∙ rw (rs, more, b u) (omega int_laws)
    ]
