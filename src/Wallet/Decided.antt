-- ===== src/Wallet/Decided.antt =====
-- The admin's decision on a withdrawal: what it moves, that it is made once, and that pending
-- balances stay what the pending requests ask for.
use campusgig_backend.Prelude.{
  ℕ, pos, ◌-ℤ◌, ◌==◌, ◌≡◌, ◌⊎◌, ◌∙◌, refl, some, arith, int_laws, inl, inr, Bool-cases,
  Option-cases, true, false,
}
use campusgig_backend.Db.Types.{Text, PaymentStatus, payment_is_pending, WithdrawalRejectionReason}
use campusgig_backend.Db.Rows.{WithdrawalRequest, Db}
use campusgig_backend.Db.Table.{find, put, find_key, find-put, user_keyed, withdrawal_request_keyed}
use campusgig_backend.Db.Tx.{
  Delta, Env, ok, err, Result-cases, update_balances, bad_request, already_processed,
}
use campusgig_backend.Ledger.Balances.{Adjust}
use campusgig_backend.Refinement.Escrow.{update_balances-Adjust}
use campusgig_backend.Wallet.Funds.{finish_approval, finish_rejection}
use campusgig_backend.Wallet.Pending.{PendingBacked, pending_of-Adjust, requested-decide}
use campusgig_backend.Wallet.Withdraw.{approval_delta, rejection_delta}

-- A pending row of the request's id is decided, and the balances of the request's user change.
pub record Decided (request : WithdrawalRequest) (c : Delta) (d d' : Db) : Type 0 where
  pub old : WithdrawalRequest
  pub new : WithdrawalRequest
  pub found : find request.id d.withdrawal_requests ≡ some old
  pub was_pending : payment_is_pending old.status ≡ true
  pub is_done : payment_is_pending new.status ≡ false
  pub same_id : new.id ≡ old.id
  pub written : d'.withdrawal_requests ≡ put new d.withdrawal_requests
  pub same_orders : d'.orders ≡ d.orders
  pub paid : Adjust request.user_id c d.users d'.users

-- An approval that goes through decides a pending row and lowers the user's pending balance by the
-- request's amount.
pub finish_approval-Decided :
    (env : Env) (request : WithdrawalRequest) (admin : ℕ) (d d' : Db)
    → finish_approval env request admin d ≡ ok (tt, d')
    → Decided request (approval_delta request.amount_vnd) d d'
unfolding finish_approval
finish_approval-Decided env request admin d d' h =
    elim (Option-cases (find request.id d.withdrawal_requests)) [
      | inl e ↦ absurd (ground (arith, e, h))
      | inr (r, e) ↦
          let new : WithdrawalRequest = record r {
            status = PaymentStatus.completed;
            processed_at = some env.now;
            processed_by_user_id = some admin;
          } in
          let d0 : Db = record d { withdrawal_requests = put new d.withdrawal_requests } in
          elim (Bool-cases (payment_is_pending r.status)) [
            | inr miss ↦ absurd (ground (arith, e, miss, h))
            | inl hit ↦
                elim (Result-cases
                  (update_balances request.user_id (approval_delta request.amount_vnd) d0)) [
                    | inl (x, q) ↦ absurd (ground (arith, e, hit, q, h))
                    | inr (u, d1, q) ↦
                        let a = update_balances-Adjust _ _ d0 d1 u q in
                        let paid : d'.users ≡ d1.users = ground (arith, e, hit, q, h) in
                        record {
                          old = r;
                          new = new;
                          found = e;
                          was_pending = hit;
                          is_done = refl;
                          same_id = refl;
                          written = ground (arith, e, hit, q, h, a.2);
                          same_orders = ground (arith, e, hit, q, h, a.1);
                          paid = rw paid a.0;
                        }
                  ]
          ]
    ]

-- A rejection that goes through decides a pending row and moves the request's amount from the
-- user's pending balance back to the wallet.
pub finish_rejection-Decided :
    (env : Env) (request : WithdrawalRequest) (admin : ℕ) (reason : WithdrawalRejectionReason)
    (note : Text) (d d' : Db)
    → finish_rejection env request admin reason note d ≡ ok (tt, d')
    → Decided request (rejection_delta request.amount_vnd) d d'
unfolding finish_rejection
finish_rejection-Decided env request admin reason note d d' h =
    elim (Option-cases (find request.id d.withdrawal_requests)) [
      | inl e ↦ absurd (ground (arith, e, h))
      | inr (r, e) ↦
          let new : WithdrawalRequest = record r {
            status = PaymentStatus.rejected;
            rejection_reason = some reason;
            rejection_note = some note;
            processed_at = some env.now;
            processed_by_user_id = some admin;
          } in
          let d0 : Db = record d { withdrawal_requests = put new d.withdrawal_requests } in
          elim (Bool-cases (payment_is_pending r.status)) [
            | inr miss ↦ absurd (ground (arith, e, miss, h))
            | inl hit ↦
                elim (Result-cases
                  (update_balances request.user_id (rejection_delta request.amount_vnd) d0)) [
                    | inl (x, q) ↦ absurd (ground (arith, e, hit, q, h))
                    | inr (u, d1, q) ↦
                        let a = update_balances-Adjust _ _ d0 d1 u q in
                        let paid : d'.users ≡ d1.users = ground (arith, e, hit, q, h) in
                        record {
                          old = r;
                          new = new;
                          found = e;
                          was_pending = hit;
                          is_done = refl;
                          same_id = refl;
                          written = ground (arith, e, hit, q, h, a.2);
                          same_orders = ground (arith, e, hit, q, h, a.1);
                          paid = rw paid a.0;
                        }
                  ]
          ]
    ]

-- After a decision the row of the request is there, and is not pending.
Decided-row :
    (request : WithdrawalRequest) (c : Delta) (d d' : Db)
    → (e : Decided request c d d') → find request.id d'.withdrawal_requests ≡ some e.new
Decided-row request c d d' e =
    let k = find_key request.id d.withdrawal_requests e.old e.found in
    let same : e.new.id ≡ request.id = e.same_id ∙ k in
    let self : (request.id == request.id) ≡ true = ground arith in
    rw e.written (
      find-put request.id e.new d.withdrawal_requests e.old (simp same e.found) ∙ simp (same, self))

-- After a decision, one that holds an earlier read of the row is refused.
Decided-refused :
    (request other : WithdrawalRequest) (c : Delta) (d d' : Db) (env : Env) (admin : ℕ)
    (reason : WithdrawalRejectionReason) (note : Text)
    → Decided request c d d'
    → other.id ≡ request.id
    → (finish_approval env other admin d' ≡ err (bad_request already_processed))
      × (finish_rejection env other admin reason note d' ≡ err (bad_request already_processed))
unfolding finish_approval finish_rejection
Decided-refused request other c d d' env admin reason note e same =
    let row = Decided-row request c d d' e in
    let row' : find other.id d'.withdrawal_requests ≡ some e.new = rw same row in
    (ground (arith, row', e.is_done), ground (arith, row', e.is_done))

-- A withdrawal is decided once: after an approval or a rejection has committed, every approval and
-- every rejection of the request that holds an earlier read of the row is refused as already
-- processed.
pub finish_approval-once :
    (request other : WithdrawalRequest) (env env' : Env) (admin admin' : ℕ)
    (reason reason' : WithdrawalRejectionReason) (note note' : Text) (d d' : Db)
    → (finish_approval env request admin d ≡ ok (tt, d'))
      ⊎ (finish_rejection env request admin reason note d ≡ ok (tt, d'))
    → other.id ≡ request.id
    → (finish_approval env' other admin' d' ≡ err (bad_request already_processed))
      × (finish_rejection env' other admin' reason' note' d' ≡ err (bad_request already_processed))
finish_approval-once request other env env' admin admin' reason reason' note note' d d' (inl h)
      same =
    Decided-refused request other _ d d' env' admin' reason' note'
      (finish_approval-Decided env request admin d d' h) same
finish_approval-once request other env env' admin admin' reason reason' note note' d d' (inr h)
      same =
    Decided-refused request other _ d d' env' admin' reason' note'
      (finish_rejection-Decided env request admin reason note d d' h) same

-- A decision whose read is the row as stored, and which takes the row's amount out of the pending
-- balance, keeps the pending balances what the pending requests ask for.
pub Decided-PendingBacked :
    (request : WithdrawalRequest) (c : Delta) (d d' : Db)
    → find request.id d.withdrawal_requests ≡ some request
    → c.held ≡ pos 0 -ℤ request.amount_vnd
    → Decided request c d d'
    → PendingBacked d.users d.withdrawal_requests
    → PendingBacked d'.users d'.withdrawal_requests
Decided-PendingBacked request c d d' read takes e b u =
    let k = find_key request.id d.withdrawal_requests e.old e.found in
    let fresh : e.old ≡ request = ground (arith, e.found, read) in
    let law = pending_of-Adjust u request.user_id c d.users d'.users e.paid in
    let here : find e.new.id d.withdrawal_requests ≡ some request = simp (e.same_id, k) read in
    let sum =
      requested-decide u d.withdrawal_requests e.new request here (rw (← fresh) e.was_pending)
        e.is_done in
    elim (Bool-cases (request.user_id == u)) [
      | inl hit ↦
          let now = rw hit at law in
          let less = rw hit at sum in now ∙ rw (e.written, takes, b u, ← less) (omega int_laws)
      | inr miss ↦
          let now = rw miss at law in
          let less = rw miss at sum in now ∙ rw (e.written, b u, ← less) (omega int_laws)
    ]
