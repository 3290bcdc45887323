-- ===== src/Wallet/Commands.antt =====
-- The command handlers of src/modules/wallet/application/commands: the tests that stand before the
-- repository's transactions. A handler may run several transactions, and one that throws later does
-- not undo an earlier one. The admin activity log and the events that handlers publish are left out.
use campusgig_backend.Prelude.{
  ℕ, ℤ, pos, ltb, ltb_ℤ, ◌==◌, Option, none, some, Bool, not, if◌then◌else◌, length, trim,
}
use campusgig_backend.Db.Types.{Text, WithdrawalRejectionReason, payment_is_pending}
use campusgig_backend.Db.Rows.{User, WithdrawalRequest}
use campusgig_backend.Db.Table.{find, user_keyed, withdrawal_request_keyed}
use campusgig_backend.Db.Tx.{
  ok, err, Error, Tx, Env, bad_request, user_missing, insufficient_balance, bank_account_required,
  amount_not_positive, below_minimum, not_pending, note_required, note_too_long, bank_locked,
  withdrawal_not_found,
}
use campusgig_backend.Db.World.{Action, World, commit}
use campusgig_backend.Wallet.Funds.{
  BankAccountInput, has_bank_account, has_pending_withdrawal, deposit, setup_bank_account,
  request_withdrawal, approve_withdrawal, reject_withdrawal,
}

infixl 5 ◌>>=◌ ◌>>◌
-- What an earlier transaction has committed stays when a later step throws.
abbrev ◌>>=◌ : {A B : Type 0} → Action A → (A → Action B) → Action B
◌>>=◌ m f w = let (r, w') = m w in elim r [ ok a ↦ f a w' | err e ↦ (err e, w') ]

abbrev ◌>>◌ : {A B : Type 0} → Action A → Action B → Action B
m >> k = m >>= λ _. k

abbrev reject_if : Bool → Error → Action (Unit {0})
reject_if c e w = (if c then err e else ok tt, w)

abbrev read : {A : Type 0} → (World → Option A) → Error → Action A
read f e w = elim (f w) [ none ↦ (err e, w) | some a ↦ (ok a, w) ]

-- A transaction with nothing to do after it.
abbrev run : {A : Type 0} → Tx A → Action A
run m = commit m (λ _ w. w)

abbrev pub min_withdrawal_vnd : ℕ
min_withdrawal_vnd = 50000

abbrev pub max_note_len : ℕ
max_note_len = 500

-- Amounts are whole numbers here, so `Number.isInteger` holds of each.
unfoldable pub deposit_funds : Env → ℕ → ℤ → Action User
unfolding deposit
deposit_funds env user_id amount = do
  reject_if (not (ltb_ℤ (pos 0) amount)) (bad_request amount_not_positive)
  run (deposit env user_id amount)

unfoldable pub setup_bank_account_command : ℕ → BankAccountInput → Action (Unit {0})
unfolding has_pending_withdrawal setup_bank_account
setup_bank_account_command user_id bank = do
  λ w.
      reject_if (has_pending_withdrawal user_id w.db.withdrawal_requests) (bad_request bank_locked)
        w
  run (setup_bank_account user_id bank)

-- The bank account that the request brings along is used only where none is on file.
abbrev pub ensure_bank_account : User → Option BankAccountInput → Action (Unit {0})
ensure_bank_account user setup w = if has_bank_account user then (ok tt, w) else elim setup [
  | none ↦ (err (bad_request bank_account_required), w)
  | some bank ↦ run (setup_bank_account user.id bank) w
]

unfoldable pub request_withdrawal_command :
    Env → ℕ → ℤ → Option BankAccountInput → Action WithdrawalRequest
unfolding has_bank_account setup_bank_account request_withdrawal
request_withdrawal_command env user_id amount setup = do
  reject_if (ltb_ℤ amount (pos min_withdrawal_vnd)) (bad_request below_minimum)
  user ← read (λ w. find user_id w.db.users) (bad_request user_missing)
  reject_if (ltb_ℤ user.wallet_balance amount) (bad_request insufficient_balance)
  ensure_bank_account user setup
  run (request_withdrawal env user_id amount)

unfoldable pub approve_withdrawal_command : Env → ℕ → ℕ → Action (Unit {0})
unfolding approve_withdrawal
approve_withdrawal_command env withdrawal_id admin_id = do
  request ← read (λ w. find withdrawal_id w.db.withdrawal_requests) withdrawal_not_found
  reject_if (not (payment_is_pending request.status)) (bad_request not_pending)
  run (approve_withdrawal env withdrawal_id admin_id)

-- The reason is one of the five by its type.
unfoldable pub reject_withdrawal_command :
    Env → ℕ → ℕ → WithdrawalRejectionReason → Text → Action (Unit {0})
unfolding reject_withdrawal
reject_withdrawal_command env withdrawal_id admin_id reason note = do
  reject_if (length (trim note) == 0) (bad_request note_required)
  reject_if (ltb max_note_len (length (trim note))) (bad_request note_too_long)
  request ← read (λ w. find withdrawal_id w.db.withdrawal_requests) withdrawal_not_found
  reject_if (not (payment_is_pending request.status)) (bad_request not_pending)
  run (reject_withdrawal env withdrawal_id admin_id reason (trim note))
