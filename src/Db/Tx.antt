-- ===== src/Db/Tx.antt =====
-- Prisma transactions and the exceptions of the modules. A transaction reads and writes the tables;
-- each runs alone, as if serialised, and one that throws leaves no tables.
use campusgig_backend.Prelude.{
  ℕ, ℤ, ◌+◌, ◌+ℤ◌, Bool, true, false, ◌∷◌, Option, none, some, ◌≡◌, refl, ◌⊎◌, inl, inr,
}
use campusgig_backend.Db.Types.{OrderStatus, OrderEventType, DisputeStatus, Attempt, GigProblem}
use campusgig_backend.Db.Rows.{User, Order, Transaction, Db}
use campusgig_backend.Db.Table.{find, put, user_keyed, gig_keyed, order_keyed}

-- The messages of a `BadRequestException`.
pub data BadRequest : Type 0 where
  user_missing insufficient_balance bank_account_required withdrawal_missing : BadRequest
  already_processed amount_not_positive below_minimum not_pending note_required : BadRequest
  note_too_long bank_locked hours_not_allowed reason_too_long other_text_required : BadRequest
  other_text_too_long : BadRequest

pub data Error : Type 0 where
  order_not_found : ℕ → Error
  not_a_participant : ℕ → Error
  invalid_transition : OrderStatus → Attempt → Error
  decline_note_too_short : ℕ → Error
  gig_not_purchasable : ℕ → GigProblem → Error
  seller_cannot_order_own_gig : ℕ → ℕ → Error
  insufficient_wallet_balance : ℕ → ℕ → ℤ → Error
  pending_extension_already_exists : ℕ → Error
  pending_cancellation_already_exists : ℕ → Error
  too_many_delivery_files : ℕ → ℕ → Error
  not_disputable_state : OrderStatus → Error
  dispute_already_exists : ℕ → Error
  dispute_not_found : ℕ → Error
  already_responded : ℕ → Error
  dispute_not_reviewable : DisputeStatus → Error
  invalid_split_percent : Option ℤ → Error
  bad_request : BadRequest → Error
  withdrawal_not_found : Error
  -- Prisma's P2025: `update` met no row
  record_not_found : Error

pub data Result (A : Type 0) : Type 0 where
  ok : A → Result A
  err : Error → Result A

abbrev pub Tx : Type 0 → Type 0
Tx A = Db → Result (A × Db)

-- What a transaction takes from outside: `new Date()`, the UUIDs that the tables hand out for its
-- new rows, one after the other, and the next value of `Order.number`.
pub record Env : Type 0 where
  pub now : ℕ
  pub uuid : ℕ → ℕ
  pub number : ℕ

infixl 5 ◌>>=◌ ◌>>◌
abbrev pub ◌>>=◌ : {A B : Type 0} → Tx A → (A → Tx B) → Tx B
◌>>=◌ m f d = elim (m d) [ ok (a, d') ↦ f a d' | err e ↦ err e ]

abbrev pub ◌>>◌ : {A B : Type 0} → Tx A → Tx B → Tx B
m >> k = m >>= λ _. k

module _ {A : Type 0} where
  abbrev pub return : A → Tx A
  return a d = ok (a, d)

  abbrev pub throw : Error → Tx A
  throw e d = err e

  abbrev pub gets : (Db → A) → Tx A
  gets f d = ok (f d, d)

  abbrev pub or_throw : Option A → Error → Tx A
  or_throw none e = throw e
  or_throw (some a) e = return a

abbrev pub throw_if : Bool → Error → Tx (Unit {0})
throw_if true e = throw e
throw_if false e = return tt

abbrev pub modify : (Db → Db) → Tx (Unit {0})
modify f d = ok (tt, f d)

abbrev pub find_order : ℕ → Error → Tx Order
find_order i e d = or_throw (find i d.orders) e d

-- `order.update` of a row that the transaction has read
abbrev pub save_order : Order → Tx (Unit {0})
save_order o = modify (λ d. record d { orders = put o d.orders })

abbrev pub create_event : ℕ → OrderEventType → Option ℕ → Tx (Unit {0})
create_event order_id type actor = modify (λ d. record d {
  order_events =
      record { order_id = order_id; type = type; actor_user_id = actor } ∷ d.order_events;
})

abbrev pub create_transaction : Transaction → Tx (Unit {0})
create_transaction t = modify (λ d. record d { transactions = t ∷ d.transactions })

-- `gig.update({ data: { completedOrderCount: { increment: 1 } } })`
abbrev pub count_completed : ℕ → Tx (Unit {0})
count_completed gig_id = do
  gig ← (λ d. or_throw (find gig_id d.gigs) record_not_found d)
  modify (λ d. record d {
    gigs = put (record gig { completed_order_count = gig.completed_order_count + 1 }) d.gigs;
  })

-- Changes of the three balances of a user.
pub record Delta : Type 0 where
  pub wallet : ℤ
  pub escrow : ℤ
  pub held : ℤ

unfoldable pub apply_delta : Delta → User → User
apply_delta c u = record u {
  wallet_balance = u.wallet_balance +ℤ c.wallet;
  escrow_balance = u.escrow_balance +ℤ c.escrow;
  pending_withdrawal_balance = u.pending_withdrawal_balance +ℤ c.held;
}

-- `user.update` with `increment` and `decrement`; the result is the row after it.
unfoldable pub update_balances : ℕ → Delta → Tx User
unfolding apply_delta
update_balances user_id c = do
  user ← (λ d. or_throw (find user_id d.users) record_not_found d)
  modify (λ d. record d { users = put (apply_delta c user) d.users })
  return (apply_delta c user)

-- A step of a transaction returns or throws.
pub Result-cases :
    {A : Type 0} (r : Result (A × Db))
    → ((e : Error) × (r ≡ err e)) ⊎ ((a : A) × (d : Db) × (r ≡ ok (a, d)))
Result-cases (ok (a, d)) = inr (a, d, refl)
Result-cases (err e) = inl (e, refl)
