-- ===== src/Marketplace.antt =====
-- The order and dispute operations as calls on the tables, and histories of calls: what the
-- controllers, the deadline jobs and the admin's resolution run, one transaction after the other.
use campusgig_backend.Prelude.{ℕ, ◌≡◌, Option, none, some, List, [], ◌∷◌, true}
use campusgig_backend.Db.Types.{Text}
use campusgig_backend.Db.Rows.{Order, Cancellation, Db}
use campusgig_backend.Db.Table.{find, order_keyed, cancellation_keyed}
use campusgig_backend.Db.Tx.{Tx, Env, Result, ok, err, ◌>>=◌, ◌>>◌, return}
use campusgig_backend.Ledger.Held.{is_open}
use campusgig_backend.Orders.Place.{place_order_tx}
use campusgig_backend.Orders.Decide.{accept_order_tx, decline_order_tx, auto_cancel_order_tx}
use campusgig_backend.Orders.Deliver.{deliver_work_tx, update_delivery_tx, accept_delivery_tx}
use campusgig_backend.Orders.Finish.{mark_late_tx, auto_complete_order_tx, finalize_order_tx}
use campusgig_backend.Orders.Extend.{
  Decision, accept, reject, request_extension_tx, decide_extension_tx, expire_extension_tx,
}
use campusgig_backend.Orders.Cancel.Request.{CancellationInput, request_cancellation_tx}
use campusgig_backend.Orders.Cancel.Decide.{decide_cancellation_tx, expire_cancellation_tx}
use campusgig_backend.Disputes.File.{
  DisputeInput, file_dispute_tx, respond_to_dispute_tx, add_evidence_tx, expire_response_tx,
}
use campusgig_backend.Disputes.Resolve.{ResolveDisputeInput, resolve_tx}
pub mod History

-- A call with the arguments that the caller sends; the clock and the ids come from the environment.
pub data Call : Type 0 where
  place_order : ℕ → ℕ → Call
  accept_order : ℕ → ℕ → Call
  decline_order : ℕ → ℕ → Text → Call
  auto_cancel_order : ℕ → Call
  deliver_work : ℕ → ℕ → Text → List ℕ → Call
  update_delivery : ℕ → ℕ → Text → List ℕ → Call
  accept_delivery : ℕ → ℕ → Call
  mark_late : ℕ → Call
  auto_complete_order : ℕ → Call
  finalize_order : ℕ → Call
  request_extension : ℕ → ℕ → ℕ → Option Text → Call
  decide_extension : ℕ → ℕ → Decision → Call
  expire_extension : ℕ → Call
  request_cancellation : CancellationInput → Call
  decide_cancellation : ℕ → ℕ → Decision → Call
  expire_cancellation : ℕ → Call
  file_dispute : DisputeInput → Call
  respond_to_dispute : ℕ → ℕ → Text → List ℕ → Call
  add_evidence : ℕ → ℕ → List ℕ → Call
  expire_response : ℕ → Call
  resolve : ℕ → ℕ → ResolveDisputeInput → Call

-- A transaction whose result nobody looks at.
abbrev pub done : {A : Type 0} → Tx A → Tx (Unit {0})
done m = m >> return tt

unfoldable pub perform : Env → Call → Tx (Unit {0})
perform env (place_order buyer gig) = done (place_order_tx env buyer gig)
perform env (accept_order i v) = done (accept_order_tx env i v)
perform env (decline_order i v note) = done (decline_order_tx env i v note)
perform env (auto_cancel_order i) = done (auto_cancel_order_tx env i)
perform env (deliver_work i v note files) = done (deliver_work_tx env i v note files)
perform env (update_delivery i v note files) = done (update_delivery_tx env i v note files)
perform env (accept_delivery i v) = done (accept_delivery_tx env i v)
perform env (mark_late i) = done (mark_late_tx env i)
perform env (auto_complete_order i) = done (auto_complete_order_tx env i)
perform env (finalize_order i) = done (finalize_order_tx env i)
perform env (request_extension i v hours reason) = done (request_extension_tx env i v hours reason)
perform env (decide_extension i v decision) = done (decide_extension_tx env i v decision)
perform env (expire_extension i) = done (expire_extension_tx env i)
perform env (request_cancellation input) = done (request_cancellation_tx env input)
perform env (decide_cancellation i v decision) = done (decide_cancellation_tx env i v decision)
perform env (expire_cancellation i) = done (expire_cancellation_tx env i)
perform env (file_dispute input) = done (file_dispute_tx env input)
perform env (respond_to_dispute i v statement files) =
    done (respond_to_dispute_tx env i v statement files)
perform env (add_evidence i v files) = done (add_evidence_tx i v files)
perform env (expire_response i) = done (expire_response_tx i)
perform env (resolve i admin input) = done (resolve_tx env i admin input)

-- The tables after a call: a call that throws leaves them as they were.
unfoldable pub after : Env → Call → Db → Db
unfolding perform
after env call d = elim (perform env call d) [ ok (_, d') ↦ d' | err _ ↦ d ]

unfoldable pub run : List (Env × Call) → Db → Db
run [] d = d
run ((env, call) ∷ calls) d = run calls (after env call d)

-- The order of a cancellation request, if it is there, is open.
abbrev pub OfOpenOrder : ℕ → Db → Type 0
OfOpenOrder i d =
    (c : Cancellation) (o : Order)
    → find i d.cancellations ≡ some c
    → find c.order_id d.orders ≡ some o
    → is_open o.status ≡ true

-- What the code relies on and does not test: a new order's id is new, and cancellations are accepted
-- and disputes resolved while the order is open.
unfoldable pub IsSafe : Env → Call → Db → Type 0
IsSafe env (place_order buyer gig) d = find (env.uuid 0) d.orders ≡ none
IsSafe env (decide_cancellation i v accept) d = OfOpenOrder i d
IsSafe env (resolve i admin input) d =
    (o : Order) → find i d.orders ≡ some o → is_open o.status ≡ true
IsSafe env _ d = Unit

-- Each call of a history is safe on the tables it meets.
unfoldable pub AllSafe : List (Env × Call) → Db → Type 0
AllSafe [] d = Unit
AllSafe ((env, call) ∷ calls) d = IsSafe env call d × AllSafe calls (after env call d)
