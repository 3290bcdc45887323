-- ===== src/Marketplace/History.antt =====
-- What holds after any history of calls.
use campusgig_backend.Prelude.{
  ℕ, ◌≡◌, ◌∙◌, refl, inl, inr, Option-cases, Option, some, arith, false, List, [], ◌∷◌,
}
use campusgig_backend.Db.Types.{Text}
use campusgig_backend.Db.Rows.{Order, Dispute, Db}
use campusgig_backend.Db.Table.{find, order_keyed, cancellation_keyed, dispute_keyed}
use campusgig_backend.Db.Tx.{Tx, Env, ok, Result-cases}
use campusgig_backend.Ledger.Balances.{total_money}
use campusgig_backend.Ledger.Held.{is_open}
use campusgig_backend.Ledger.Step.{idle, EscrowBacked}
use campusgig_backend.Ledger.Preserve.{
  LedgerStep-EscrowBacked, LedgerStep-total_money, LedgerStep-closed_final,
}
use campusgig_backend.Orders.Place.{place_order_tx}
use campusgig_backend.Orders.Decide.{accept_order_tx, decline_order_tx, auto_cancel_order_tx}
use campusgig_backend.Orders.Deliver.{deliver_work_tx, update_delivery_tx, accept_delivery_tx}
use campusgig_backend.Orders.Finish.{mark_late_tx, auto_complete_order_tx, finalize_order_tx}
use campusgig_backend.Orders.Extend.{
  accept, reject, request_extension_tx, decide_extension_tx, expire_extension_tx,
}
use campusgig_backend.Orders.Cancel.Request.{request_cancellation_tx}
use campusgig_backend.Disputes.File.{
  file_dispute_tx, respond_to_dispute_tx, add_evidence_tx, expire_response_tx,
}
use campusgig_backend.Disputes.Resolve.{resolve_tx}
use campusgig_backend.Orders.Cancel.Decide.{decide_cancellation_tx, expire_cancellation_tx}
use campusgig_backend.Refinement.Escrow.{Steps}
use campusgig_backend.Refinement.Place.{place_order-Steps}
use campusgig_backend.Refinement.Decide.{
  accept_order-Steps, decline_order-Steps, auto_cancel_order-Steps,
}
use campusgig_backend.Refinement.Finish.{
  deliver_work-Steps, update_delivery-Steps, accept_delivery-Steps, mark_late-Steps,
  auto_complete_order-Steps, finalize_order-Steps,
}
use campusgig_backend.Refinement.Extend.{
  request_extension-Steps, decide_extension-Steps, expire_extension-Steps,
}
use campusgig_backend.Refinement.Cancel.{request_cancellation-Steps, reject_cancellation-Steps}
use campusgig_backend.Refinement.Cancelled.{accept_cancellation-Steps, expire_cancellation-Steps}
use campusgig_backend.Refinement.Disputes.{file_dispute-Steps, resolve-Steps}
use campusgig_backend.Marketplace.{
  Call, place_order, accept_order, decline_order, auto_cancel_order, deliver_work, update_delivery,
  accept_delivery, mark_late, auto_complete_order, finalize_order, request_extension,
  decide_extension, expire_extension, request_cancellation, decide_cancellation,
  expire_cancellation, file_dispute, respond_to_dispute, add_evidence, expire_response, resolve,
  done, perform, after, run, IsSafe, AllSafe,
}

done_lem :
    {A : Type 0} (m : Tx A) (d d' : Db) → done m d ≡ ok (tt, d') → (r : A) × (m d ≡ ok (r, d'))
done_lem m d d' h = elim (Result-cases (m d)) [
  | inl (e, q) ↦ absurd (ground (arith, q, h))
  | inr (r, d1, q) ↦ (r, ground (arith, q, h))
]

-- The rest of a dispute's life writes neither users nor orders.
respond_to_dispute-Steps :
    (env : Env) (i v : ℕ) (statement : Text) (files : List ℕ) (d d' : Db) (r : Dispute)
    → respond_to_dispute_tx env i v statement files d ≡ ok (r, d')
    → Steps d d'
unfolding respond_to_dispute_tx
respond_to_dispute-Steps env i v statement files d d' r h =
    idle (ground (arith, h)) (ground (arith, h))

add_evidence-Steps :
    (i v : ℕ) (files : List ℕ) (d d' : Db) (r : Dispute)
    → add_evidence_tx i v files d ≡ ok (r, d')
    → Steps d d'
unfolding add_evidence_tx
add_evidence-Steps i v files d d' r h = idle (ground (arith, h)) (ground (arith, h))

expire_response-Steps :
    (i : ℕ) (d d' : Db) (r : Option Dispute) → expire_response_tx i d ≡ ok (r, d') → Steps d d'
unfolding expire_response_tx
expire_response-Steps i d d' r h = idle (ground (arith, h)) (ground (arith, h))

-- An acceptance that went through found its cancellation and its order.
accepts-Steps :
    (env : Env) (i v : ℕ) (d d' : Db) (r : _)
    → IsSafe env (decide_cancellation i v accept) d
    → decide_cancellation_tx env i v accept d ≡ ok (r, d')
    → Steps d d'
unfolding decide_cancellation_tx IsSafe
accepts-Steps env i v d d' r safe h = elim (Option-cases (find i d.cancellations)) [
  | inl e ↦ absurd (ground (arith, e, h))
  | inr (c, e) ↦ elim (Option-cases (find c.order_id d.orders)) [
    | inl f ↦ absurd (ground (arith, e, f, h))
    | inr (o, f) ↦ accept_cancellation-Steps env i v d d' r c o e f h (safe c o e f)
  ]
]

resolves-Steps :
    (env : Env) (i admin : ℕ) (input : _) (d d' : Db) (r : _)
    → IsSafe env (resolve i admin input) d
    → resolve_tx env i admin input d ≡ ok (r, d')
    → Steps d d'
unfolding resolve_tx IsSafe
resolves-Steps env i admin input d d' r safe h = elim (Option-cases (find i d.orders)) [
  | inl e ↦ absurd (ground (arith, e, h))
  | inr (o, e) ↦ resolve-Steps env i admin input d d' r o e (safe o e) h
]

-- Every call that is safe and returns takes one step of the ledger.
pub perform-Steps :
    (env : Env) (call : Call) (d d' : Db)
    → IsSafe env call d
    → perform env call d ≡ ok (tt, d')
    → Steps d d'
unfolding perform IsSafe
perform-Steps env (place_order buyer gig) d d' safe h =
    let (r, e) = done_lem (place_order_tx env buyer gig) d d' h in
    place_order-Steps env buyer gig d d' r safe e
perform-Steps env (accept_order i v) d d' safe h =
    let (r, e) = done_lem (accept_order_tx env i v) d d' h in accept_order-Steps env i v d d' r e
perform-Steps env (decline_order i v note) d d' safe h =
    let (r, e) = done_lem (decline_order_tx env i v note) d d' h in
    decline_order-Steps env i v note d d' r e
perform-Steps env (auto_cancel_order i) d d' safe h =
    let (r, e) = done_lem (auto_cancel_order_tx env i) d d' h in
    auto_cancel_order-Steps env i d d' r e
perform-Steps env (deliver_work i v note files) d d' safe h =
    let (r, e) = done_lem (deliver_work_tx env i v note files) d d' h in
    deliver_work-Steps env i v note files d d' r e
perform-Steps env (update_delivery i v note files) d d' safe h =
    let (r, e) = done_lem (update_delivery_tx env i v note files) d d' h in
    update_delivery-Steps env i v note files d d' r e
perform-Steps env (accept_delivery i v) d d' safe h =
    let (r, e) = done_lem (accept_delivery_tx env i v) d d' h in
    accept_delivery-Steps env i v d d' r e
perform-Steps env (mark_late i) d d' safe h =
    let (r, e) = done_lem (mark_late_tx env i) d d' h in mark_late-Steps env i d d' r e
perform-Steps env (auto_complete_order i) d d' safe h =
    let (r, e) = done_lem (auto_complete_order_tx env i) d d' h in
    auto_complete_order-Steps env i d d' r e
perform-Steps env (finalize_order i) d d' safe h =
    let (r, e) = done_lem (finalize_order_tx env i) d d' h in finalize_order-Steps env i d d' r e
perform-Steps env (request_extension i v hours reason) d d' safe h =
    let (r, e) = done_lem (request_extension_tx env i v hours reason) d d' h in
    request_extension-Steps env i v hours reason d d' r e
perform-Steps env (decide_extension i v decision) d d' safe h =
    let (r, e) = done_lem (decide_extension_tx env i v decision) d d' h in
    decide_extension-Steps env i v decision d d' r e
perform-Steps env (expire_extension i) d d' safe h =
    let (r, e) = done_lem (expire_extension_tx env i) d d' h in
    expire_extension-Steps env i d d' r e
perform-Steps env (request_cancellation input) d d' safe h =
    let (r, e) = done_lem (request_cancellation_tx env input) d d' h in
    request_cancellation-Steps env input d d' r e
perform-Steps env (decide_cancellation i v accept) d d' safe h =
    let (r, e) = done_lem (decide_cancellation_tx env i v accept) d d' h in
    accepts-Steps env i v d d' r safe e
perform-Steps env (decide_cancellation i v reject) d d' safe h =
    let (r, e) = done_lem (decide_cancellation_tx env i v reject) d d' h in
    reject_cancellation-Steps env i v d d' r e
perform-Steps env (expire_cancellation i) d d' safe h =
    let (r, e) = done_lem (expire_cancellation_tx env i) d d' h in
    expire_cancellation-Steps env i d d' r e
perform-Steps env (file_dispute input) d d' safe h =
    let (r, e) = done_lem (file_dispute_tx env input) d d' h in
    file_dispute-Steps env input d d' r e
perform-Steps env (respond_to_dispute i v statement files) d d' safe h =
    let (r, e) = done_lem (respond_to_dispute_tx env i v statement files) d d' h in
    respond_to_dispute-Steps env i v statement files d d' r e
perform-Steps env (add_evidence i v files) d d' safe h =
    let (r, e) = done_lem (add_evidence_tx i v files) d d' h in
    add_evidence-Steps i v files d d' r e
perform-Steps env (expire_response i) d d' safe h =
    let (r, e) = done_lem (expire_response_tx i) d d' h in expire_response-Steps i d d' r e
perform-Steps env (resolve i admin input) d d' safe h =
    let (r, e) = done_lem (resolve_tx env i admin input) d d' h in
    resolves-Steps env i admin input d d' r safe e

-- So does a call that throws: it leaves the tables as they were.
after-Steps : (env : Env) (call : Call) (d : Db) → IsSafe env call d → Steps d (after env call d)
unfolding after
after-Steps env call d safe = elim (Result-cases (perform env call d)) [
  | inl (e, q) ↦ rw (after, q) (idle refl refl)
  | inr (r, d', q) ↦ rw (after, q) (perform-Steps env call d d' safe q)
]

-- After any history of safe calls, whether each returned or threw, every user's escrow balance is
-- the sum of the prices of the user's open orders, if it was so before.
pub run-EscrowBacked :
    (calls : List (Env × Call)) (d : Db)
    → AllSafe calls d
    → EscrowBacked d.users d.orders
    → EscrowBacked (run calls d).users (run calls d).orders
unfolding run AllSafe
run-EscrowBacked [] d safe b = b
run-EscrowBacked ((env, call) ∷ calls) d (one, rest) b =
    run-EscrowBacked calls (after env call d) rest
      (LedgerStep-EscrowBacked _ _ _ _ (after-Steps env call d one) b)

-- No history of safe calls makes or loses money: the sum of all balances is what it was.
pub run-total_money :
    (calls : List (Env × Call)) (d : Db)
    → AllSafe calls d
    → total_money (run calls d).users ≡ total_money d.users
unfolding run AllSafe
run-total_money [] d safe = refl
run-total_money ((env, call) ∷ calls) d (one, rest) =
    run-total_money calls (after env call d) rest
    ∙ LedgerStep-total_money _ _ _ _ (after-Steps env call d one)

-- Once an order is completed or cancelled, no history of safe calls changes or removes it.
pub run-closed_final :
    (calls : List (Env × Call)) (d : Db) (i : ℕ) (o : Order)
    → AllSafe calls d
    → find i d.orders ≡ some o
    → is_open o.status ≡ false
    → find i (run calls d).orders ≡ some o
unfolding run AllSafe
run-closed_final [] d i o safe h closed = h
run-closed_final ((env, call) ∷ calls) d i o (one, rest) h closed =
    run-closed_final calls (after env call d) i o rest
      (LedgerStep-closed_final _ _ _ _ i o (after-Steps env call d one) h closed) closed
