-- ===== src/Orders/Stale.antt =====
-- Deadline jobs that come late: once a user's operation has been committed, the job that would have
-- done the opposite finds nothing to do.
use campusgig_backend.Prelude.{
  ℕ, ◌==◌, ◌≡◌, refl, ◌∙◌, List, none, some, arith, inl, inr, Option-cases, Bool-cases, true, false,
}
use campusgig_backend.Db.Types.{Text, is_pending}
use campusgig_backend.Db.Rows.{Order, Delivery, Message, Db}
use campusgig_backend.Db.Table.{
  find, put, find_key, find-put, order_keyed, extension_keyed, cancellation_keyed,
}
use campusgig_backend.Db.Tx.{Env, Tx, ok, err, Result-cases}
use campusgig_backend.Ledger.Held.{is_open}
use campusgig_backend.Orders.Decide.{accept_order_tx, accepted_order, auto_cancel_order_tx}
use campusgig_backend.Orders.Deliver.{deliver_work_tx, delivered_order}
use campusgig_backend.Orders.Extend.{expire_extension_tx}
use campusgig_backend.Orders.Cancel.Decide.{expire_cancellation_tx}
use campusgig_backend.Orders.Finish.{mark_late_tx, auto_complete_order_tx, finalize_order_tx}

-- The tables after a transaction: those that it returns, or those before it where it throws.
abbrev pub tables_after : {A : Type 0} → Tx A → Db → Db
tables_after m d = elim (m d) [ ok r ↦ r.1 | err e ↦ d ]

-- The rows that no expiry writes.
abbrev pub SameMoney : Db → Db → Type 0
SameMoney d d' = (d'.orders ≡ d.orders) × (d'.users ≡ d.users) × (d'.transactions ≡ d.transactions)

returned-SameMoney :
    {A : Type 0} (m : Tx A) (d : Db)
    → ((r : A) (d' : Db) → m d ≡ ok (r, d') → SameMoney d d')
    → SameMoney d (tables_after m d)
returned-SameMoney m d h = elim (Result-cases (m d)) [
  | inl (x, q) ↦ rw (tables_after, q) (refl, refl, refl)
  | inr (r, d', q) ↦ rw (tables_after, q) (h r d' q)
]

expire_extension-SameMoney :
    (env : Env) (i : ℕ) (d : Db) → SameMoney d (tables_after (expire_extension_tx env i) d)
unfolding expire_extension_tx
expire_extension-SameMoney env i d = returned-SameMoney (expire_extension_tx env i) d λ r d' h.
    elim (Option-cases (find i d.extensions)) [
      | inl e ↦ (ground (arith, e, h), ground (arith, e, h), ground (arith, e, h))
      | inr (x, e) ↦ elim (Bool-cases (is_pending x.status)) [
        | inr f ↦ (ground (arith, e, f, h), ground (arith, e, f, h), ground (arith, e, f, h))
        | inl f ↦ elim (Option-cases (find x.order_id d.orders)) [
          | inl k ↦ absurd (ground (arith, e, f, k, h))
          | inr (o, k) ↦
              (ground (arith, e, f, k, h), ground (arith, e, f, k, h), ground (arith, e, f, k, h))
        ]
      ]
    ]

expire_cancellation-SameMoney :
    (env : Env) (i : ℕ) (d : Db) → SameMoney d (tables_after (expire_cancellation_tx env i) d)
unfolding expire_cancellation_tx
expire_cancellation-SameMoney env i d =
    returned-SameMoney (expire_cancellation_tx env i) d λ r d' h.
      elim (Option-cases (find i d.cancellations)) [
        | inl e ↦ (ground (arith, e, h), ground (arith, e, h), ground (arith, e, h))
        | inr (x, e) ↦ elim (Bool-cases (is_pending x.status)) [
          | inr f ↦ (ground (arith, e, f, h), ground (arith, e, f, h), ground (arith, e, f, h))
          | inl f ↦ elim (Option-cases (find x.order_id d.orders)) [
            | inl k ↦ absurd (ground (arith, e, f, k, h))
            | inr (o, k) ↦
                (ground (arith, e, f, k, h), ground (arith, e, f, k, h), ground (arith, e, f, k, h))
          ]
        ]
      ]

-- The four deadline jobs of order `i` do nothing on these tables, and the two jobs that let a request
-- expire leave orders, users and transactions as they are.
pub record IsSettled (i : ℕ) (d : Db) : Type 0 where
  pub no_auto_cancel : (env : Env) → auto_cancel_order_tx env i d ≡ ok (none, d)
  pub no_mark_late : (env : Env) → mark_late_tx env i d ≡ ok (none, d)
  pub no_auto_complete : (env : Env) → auto_complete_order_tx env i d ≡ ok (none, d)
  pub no_finalize : (env : Env) → finalize_order_tx env i d ≡ ok (none, d)
  pub same_extension :
      (env : Env) (e : ℕ) → SameMoney d (tables_after (expire_extension_tx env e) d)
  pub same_cancellation :
      (env : Env) (c : ℕ) → SameMoney d (tables_after (expire_cancellation_tx env c) d)

-- On a completed or cancelled order the jobs of the accept, delivery, review and dispute deadline do
-- nothing, however late they fire; and the job that lets a request for more time or for a
-- cancellation expire, whatever the request, leaves every order, user and transaction as it is.
pub closed-IsSettled :
    (i : ℕ) (d : Db) (o : Order)
    → find i d.orders ≡ some o
    → is_open o.status ≡ false
    → IsSettled i d
unfolding auto_cancel_order_tx mark_late_tx auto_complete_order_tx finalize_order_tx
closed-IsSettled i d o e closed = record {
  no_auto_cancel = λ env. ground (arith, e, closed);
  no_mark_late = λ env. ground (arith, e, closed);
  no_auto_complete = λ env. ground (arith, e, closed);
  no_finalize = λ env. ground (arith, e, closed);
  same_extension = λ env e. expire_extension-SameMoney env e d;
  same_cancellation = λ env c. expire_cancellation-SameMoney env c d;
}

-- The row that was written is the one found next.
pub written_row :
    (i : ℕ) (os os' : List Order) (old new : Order)
    → find i os ≡ some old
    → new.id ≡ old.id
    → os' ≡ put new os
    → find i os' ≡ some new
written_row i os os' old new e same written =
    let k = find_key i os old e in
    let self : (i == i) ≡ true = ground arith in
    rw written (find-put i new os old (simp (same, k) e) ∙ simp (same, k, self))

-- An order that its seller has accepted is not cancelled by the job of the accept deadline.
pub accept_order-auto_cancel :
    (env env' : Env) (i v : ℕ) (d d' : Db) (r : Order × Message)
    → accept_order_tx env i v d ≡ ok (r, d')
    → auto_cancel_order_tx env' i d' ≡ ok (none, d')
unfolding accept_order_tx auto_cancel_order_tx
accept_order-auto_cancel env env' i v d d' r h = elim (Option-cases (find i d.orders)) [
  | inl e ↦ absurd (ground (arith, e, h))
  | inr (o, e) ↦
      let row =
        written_row i d.orders d'.orders o (accepted_order env o) e refl (ground (arith, e, h)) in
      ground (arith, row)
]

-- An order that was delivered is not marked late by the job of the delivery deadline.
pub deliver_work-mark_late :
    (env env' : Env) (i v : ℕ) (note : Text) (files : List ℕ) (d d' : Db)
    (r : Order × Delivery × Message)
    → deliver_work_tx env i v note files d ≡ ok (r, d')
    → mark_late_tx env' i d' ≡ ok (none, d')
unfolding deliver_work_tx mark_late_tx
deliver_work-mark_late env env' i v note files d d' r h = elim (Option-cases (find i d.orders)) [
  | inl e ↦ absurd (ground (arith, e, h))
  | inr (o, e) ↦
      let row =
        written_row i d.orders d'.orders o (delivered_order env o) e refl (ground (arith, e, h)) in
      ground (arith, row)
]
