-- ===== src/Orders/Deadlines.antt =====
-- The deadline jobs that the commands leave queued.
use campusgig_backend.Prelude.{
  ℕ, ◌+◌, ◌*◌, ◌≡◌, Bool, Option, arith, inl, inr, Bool-cases, true, false,
}
use campusgig_backend.Db.Rows.{Order, Cancellation, Transaction, Message}
use campusgig_backend.Db.Tx.{ok, Env, Result-cases}
use campusgig_backend.Db.World.{
  World, JobKind, accept_deadline, delivery_deadline, review_deadline, dispute_deadline,
  extension_expiry, cancellation_expiry, response_timeout, has_job, remove_job, schedule, emit,
}
use campusgig_backend.Db.Queue.{has_job-schedule, has_job-remove_job_from, same_job}
use campusgig_backend.Orders.Place.{place_order, place_order_tx}
use campusgig_backend.Orders.Extend.{accept}
use campusgig_backend.Orders.Cancel.Decide.{
  decide_cancellation, decide_cancellation_tx, drop_deadlines,
}

-- The four jobs that act on an order.
abbrev pub is_deadline : JobKind → Bool
is_deadline accept_deadline = true
is_deadline delivery_deadline = true
is_deadline review_deadline = true
is_deadline dispute_deadline = true
is_deadline _ = false

same_job_self : (k : JobKind) (i : ℕ) → same_job k i k i ≡ true
unfolding same_job
same_job_self k i = ground arith

removed : (k : JobKind) (i : ℕ) (w : World) → has_job k i (remove_job k i w).jobs ≡ false
unfolding remove_job
removed k i w = rw (has_job-remove_job_from k k i i w.jobs, same_job_self k i)

-- A job that is gone stays gone when others are removed.
still_removed :
    (k k' : JobKind) (i i' : ℕ) (w : World)
    → has_job k' i' w.jobs ≡ false
    → has_job k' i' (remove_job k i w).jobs ≡ false
unfolding remove_job
still_removed k k' i i' w h =
    rw (has_job-remove_job_from k k' i i' w.jobs, h)
      (elim (Bool-cases (same_job k i k' i')) [ inl e ↦ rw e | inr e ↦ rw e ])

drop_deadlines-gone :
    (k : JobKind) (i : ℕ) (w : World)
    → is_deadline k ≡ true
    → has_job k i (drop_deadlines accept i w).jobs ≡ false
drop_deadlines-gone accept_deadline i w h =
    still_removed _ _ _ _ _
      (still_removed _ _ _ _ _ (still_removed _ _ _ _ _ (removed accept_deadline i w)))
drop_deadlines-gone delivery_deadline i w h =
    still_removed _ _ _ _ _ (still_removed _ _ _ _ _ (removed delivery_deadline i _))
drop_deadlines-gone review_deadline i w h = still_removed _ _ _ _ _ (removed review_deadline i _)
drop_deadlines-gone dispute_deadline i w h = removed dispute_deadline i _
drop_deadlines-gone extension_expiry i w h = absurd (ground (arith, h))
drop_deadlines-gone cancellation_expiry i w h = absurd (ground (arith, h))
drop_deadlines-gone response_timeout i w h = absurd (ground (arith, h))

-- After an accepted cancellation no deadline job of the order is queued.
pub decide_cancellation-no_deadlines :
    (env : Env) (i v : ℕ) (w w' : World) (r : Order × Cancellation × Option Transaction × Message)
    (k : JobKind)
    → decide_cancellation env i v accept w ≡ (ok r, w')
    → is_deadline k ≡ true
    → has_job k r.0.id w'.jobs ≡ false
unfolding decide_cancellation
decide_cancellation-no_deadlines env i v w w' r k h deadline =
    elim (Result-cases (decide_cancellation_tx env i v accept w.db)) [
      | inl (x, q) ↦ absurd (ground (arith, q, h))
      | inr (r1, d1, q) ↦
          let same : r1 ≡ r = ground (arith, q, h) in
          let last : drop_deadlines accept r1.0.id
                (remove_job cancellation_expiry i (emit r1.3 (record w { db = d1 })))
              ≡ w' =
            ground (arith, q, h) in
          rw (← last, ← same) (drop_deadlines-gone k r1.0.id _ deadline)
    ]

-- A placed order has its accept deadline queued.
pub place_order-deadline :
    (env : Env) (buyer gig : ℕ) (w w' : World) (r : Order × Message)
    → place_order env buyer gig w ≡ (ok r, w')
    → has_job accept_deadline r.0.id w'.jobs ≡ true
unfolding place_order
place_order-deadline env buyer gig w w' r h =
    elim (Result-cases (place_order_tx env buyer gig w.db)) [
      | inl (x, q) ↦ absurd (ground (arith, q, h))
      | inr (r1, d1, q) ↦
          let same : r1 ≡ r = ground (arith, q, h) in
          let last : schedule env.now accept_deadline r1.0.id (env.now + 24 * (60 * 60 * 1000))
                (emit r1.1 (record w { db = d1 }))
              ≡ w' =
            ground (arith, q, h) in
          rw (
            ← last,
            ← same,
            has_job-schedule env.now accept_deadline accept_deadline r1.0.id r1.0.id
                (env.now + 24 * (60 * 60 * 1000)) (emit r1.1 (record w { db = d1 })),
            same_job_self accept_deadline r1.0.id,
          )
    ]
