-- ===== src/Shared/Idempotency.antt =====
-- src/shared/infrastructure/services/idempotency.service.ts and
-- src/shared/presentation/interceptors/idempotency.interceptor.ts: requests that carry one
-- idempotency key, each advancing by one call of the cache at a time, which works or throws; and the
-- entry of the key, which may expire at any time.
use campusgig_backend.Prelude.{
  ℕ, ◌==◌, ◌≡◌, if◌then◌else◌, List, [], ◌∷◌, Option, none, some, Bool, true, false, arith, refl,
}
use campusgig_backend.Db.Types.{Text}

-- `CachedResponse`: its status, and what it answers.
pub data CachedResponse : Type 0 where
  processing : CachedResponse
  completed : Text → CachedResponse

-- How far the interceptor has come with a request.
pub data Phase : Type 0 where
  -- nothing done yet
  arrived : Phase
  -- `getResponse` has found nothing, or has thrown
  looked_up : Phase
  -- the `get` of `acquireLock` has found nothing
  lock_free : Phase
  -- the handler runs
  running : Phase
  -- the request has its answer, from the handler or from the cache
  answered : Text → Phase
  -- `ConflictException`
  conflict : Phase
  -- the handler has thrown, and the `get` of `releaseLock` has found the lock
  releasing : Phase
  -- the handler has thrown, and nothing is left to do
  failed : Phase

-- What the handler of a request does: `none` is an exception.
abbrev pub HandlerResult : Type 0
HandlerResult = Option Text

-- The first call of `releaseLock`: only a lock will be deleted, not an answer.
abbrev pub release_lock : Option CachedResponse → Phase
release_lock none = failed
release_lock (some processing) = releasing
release_lock (some (completed body)) = failed

-- What a call of the cache that works does, and where the request stands after it.
unfoldable pub advance :
    HandlerResult → Option CachedResponse → Phase → Option CachedResponse × Phase
advance result none arrived = (none, looked_up)
advance result (some processing) arrived = (some processing, conflict)
advance result (some (completed body)) arrived = (some (completed body), answered body)
advance result none looked_up = (none, lock_free)
advance result (some entry) looked_up = (some entry, conflict)
advance result cache lock_free = (some processing, running)
advance (some body) cache running = (some (completed body), answered body)
advance none cache running = (cache, release_lock cache)
advance result cache releasing = (none, failed)
advance result cache (answered body) = (cache, answered body)
advance result cache conflict = (cache, conflict)
advance result cache failed = (cache, failed)

-- Where the request stands after a call of the cache that throws: every method of the service catches
-- it, and a request that does not get its lock goes on as if it had.
unfoldable pub advance_failed : HandlerResult → Phase → Phase
advance_failed result arrived = looked_up
advance_failed result looked_up = running
advance_failed result lock_free = running
advance_failed (some body) running = answered body
advance_failed none running = failed
advance_failed result releasing = failed
advance_failed result (answered body) = answered body
advance_failed result conflict = conflict
advance_failed result failed = failed

-- The entry of the key, and the phase of every request.
pub record Requests : Type 0 where
  pub cache : Option CachedResponse
  pub phase : ℕ → Phase

-- The next call of the cache that request `i` makes.
unfoldable pub step : ℕ → HandlerResult → Requests → Requests
unfolding advance
step i result s =
    let next = advance result s.cache (s.phase i) in
    record { cache = next.0; phase = λ k. if k == i then next.1 else s.phase k }

-- The same where the call throws.
unfoldable pub step_failed : ℕ → HandlerResult → Requests → Requests
unfolding advance_failed
step_failed i result s = record s {
  phase = λ k. if k == i then advance_failed result (s.phase i) else s.phase k;
}

-- What can happen next: a request makes its next call, and its handler, if it runs, does this; or the
-- time of the entry passes.
pub data Event : Type 0 where
  call : (i : ℕ) (works : Bool) (result : HandlerResult) → Event
  expires : Event

unfoldable pub happen : Event → Requests → Requests
unfolding step step_failed
happen (call i true result) s = step i result s
happen (call i false result) s = step_failed i result s
happen expires s = record s { cache = none }

unfoldable pub run : List Event → Requests → Requests
unfolding happen
run [] s = s
run (e ∷ rest) s = run rest (happen e s)

abbrev pub in_turn : ℕ → ℕ → HandlerResult → List Event
in_turn i j result =
    call i true result
    ∷ call j true result
    ∷ call i true result
    ∷ call j true result
    ∷ call i true result
    ∷ call j true result
    ∷ []

-- A request moves only when its turn comes.
pub step-own :
    (i : ℕ) (result : HandlerResult) (s : Requests)
    → ((step i result s).cache ≡ (advance result s.cache (s.phase i)).0)
      × ((step i result s).phase i ≡ (advance result s.cache (s.phase i)).1)
unfolding step
step-own i result s = let same : (i == i) ≡ true = ground arith in (refl, rw same)

-- One turn of each of two requests.
round :
    (i j : ℕ) (result : HandlerResult) (s : Requests) (p q : Phase) (c d e : Option CachedResponse)
    (p' q' : Phase)
    → (i == j) ≡ false
    → s.cache ≡ c
    → s.phase i ≡ p
    → s.phase j ≡ q
    → advance result c p ≡ (d, p')
    → advance result d q ≡ (e, q')
    → let s' = step j result (step i result s) in
      (s'.cache ≡ e) × (s'.phase i ≡ p') × (s'.phase j ≡ q')
unfolding step
round i j result s p q c d e p' q' different hc hp hq first second =
    let same_i : (i == i) ≡ true = ground arith in
    let same_j : (j == j) ≡ true = ground arith in
    let other : (j == i) ≡ false = ground (arith, different) in
    rw (hc, hp, first, other, hq, second, different, same_i, same_j) (refl, refl, refl)

-- Two requests that make their calls in turn, none of which throws, both find the key free, and the
-- handler runs for both.
pub run-in_turn :
    (i j : ℕ) (result : HandlerResult) (s : Requests)
    → (i == j) ≡ false
    → s.cache ≡ none
    → s.phase i ≡ arrived
    → s.phase j ≡ arrived
    → ((run (in_turn i j result) s).phase i ≡ running)
      × ((run (in_turn i j result) s).phase j ≡ running)
unfolding run happen advance
run-in_turn i j result s different free first second =
    let s1 = step j result (step i result s) in
    let s2 = step j result (step i result s1) in
    let (c1, p1, q1) =
      round i j result s arrived arrived none none none looked_up looked_up different free first
        second refl refl in
    let (c2, p2, q2) =
      round i j result s1 looked_up looked_up none none none lock_free lock_free different c1 p1 q1
        refl refl in
    let (c3, p3, q3) =
      round i j result s2 lock_free lock_free none (some processing) (some processing) running
        running different c2 p2 q2 refl refl in
    (p3, q3)
