-- ===== src/Shared/Exclusive.antt =====
-- The idempotency lock where no request's calls are interrupted, the cache works, and no lock expires
-- before its handler ends.
use campusgig_backend.Prelude.{
  ℕ, ◌==◌, ◌||◌, ◌≡◌, ◌⊎◌, if◌then◌else◌, List, [], ◌∷◌, Option, none, some, Bool, true, false,
  arith, refl, inl, inr, Bool-cases, ◌∙◌, ap, subst,
}
use campusgig_backend.Shared.Idempotency.{
  CachedResponse, processing, completed, Phase, arrived, looked_up, lock_free, running, answered,
  conflict, failed, HandlerResult, Requests, advance, step, releasing, happen, expires,
}

-- Three calls of one request in a row: from its arrival to its lock, or to its end.
unfoldable pub attend : ℕ → HandlerResult → Requests → Requests
unfolding step
attend i result s = step i result (step i result (step i result s))

-- What happens where nothing interrupts a request and no call of the cache throws.
pub data Turn : Type 0 where
  attended : (i : ℕ) (result : HandlerResult) → Turn
  expired : Turn

unfoldable pub take_turn : Turn → Requests → Requests
unfolding attend
take_turn (attended i result) s = attend i result s
take_turn expired s = happen expires s

-- One turn after the other.
unfoldable pub serve : List Turn → Requests → Requests
unfolding take_turn
serve [] s = s
serve (t ∷ rest) s = serve rest (take_turn t s)

abbrev advance_thrice :
    HandlerResult → Option CachedResponse → Phase → Option CachedResponse × Phase
advance_thrice result c p =
    let once = advance result c p in
    let twice = advance result once.0 once.1 in advance result twice.0 twice.1

attend_lem :
    (i : ℕ) (result : HandlerResult) (s : Requests)
    → ((attend i result s).cache ≡ (advance_thrice result s.cache (s.phase i)).0)
      × ((k : ℕ)
          → (attend i result s).phase k
            ≡ (if k == i then (advance_thrice result s.cache (s.phase i)).1 else s.phase k))
unfolding attend
attend_lem i result s =
    let same : (i == i) ≡ true = ground arith in
    (
      rw same refl,
      λ k. elim (Bool-cases (k == i)) [ inl e ↦ rw (e, same) refl | inr e ↦ rw e refl ],
    )

-- A request that is not between its lookup and its end.
unfoldable pub at_rest : Phase → Bool
at_rest arrived = true
at_rest looked_up = false
at_rest lock_free = false
at_rest running = false
at_rest releasing = false
at_rest (answered body) = true
at_rest conflict = true
at_rest failed = true

-- Nothing is being processed under the key.
unfoldable pub unlocked : Option CachedResponse → Bool
unlocked none = true
unlocked (some processing) = false
unlocked (some (completed body)) = true

-- No handler runs and the key is not locked, or one handler runs and its request holds the lock.
unfoldable pub Exclusive : Requests → Type 0
Exclusive s =
    ((unlocked s.cache ≡ true) × ((k : ℕ) → at_rest (s.phase k) ≡ true))
    ⊎ ((o : ℕ) × (s.cache ≡ some processing)
        × (s.phase o ≡ running)
        × ((k : ℕ) → (k == o || at_rest (s.phase k)) ≡ true))

-- A request that meets no lock runs and holds it, or it comes to rest.
unlocked_turn :
    (result : HandlerResult) (c : Option CachedResponse) (p : Phase)
    → at_rest p ≡ true
    → unlocked c ≡ true
    → (((advance_thrice result c p).0 ≡ some processing)
        × ((advance_thrice result c p).1 ≡ running))
      ⊎ ((unlocked (advance_thrice result c p).0 ≡ true)
          × (at_rest (advance_thrice result c p).1 ≡ true))
unfolding advance at_rest unlocked
unlocked_turn result none arrived h u = inl (refl, refl)
unlocked_turn result (some processing) arrived h u = absurd (ground (arith, u))
unlocked_turn result (some (completed body)) arrived h u = inr (refl, refl)
unlocked_turn result c looked_up h u = absurd (ground (arith, h))
unlocked_turn result c lock_free h u = absurd (ground (arith, h))
unlocked_turn result c running h u = absurd (ground (arith, h))
unlocked_turn result c releasing h u = absurd (ground (arith, h))
unlocked_turn result c (answered body) h u = inr (u, refl)
unlocked_turn result c conflict h u = inr (u, refl)
unlocked_turn result c failed h u = inr (u, refl)

-- A request that meets a lock leaves it and comes to rest.
locked_turn :
    (result : HandlerResult) (p : Phase)
    → at_rest p ≡ true
    → ((advance_thrice result (some processing) p).0 ≡ some processing)
      × (at_rest (advance_thrice result (some processing) p).1 ≡ true)
unfolding advance at_rest
locked_turn result arrived h = (refl, refl)
locked_turn result looked_up h = absurd (ground (arith, h))
locked_turn result lock_free h = absurd (ground (arith, h))
locked_turn result running h = absurd (ground (arith, h))
locked_turn result releasing h = absurd (ground (arith, h))
locked_turn result (answered body) h = (refl, refl)
locked_turn result conflict h = (refl, refl)
locked_turn result failed h = (refl, refl)

-- The request that holds the lock gives it up when its handler ends.
owner_turn :
    (result : HandlerResult)
    → (unlocked (advance_thrice result (some processing) running).0 ≡ true)
      × (at_rest (advance_thrice result (some processing) running).1 ≡ true)
unfolding advance at_rest unlocked
owner_turn none = (refl, refl)
owner_turn (some body) = (refl, refl)

rest_if :
    (b : Bool) (p q : Phase)
    → at_rest p ≡ true
    → (b || at_rest q) ≡ true
    → at_rest (if b then p else q) ≡ true
rest_if true p q h k = h
rest_if false p q h k = k

or_true : (b c : Bool) → c ≡ true → (b || c) ≡ true
or_true true c h = refl
or_true false c h = h

attend-Exclusive :
    (i : ℕ) (result : HandlerResult) (s : Requests) → Exclusive s → Exclusive (attend i result s)
unfolding Exclusive
attend-Exclusive i result s (inl (u, rest)) =
    let (cache, phase) = attend_lem i result s in
    elim (unlocked_turn result s.cache (s.phase i) (rest i) u) [
      | inl (lock, runs) ↦ inr (
        i,
        cache ∙ lock,
        phase i ∙ (let same : (i == i) ≡ true = ground arith in rw same runs),
        λ k. elim (Bool-cases (k == i)) [ inl e ↦ rw e refl | inr e ↦ rw (phase k, e) (rest k) ],
      )
      | inr (u', at_end) ↦ inl (
        ap unlocked cache ∙ u',
        λ k. rw (phase k) (
            rest_if (k == i) _ (s.phase k) at_end
              (or_true (k == i) (at_rest (s.phase k)) (rest k))),
      )
    ]
attend-Exclusive i result s (inr (o, lock, runs, rest)) =
    let (cache, phase) = attend_lem i result s in
    elim (Bool-cases (i == o)) [
      | inl e ↦
          let same : o ≡ i = ground (arith, e) in
          let here = subst (λ x. s.phase x ≡ running) same runs in
          let turn = owner_turn result in
          inl (
            ap unlocked cache ∙ rw (lock, here) turn.0,
            λ k.
                rw (phase k, lock, here)
                  (rest_if (k == i) _ (s.phase k) turn.1
                    (subst (λ x. (k == x || at_rest (s.phase k)) ≡ true) same (rest k))),
          )
      | inr e ↦
          let idle : at_rest (s.phase i) ≡ true = ground (arith, rest i, e) in
          let turn = locked_turn result (s.phase i) idle in
          let other : (o == i) ≡ false = ground (arith, e) in
          inr (
            o,
            cache ∙ rw lock turn.0,
            phase o ∙ rw other runs,
            λ k. elim (Bool-cases (k == i)) [
              | inl f ↦ rw (phase k, f, lock) (or_true (k == o) _ turn.1)
              | inr f ↦ rw (phase k, f) (rest k)
            ],
          )
    ]

-- The lock of a handler that runs does not expire.
unfoldable pub Lasting : List Turn → Requests → Type 0
Lasting [] s = Unit
Lasting (attended i result ∷ rest) s = Lasting rest (take_turn (attended i result) s)
Lasting (expired ∷ rest) s = (unlocked s.cache ≡ true) × Lasting rest (take_turn expired s)

expired-Exclusive :
    (s : Requests) → unlocked s.cache ≡ true → Exclusive s → Exclusive (take_turn expired s)
unfolding Exclusive take_turn happen unlocked
expired-Exclusive s free (inl (u, rest)) = inl (refl, rest)
expired-Exclusive s free (inr (o, lock, runs, rest)) = absurd (ground (arith, free, lock))

-- Where no call of the cache throws, no request's three calls are interrupted by another's, and no
-- lock expires before its handler ends (an answer may): if at most one handler runs under the key and
-- its request alone holds the lock, this is so after any requests, in any order, whether their
-- handlers return or throw.
pub serve-Exclusive :
    (turns : List Turn) (s : Requests) → Lasting turns s → Exclusive s → Exclusive (serve turns s)
unfolding serve Lasting take_turn
serve-Exclusive [] s lasting h = h
serve-Exclusive (attended i result ∷ rest) s lasting h =
    serve-Exclusive rest (attend i result s) lasting (attend-Exclusive i result s h)
serve-Exclusive (expired ∷ rest) s (free, lasting) h =
    serve-Exclusive rest (take_turn expired s) lasting (expired-Exclusive s free h)
