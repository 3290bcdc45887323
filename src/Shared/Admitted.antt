-- ===== src/Shared/Admitted.antt =====
-- How many requests the rate limit lets through in one window.
use campusgig_backend.Prelude.{
  ℕ, ◌+◌, ◌-◌, ◌≤◌, ◌<◌, ◌&&◌, ◌≡◌, ltb, List, [], ◌∷◌, true, false, length, arith, refl,
  Bool-cases, inl, inr, ◌∙◌, ap,
}
use campusgig_backend.Shared.Throttler.{
  CacheManager, throttle_key, block_key, increment, increments, admitted, or_zero, Within, smaller,
}

module _ {C : Type 0} (cache : CacheManager C) where
  abbrev pub hits : ℕ → C → ℕ
  hits now c = or_zero (cache.get now throttle_key c)

  abbrev pub block : ℕ → C → ℕ
  block now c = or_zero (cache.get now block_key c)

  -- From `from` until `end` the count is at the limit at least.
  abbrev Spent : ℕ → ℕ → ℕ → C → Type 0
  Spent limit from end c = (now : ℕ) → from ≤ now → now < end → limit ≤ hits now c

  -- From `from` until `end` the count is `n`, and no block is read.
  abbrev pub Counted : ℕ → ℕ → ℕ → C → Type 0
  Counted n from end c = (now : ℕ) → from ≤ now → now < end → (hits now c ≡ n) × (block now c ≡ 0)

  hits-set :
      (now at v ttl : ℕ) (c : C)
      → at ≤ now
      → now < at + ttl
      → hits now (cache.set at throttle_key v ttl c) ≡ v
  unfolding or_zero
  hits-set now at v ttl c a b = ap or_zero (cache.get-set throttle_key now at v ttl c a b)

  -- At the limit a request is blocked, and the count stays there.
  increment-Spent :
      (start t ttl limit block_duration : ℕ) (c : C)
      → 0 < block_duration
      → start ≤ t
      → t < start + ttl
      → Spent limit t (start + ttl) c
      → ((increment cache t ttl limit block_duration c).0.is_blocked ≡ true)
        × Spent limit t (start + ttl) (increment cache t ttl limit block_duration c).1
  unfolding increment
  increment-Spent start t ttl limit bd c pos from before h =
      let enough = h t (omega arith) before in
      elim (Bool-cases (ltb t (block t c))) [
        | inl e ↦ (rw e refl, rw e h)
        | inr e ↦
            let over : (ltb limit (hits t c + 1) && ltb 0 bd) ≡ true =
              ground (arith, enough, pos) in
            (
              rw (e, over) refl,
              rw (e, over)
                  (λ now a b.
                    rw
                      (cache.get_throttle-set_block now t (t + bd) bd
                        (cache.set t throttle_key (hits t c + 1) ttl c))
                      (rw (hits-set now t (hits t c + 1) ttl c a (omega (arith, a, b, from)))
                        (omega (arith, enough)))),
            )
      ]

  -- Below the limit a request passes and is counted.
  increment-Counted :
      (start t ttl limit block_duration n : ℕ) (c : C)
      → n < limit
      → start ≤ t
      → t < start + ttl
      → Counted n t (start + ttl) c
      → ((increment cache t ttl limit block_duration c).0.is_blocked ≡ false)
        × Counted (n + 1) t (start + ttl) (increment cache t ttl limit block_duration c).1
  unfolding increment
  increment-Counted start t ttl limit bd n c room from before h =
      let (read, free) = h t (omega arith) before in
      let unblocked : ltb t (block t c) ≡ false = ground (arith, free) in
      let under : (ltb limit (hits t c + 1) && ltb 0 bd) ≡ false = ground (arith, read, room) in
      (
        rw (unblocked, under) refl,
        rw (unblocked, under)
            (λ now a b. (
              hits-set now t (hits t c + 1) ttl c a (omega (arith, a, b, from))
                  ∙ ap (λ k. k + 1) read,
              ap or_zero (cache.get_block-set_throttle now t (hits t c + 1) ttl c) ∙ (h now a b).1,
            )),
      )

  none_admitted :
      (start ttl limit block_duration last : ℕ) (ts : List ℕ) (c : C)
      → 0 < block_duration
      → start ≤ last
      → Within last (start + ttl) ts
      → Spent limit last (start + ttl) c
      → admitted cache ttl limit block_duration ts c ≡ 0
  unfolding admitted increments Within
  none_admitted start ttl limit bd last [] c pos le w h = refl
  none_admitted start ttl limit bd last (t ∷ ts) c pos le (a, b, w) h =
      let from : start ≤ t = omega (arith, le, a) in
      let (answer, kept) =
        increment-Spent start t ttl limit bd c pos from b
          (λ now x y. h now (omega (arith, a, x)) y) in
      rw (answer, none_admitted start ttl limit bd t ts _ pos from w kept) refl

  admitted-Counted :
      (start ttl limit block_duration last n : ℕ) (ts : List ℕ) (c : C)
      → 0 < block_duration
      → n ≤ limit
      → start ≤ last
      → Within last (start + ttl) ts
      → Counted n last (start + ttl) c
      → admitted cache ttl limit block_duration ts c ≡ smaller (length ts) (limit - n)
  unfolding admitted increments Within smaller
  admitted-Counted start ttl limit bd last n [] c pos le from w h = ground (arith)
  admitted-Counted start ttl limit bd last n (t ∷ ts) c pos le first (a, b, w) h =
      let from : start ≤ t = omega (arith, first, a) in
      let later : Counted n t (start + ttl) c = λ now x y. h now (omega (arith, a, x)) y in
      elim (Bool-cases (ltb n limit)) [
        | inl e ↦
            let (answer, counted) =
              increment-Counted start t ttl limit bd n c (ground (arith, e)) from b later in
            rw
              (
                answer,
                admitted-Counted start ttl limit bd t (n + 1) ts _ pos (ground (arith, e)) from w
                    counted,
              )
              (ground (arith, e))
        | inr e ↦
            let (answer, kept) =
              increment-Spent start t ttl limit bd c pos from b
                (λ now x y. ground (arith, e, (later now x y).0)) in
            rw (answer, none_admitted start ttl limit bd t ts _ pos from w kept)
              (ground (arith, e, le))
      ]

  -- Requests in order within one `ttl`, the first of them with nothing counted and no block, where a
  -- block lasts longer than no time: as many pass as the limit says, or all of them if there are
  -- fewer.
  pub admitted-limit :
      (start ttl limit block_duration : ℕ) (ts : List ℕ) (c : C)
      → 0 < block_duration
      → Within start (start + ttl) ts
      → Counted 0 start (start + ttl) c
      → admitted cache ttl limit block_duration ts c ≡ smaller (length ts) limit
  admitted-limit start ttl limit bd ts c pos w h =
      let whole : limit - 0 ≡ limit = omega arith in
      admitted-Counted start ttl limit bd start 0 ts c pos (omega arith) (omega arith) w h
      ∙ ap (smaller (length ts)) whole
