-- ===== src/Shared/Throttler.antt =====
-- src/shared/infrastructure/throttler/keyv-throttler.storage.ts: the counter of the rate limit, for
-- one throttler name and one key. The cache is a parameter; `Date.now()` is one value in a call.
use campusgig_backend.Prelude.{
  ℕ, ◌+◌, ◌-◌, ◌/◌, ◌≤◌, ◌<◌, ◌&&◌, ◌≡◌, ltb, if◌then◌else◌, List, [], ◌∷◌, Option, none, some,
  Bool, true, false, count_where, not,
}

-- The two keys: `throttle:${throttlerName}:${key}` and `throttle:block:${throttlerName}:${key}`.
pub data ThrottleKey : Type 0 where
  throttle_key : ThrottleKey
  block_key : ThrottleKey

-- What the storage relies on of the cache manager: what is set is read until its time has passed,
-- and the write of one key leaves the other.
pub record CacheManager (C : Type 0) : Type 0 where
  pub get : ℕ → ThrottleKey → C → Option ℕ
  pub set : ℕ → ThrottleKey → ℕ → ℕ → C → C
  pub get-set :
      (k : ThrottleKey) (now at v ttl : ℕ) (c : C)
      → at ≤ now
      → now < at + ttl
      → get now k (set at k v ttl c) ≡ some v
  pub get_throttle-set_block :
      (now at v ttl : ℕ) (c : C)
      → get now throttle_key (set at block_key v ttl c) ≡ get now throttle_key c
  pub get_block-set_throttle :
      (now at v ttl : ℕ) (c : C)
      → get now block_key (set at throttle_key v ttl c) ≡ get now block_key c

pub record ThrottleRecord : Type 0 where
  pub total_hits : ℕ
  pub time_to_expire : ℕ
  pub is_blocked : Bool
  pub time_to_block_expire : ℕ

-- `Math.ceil(ms / 1000)`
unfoldable pub to_seconds : ℕ → ℕ
to_seconds ms = (ms + 999) / 1000

-- What was read, a missing value as the zero that the tests take it for.
unfoldable pub or_zero : Option ℕ → ℕ
or_zero none = 0
or_zero (some n) = n

-- The times from `start` on, in order, before `end`.
unfoldable pub Within : ℕ → ℕ → List ℕ → Type 0
Within start end [] = start ≡ start
Within start end (t ∷ ts) = (start ≤ t) × (t < end) × Within t end ts

unfoldable pub smaller : ℕ → ℕ → ℕ
smaller a b = if ltb a b then a else b

module _ {C : Type 0} (cache : CacheManager C) where
  unfoldable pub increment : ℕ → ℕ → ℕ → ℕ → C → ThrottleRecord × C
  increment now ttl limit block_duration c =
      let blocked_until = or_zero (cache.get now block_key c) in
      if ltb now blocked_until
      then (
        record {
          total_hits = limit + 1;
          time_to_expire = to_seconds (blocked_until - now);
          is_blocked = true;
          time_to_block_expire = to_seconds (blocked_until - now);
        },
        c,
      )
      else let new_count = or_zero (cache.get now throttle_key c) + 1 in
        let counted = cache.set now throttle_key new_count ttl c in
        if ltb limit new_count && ltb 0 block_duration
        then (
          record {
            total_hits = new_count;
            time_to_expire = to_seconds ttl;
            is_blocked = true;
            time_to_block_expire = to_seconds block_duration;
          },
          cache.set now block_key (now + block_duration) block_duration counted,
        )
        else (
          record {
            total_hits = new_count;
            time_to_expire = to_seconds ttl;
            is_blocked = false;
            time_to_block_expire = 0;
          },
          counted,
        )

  -- The answers to requests at these times, one after the other.
  unfoldable pub increments : ℕ → ℕ → ℕ → List ℕ → C → List ThrottleRecord
  increments ttl limit block_duration [] c = []
  increments ttl limit block_duration (t ∷ ts) c =
      let answer = increment t ttl limit block_duration c in
      answer.0 ∷ increments ttl limit block_duration ts answer.1

  -- How many of the requests pass.
  unfoldable pub admitted : ℕ → ℕ → ℕ → List ℕ → C → ℕ
  admitted ttl limit block_duration ts c =
      count_where (λ a. not a.is_blocked) (increments ttl limit block_duration ts c)
