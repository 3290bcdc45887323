-- ===== src/Tests/Limits.antt =====
-- The rate limit over a cache that keeps the two keys with the time at which each passes.
use campusgig_backend.Prelude.{
  ℕ, ◌+◌, ◌≤◌, ◌<◌, ◌≡◌, ltb, if◌then◌else◌, [], ◌∷◌, Option, none, some, refl, arith, true, false,
  map,
}
use campusgig_backend.Shared.Throttler.{
  CacheManager, ThrottleKey, throttle_key, block_key, admitted, smaller, Within, increment,
  increments, or_zero,
}
use campusgig_backend.Shared.Admitted.{admitted-limit}

record Entry : Type 0 where
  value : ℕ
  passes_at : ℕ

record TwoEntries : Type 0 where
  counter : Option Entry
  block : Option Entry

abbrev fresh_value : ℕ → Option Entry → Option ℕ
fresh_value now none = none
fresh_value now (some e) = if ltb now e.passes_at then some e.value else none

abbrev get_entry : ℕ → ThrottleKey → TwoEntries → Option ℕ
get_entry now throttle_key c = fresh_value now c.counter
get_entry now block_key c = fresh_value now c.block

abbrev set_entry : ℕ → ThrottleKey → ℕ → ℕ → TwoEntries → TwoEntries
set_entry at throttle_key v ttl c = record c {
  counter = some (record { value = v; passes_at = at + ttl });
}
set_entry at block_key v ttl c = record c {
  block = some (record { value = v; passes_at = at + ttl });
}

get_entry-set :
    (k : ThrottleKey) (now at v ttl : ℕ) (c : TwoEntries)
    → at ≤ now
    → now < at + ttl
    → get_entry now k (set_entry at k v ttl c) ≡ some v
get_entry-set throttle_key now at v ttl c a b = ground (arith, b)
get_entry-set block_key now at v ttl c a b = ground (arith, b)

abbrev two_keys : CacheManager TwoEntries
two_keys = record {
  get = get_entry;
  set = set_entry;
  get-set = get_entry-set;
  get_throttle-set_block = λ now at v ttl c. refl;
  get_block-set_throttle = λ now at v ttl c. refl;
}

abbrev empty_cache : TwoEntries
empty_cache = record { counter = none; block = none }

-- Five requests within a minute, where two are allowed.
admitted-limit_example :
    admitted two_keys 60000 2 60000 (100 ∷ 200 ∷ 300 ∷ 400 ∷ 59000 ∷ []) empty_cache ≡ smaller 5 2
unfolding Within or_zero
admitted-limit_example =
    admitted-limit two_keys 100 60000 2 60000 (100 ∷ 200 ∷ 300 ∷ 400 ∷ 59000 ∷ []) empty_cache
      (omega arith)
      (
        omega arith,
        omega arith,
        (
          omega arith,
          omega arith,
          (omega arith, omega arith, (omega arith, omega arith, (omega arith, omega arith, refl))),
        ),
      )
      (λ now a b. (refl, refl))

two_pass :
    map (λ a. a.is_blocked) (increments two_keys 60000 2 60000 (100 ∷ 200 ∷ 300 ∷ []) empty_cache)
    ≡ (false ∷ false ∷ true ∷ [])
unfolding increments increment or_zero
two_pass = refl
