-- ===== src/Orders/Windows.antt =====
-- The constants of the orders repository, in milliseconds and percent, and the platform's user.
use campusgig_backend.Prelude.{ℕ, ◌*◌}

abbrev pub hour_ms : ℕ
hour_ms = 60 * 60 * 1000

abbrev pub accept_window_ms : ℕ
accept_window_ms = 24 * hour_ms

abbrev pub review_window_ms : ℕ
review_window_ms = 72 * hour_ms

abbrev pub dispute_window_ms : ℕ
dispute_window_ms = 7 * 24 * hour_ms

abbrev pub extension_window_ms : ℕ
extension_window_ms = 24 * hour_ms

abbrev pub cancellation_window_ms : ℕ
cancellation_window_ms = 24 * hour_ms

abbrev pub platform_fee_pct : ℕ
platform_fee_pct = 20

-- `00000000-0000-0000-0000-000000000001`
abbrev pub platform_fee_collector_user_id : ℕ
platform_fee_collector_user_id = 1
