-- ===== src/Webhooks/RateLimit.antt =====
-- backend/src/webhooks/webhook-rate-limit.store.ts. What Redis answers is a parameter.
use stellar_split.Prelude.{
  ℕ, ◌+◌, Bool, true, false, none, some, List, ltb, leb, if◌then◌else◌, find_by_id, save_row,
}
use stellar_split.Webhooks.Entity.{webhook_keyed, delivery_keyed, Limit, limit_keyed}

-- Redis is not connected, its transaction gives no results, a command fails, or the counter's new value.
pub data RedisReply : Type 0 where
  unavailable no_results command_failed : RedisReply
  counted : ℕ → RedisReply

-- `checkFallback`: whether the request is within the limit, and the map after it.
unfoldable pub check_fallback : ℕ → ℕ → ℕ → ℕ → List Limit → Bool × List Limit
check_fallback now webhook max_requests window_ms limits =
    let fresh : Limit = record { webhook_id = webhook; count = 1; reset_at = now + window_ms } in
    elim (find_by_id webhook limits) [
      | none ↦ (true, save_row fresh limits)
      | some l ↦
          if ltb l.reset_at now
          then (true, save_row fresh limits)
          else if leb max_requests l.count
          then (false, limits)
          else (true, save_row (record l { count = l.count + 1 }) limits)
    ]

unfoldable pub check_rate_limit : RedisReply → ℕ → ℕ → ℕ → ℕ → List Limit → Bool × List Limit
unfolding check_fallback
check_rate_limit unavailable now webhook max_requests window_ms limits =
    check_fallback now webhook max_requests window_ms limits
check_rate_limit no_results now webhook max_requests window_ms limits = (false, limits)
check_rate_limit command_failed now webhook max_requests window_ms limits =
    check_fallback now webhook max_requests window_ms limits
check_rate_limit (counted n) now webhook max_requests window_ms limits =
    (leb n max_requests, limits)
