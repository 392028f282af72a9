-- ===== src/Idempotency/Examples.antt =====
-- Requests under key 7 to a handler that counts its calls.
use stellar_split.Prelude.{ℕ, ◌+◌, true, some, none, List, [], ◌∷◌, Result, ok, length, ◌≡◌, refl}
use stellar_split.Entities.{Text}
use stellar_split.Idempotency.Intercept.{
  IdempotencyRecord, Request, Response, intercept, day_ms, get_record, new_record, recorded,
  clean_expired_records,
}
use stellar_split.Idempotency.Once.{
  Event, request, clean, seen, serve, serve_each, at_most_once, intercept_once,
}

abbrev counted : Text → ℕ → Result (ℕ × Text) × ℕ
counted body calls = (ok (201, body), calls + 1)

abbrev at_time : ℕ → Request
at_time t = record { idempotency_key = some 7; body = 1 ∷ []; now = t; write = true }

abbrev kept : IdempotencyRecord
kept = record {
  key = 7;
  request_payload_hash = 1;
  response_body = 1 ∷ [];
  status_code = 201;
  created_at = 5;
}

-- Served, replayed, cleaned away and served again.
abbrev events : List Event
events =
    request (at_time 5)
    ∷ request (at_time 9)
    ∷ clean (day_ms + 6)
    ∷ request (at_time (day_ms + 7))
    ∷ []

test_first :
    intercept length counted (at_time 5) (0, []) ≡ (Response.answered 201 (1 ∷ []), (1, kept ∷ []))
unfolding intercept get_record recorded new_record
test_first = refl

test_replay :
    intercept length counted (at_time 9) (1, kept ∷ [])
    ≡ (Response.cache_hit 201 (1 ∷ []), (1, kept ∷ []))
unfolding intercept get_record
test_replay = refl

test_other_body :
    intercept length counted (record (at_time 9) { body = 1 ∷ 1 ∷ [] }) (1, kept ∷ [])
    ≡ (Response.unprocessable, (1, kept ∷ []))
unfolding intercept get_record
test_other_body = refl

test_no_key :
    intercept length counted (record (at_time 9) { idempotency_key = none }) (1, kept ∷ [])
    ≡ (Response.answered 201 (1 ∷ []), (2, kept ∷ []))
unfolding intercept
test_no_key = refl

test_events : (serve_each length counted events (0, [])).0 ≡ 2
unfolding serve_each serve intercept get_record recorded new_record clean_expired_records
test_events = refl

intercept_once_example :
    seen (serve_each length counted events (0, []))
    ≡ at_most_once length counted events (seen (0, []))
intercept_once_example = intercept_once length counted events (0, [])
