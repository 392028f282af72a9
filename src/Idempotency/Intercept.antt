-- ===== src/Idempotency/Intercept.antt =====
-- backend/src/common/idempotency/idempotency.interceptor.ts and idempotency.service.ts. A request is
-- served, and its record saved, before the next one; keys and hashes are only compared.
use stellar_split.Prelude.{
  ℕ, ◌-◌, Bool, not, Option, none, some, List, [], ◌∷◌, ◌++◌, ltb, ◌==◌, if◌then◌else◌, select,
  Error, Result, ok, err,
}
use stellar_split.Entities.{Text}

-- backend/src/entities/idempotency-record.entity.ts; the body is JSON.
pub record IdempotencyRecord : Type 0 where
  pub key : ℕ
  pub request_payload_hash : ℕ
  pub response_body : Text
  pub status_code : ℕ
  pub created_at : ℕ

-- The key of the header, if there is one, the body, the time, and whether the record can be saved.
pub record Request : Type 0 where
  pub idempotency_key : Option ℕ
  pub body : Text
  pub now : ℕ
  pub write : Bool

-- The status and the body; a refusal is the interceptor's own.
pub data Response : Type 0 where
  answered : ℕ → Text → Response
  cache_hit : ℕ → Text → Response
  unprocessable : Response
  failed : Error → Response

-- `getRecord`.
unfoldable pub get_record : ℕ → List IdempotencyRecord → Option IdempotencyRecord
get_record k [] = none
get_record k (r ∷ rs) = if r.key == k then some r else get_record k rs

unfoldable pub new_record : ℕ → ℕ → ℕ → ℕ → Text → IdempotencyRecord
new_record now key hash status body = record {
  key = key;
  request_payload_hash = hash;
  response_body = body;
  status_code = status;
  created_at = now;
}

abbrev pub day_ms : ℕ
day_ms = 86_400_000

-- `cleanExpiredRecords`.
unfoldable pub clean_expired_records : ℕ → List IdempotencyRecord → List IdempotencyRecord
clean_expired_records now records = select (λ r. not (ltb r.created_at (now - day_ms))) records

-- The route's handler, on the state of the application: a status and a body, or a throw. The hash is
-- that of the body.
module _ {S : Type 0} (hash : Text → ℕ) (handle : Text → S → Result (ℕ × Text) × S) where
  -- What follows the handler: a throw leaves no record, and one that cannot be saved is passed over.
  unfoldable pub recorded :
      Request → ℕ → List IdempotencyRecord → Result (ℕ × Text) → Response × List IdempotencyRecord
  unfolding new_record
  recorded q key records (err e) = (failed e, records)
  recorded q key records (ok (status, body)) = (
    answered status body,
    if q.write then records ++ (new_record q.now key (hash q.body) status body ∷ []) else records,
  )

  abbrev pub plain : Result (ℕ × Text) → Response
  plain (ok (status, body)) = answered status body
  plain (err e) = failed e

  unfoldable pub intercept :
      Request → S × List IdempotencyRecord → Response × (S × List IdempotencyRecord)
  unfolding get_record recorded
  intercept q (s, records) = elim q.idempotency_key [
    | none ↦ let (result, s') = handle q.body s in (plain result, (s', records))
    | some key ↦ elim (get_record key records) [
      | some r ↦
          if not (r.request_payload_hash == hash q.body)
          then (unprocessable, (s, records))
          else (cache_hit r.status_code r.response_body, (s, records))
      | none ↦
          let (result, s') = handle q.body s in
          let (response, records') = recorded q key records result in (response, (s', records'))
    ]
  ]
