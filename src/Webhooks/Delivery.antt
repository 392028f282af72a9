-- ===== src/Webhooks/Delivery.antt =====
-- `processDelivery` and `incrementFailureCount` of backend/src/webhooks/webhook-delivery.service.ts.
-- The HTTP client is a parameter: what it answers.
use stellar_split.Prelude.{
  ℕ, ◌+◌, Bool, true, false, not, ◌&&◌, Option, none, some, ltb, leb, ◌==◌, if◌then◌else◌, take,
  find_by_id, save_row, Error, bad_request, db_failure, upstream_failure, ok, err, Action, throw,
  or_throw, throw_if, modify, ◌>>=◌, ◌>>◌,
}
use stellar_split.Entities.{Text}
use stellar_split.Webhooks.Entity.{
  Webhook, webhook_keyed, success, failed, ErrorMessage, WebhookDelivery, delivery_keyed,
  limit_keyed, Job, Store,
}

abbrev pub max_retries : ℕ
max_retries = 3

abbrev pub failure_threshold : ℕ
failure_threshold = 10

-- The request gave a response with a status, a status text and a body, or threw, with the status of a
-- response if the exception has one, and its message.
pub data HttpOutcome : Type 0 where
  responded : ℕ → Text → Text → HttpOutcome
  thrown : Option ℕ → Option Text → HttpOutcome

-- The clock, the request's outcome, whether the n-th write goes through, and the message of the exception
-- when a write of the try block does not.
pub record Env : Type 0 where
  pub now : ℕ
  pub http : HttpOutcome
  pub write : ℕ → Bool
  pub db_message : Option Text

unfoldable pub save_delivery : Env → ℕ → WebhookDelivery → Action Store (Unit {0})
save_delivery env n d = do
  throw_if (not (env.write n)) db_failure
  modify (λ s. record s { deliveries = save_row d s.deliveries })

unfoldable pub save_webhook : Env → ℕ → Webhook → Action Store (Unit {0})
save_webhook env n w = do
  throw_if (not (env.write n)) db_failure
  modify (λ s. record s { webhooks = save_row w s.webhooks })

abbrev pub is_success : ℕ → Bool
is_success status = leb 200 status && ltb status 300

-- What the response leaves in the delivery.
unfoldable pub mark_response : ℕ → ℕ → Text → Text → WebhookDelivery → WebhookDelivery
mark_response now status text body d = record d {
  status = if is_success status then success else failed;
  http_status = some status;
  status_code = some status;
  delivered_at = some now;
  response_body = some (take 1000 body);
  error_message =
      if is_success status then d.error_message else some (ErrorMessage.http status text);
}

unfoldable pub count_failure : Webhook → Webhook
count_failure w =
    let n = w.failure_count + 1 in
    record w {
      failure_count = n;
      is_active = if leb failure_threshold n then false else w.is_active;
    }

unfoldable pub reset_failures : ℕ → Webhook → Webhook
reset_failures now w = record w { failure_count = 0; last_triggered_at = some now }

-- The webhook's statistics after a response.
unfoldable pub update_stats : Env → ℕ → ℕ → Action Store (Unit {0})
unfolding save_webhook
update_stats env i status s = elim (find_by_id i s.webhooks) [
  | none ↦ (ok tt, s)
  | some w ↦
      if is_success status
      then save_webhook env 2 (reset_failures env.now w) s
      else if leb 500 status
      then save_webhook env 2 (count_failure w) s
      else (ok tt, s)
]

-- What an exception leaves in the delivery.
unfoldable pub mark_thrown : Option ℕ → Option Text → WebhookDelivery → WebhookDelivery
mark_thrown status text d = record d {
  status = failed;
  error_message =
      some (ErrorMessage.message (elim text [ none ↦ none | some t ↦ some (take 500 t) ]));
  status_code = elim status [
    | none ↦ d.status_code
    | some n ↦ if n == 0 then d.status_code else some n
  ];
  http_status = elim status [
    | none ↦ d.http_status
    | some n ↦ if n == 0 then d.http_status else some n
  ];
}

abbrev pub is_5xx_or_network : Option ℕ → Bool
is_5xx_or_network none = true
is_5xx_or_network (some n) = leb 500 n

-- The webhook's failure count after an exception: only the last attempt counts.
unfoldable pub count_last_attempt : Env → ℕ → ℕ → Option ℕ → Action Store (Unit {0})
unfolding save_webhook
count_last_attempt env i attempts status s = elim (find_by_id i s.webhooks) [
  | none ↦ (ok tt, s)
  | some w ↦
      if leb max_retries attempts && is_5xx_or_network status
      then save_webhook env 4 (count_failure w) s
      else (ok tt, s)
]

-- The catch block; it throws the exception again.
unfoldable pub on_thrown :
    Env → Job → WebhookDelivery → Error → Option ℕ → Option Text → Action Store (Unit {0})
unfolding save_delivery
on_thrown env job d error status text = do
  save_delivery env 3 (mark_thrown status text d)
  count_last_attempt env job.webhook_id d.attempt_count status
  throw error

-- The try block after the response; an exception of its writes goes to the catch block.
unfoldable pub on_response : Env → Job → WebhookDelivery → ℕ → Text → Text → Action Store (Unit {0})
unfolding save_delivery
on_response env job d status text body s =
    let d' = mark_response env.now status text body d in
    let (r, s') = (save_delivery env 1 d' >> update_stats env job.webhook_id status) s in
    elim r [ ok _ ↦ (ok tt, s') | err e ↦ on_thrown env job d' e none env.db_message s' ]

unfoldable pub attempt : Env → Job → WebhookDelivery → HttpOutcome → Action Store (Unit {0})
attempt env job d (responded status text body) = on_response env job d status text body
attempt env job d (thrown status text) = on_thrown env job d upstream_failure status text

unfoldable pub process_delivery : Env → Job → Action Store (Unit {0})
unfolding save_delivery
process_delivery env job = do
  d ← λ s. or_throw (find_by_id job.delivery_id s.deliveries) bad_request s
  save_delivery env 0 (record d { attempt_count = d.attempt_count + 1 })
  attempt env job (record d { attempt_count = d.attempt_count + 1 }) env.http
