-- ===== src/Webhooks/Queueing.antt =====
-- `triggerEvent`, `triggerSingleWebhook` and `queueDelivery` of
-- backend/src/webhooks/webhook-delivery.service.ts.
use stellar_split.Prelude.{
  ℕ, ◌+◌, Bool, true, false, not, ◌&&◌, Option, none, some, List, [], ◌∷◌, ◌++◌, ◌==◌,
  if◌then◌else◌, select, save_row, db_failure, upstream_failure, ok, Action, throw_if, modify, ◌>>◌,
}
use stellar_split.Entities.{Text}
use stellar_split.Webhooks.Entity.{
  WebhookEventType, event_code, Webhook, webhook_keyed, pending, WebhookDelivery, delivery_keyed,
  limit_keyed, Job, Store,
}
use stellar_split.Webhooks.RateLimit.{RedisReply, check_rate_limit}

abbrev pub rate_limit_window_ms : ℕ
rate_limit_window_ms = 60_000

abbrev pub max_requests_per_window : ℕ
max_requests_per_window = 10

-- The clock, and for the n-th webhook of the call: the identifier of its delivery, what Redis answers,
-- whether the delivery is saved and whether the job is added.
pub record Env : Type 0 where
  pub now : ℕ
  pub new_id : ℕ → ℕ
  pub redis : ℕ → RedisReply
  pub write : ℕ → Bool
  pub enqueue : ℕ → Bool

unfoldable pub new_delivery : ℕ → Webhook → WebhookEventType → Text → WebhookDelivery
new_delivery i w type payload = record {
  id = i;
  webhook_id = w.id;
  event_type = type;
  payload = payload;
  status = pending;
  attempt_count = 0;
  http_status = none;
  status_code = none;
  response_body = none;
  error_message = none;
  delivered_at = none;
}

unfoldable pub new_job : ℕ → Webhook → WebhookEventType → Text → Job
new_job i w type payload = record {
  delivery_id = i;
  webhook_id = w.id;
  url = w.url;
  secret = w.secret;
  event_type = type;
  payload = payload;
}

unfoldable pub record_delivery :
    Env → ℕ → Webhook → WebhookEventType → Text → Action Store (Unit {0})
unfolding new_delivery new_job
record_delivery env n w type payload = do
  throw_if (not (env.write n)) db_failure
  modify (λ s. record s {
    deliveries = save_row (new_delivery (env.new_id n) w type payload) s.deliveries;
  })
  throw_if (not (env.enqueue n)) upstream_failure
  modify (λ s. record s { jobs = s.jobs ++ (new_job (env.new_id n) w type payload ∷ []) })

-- A webhook over its limit is skipped.
unfoldable pub queue_delivery :
    Env → ℕ → Webhook → WebhookEventType → Text → Action Store (Unit {0})
unfolding record_delivery
queue_delivery env n w type payload s =
    let (within, limits) =
      check_rate_limit (env.redis n) env.now w.id max_requests_per_window rate_limit_window_ms
        s.limits in
    let s' : Store = record s { limits = limits } in
    if within then record_delivery env n w type payload s' else (ok tt, s')

-- `webhook.events @> [eventType]`.
abbrev pub subscribes : WebhookEventType → List WebhookEventType → Bool
subscribes type [] = false
subscribes type (t ∷ ts) = if event_code t == event_code type then true else subscribes type ts

-- Active, subscribed and, where a user is given, the user's.
abbrev pub is_target : WebhookEventType → Option ℕ → Webhook → Bool
is_target type user w =
    w.is_active && subscribes type w.events && elim user [ none ↦ true | some u ↦ w.user_id == u ]

-- The loop over the targets.
unfoldable pub queue_all :
    Env → ℕ → List Webhook → WebhookEventType → Text → Action Store (Unit {0})
queue_all env n [] type payload s = (ok tt, s)
queue_all env n (w ∷ ws) type payload s =
    ◌>>◌ (queue_delivery env n w type payload) (queue_all env (n + 1) ws type payload) s

unfoldable pub trigger_event : Env → WebhookEventType → Text → Option ℕ → Action Store (Unit {0})
trigger_event env type payload user s =
    queue_all env 0 (select (is_target type user) s.webhooks) type payload s

unfoldable pub trigger_single_webhook :
    Env → Webhook → WebhookEventType → Text → Action Store (Unit {0})
trigger_single_webhook env w type payload = queue_delivery env 0 w type payload
