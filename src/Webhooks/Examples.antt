-- ===== src/Webhooks/Examples.antt =====
-- The theorems on webhooks at concrete stores, and runs of the services.
use stellar_split.Prelude.{
  ℕ, ◌≤◌, ◌⊎◌, List, ◌++◌, ◌==◌, count, select, ◌+◌, ◌≡◌, refl, inl, inr, true, false, none, some,
  [], ◌∷◌, arith, All, find_by_id, save_row, ok, is_ok,
}
use stellar_split.Webhooks.Entity.{
  WebhookEventType, Webhook, webhook_keyed, pending, WebhookDelivery, delivery_keyed, limit_keyed,
  Job, Store,
}
use Prim.Native.Nat.{min}
use stellar_split.Webhooks.RateLimit.{unavailable}
use stellar_split.Webhooks.Queueing
use stellar_split.Webhooks.Queueing.{is_target, trigger_event, queue_all, queue_delivery}
use stellar_split.Webhooks.Delivery
use stellar_split.Webhooks.Delivery.{
  HttpOutcome, responded, thrown, process_delivery, attempt, on_response, update_stats,
  count_failure,
}
use stellar_split.Entities.{Text, codes}
use stellar_split.Webhooks.Secrets.{
  IsStrong, is_strong_secret, is_strong_secret-IsStrong, is_repeated, normalized_secret, trim_start,
  trim_end, lower,
}
use stellar_split.Webhooks.Subscribing
use stellar_split.Webhooks.Subscribing.{
  CreateWebhookDto, UpdateWebhookDto, Call, perform, update, find_one, store_webhook,
  is_refused_url, is_refused_secret, is_valid_url,
}
use stellar_split.Webhooks.Guarded.{IsGuarded, perform-IsGuarded}
use stellar_split.Webhooks.Revived.{update_revives_once}
use stellar_split.Webhooks.Windows.{allowed, allowed_in_window}
use stellar_split.Webhooks.Dispatch.{Justified, let_through, trigger_event_queues}
use stellar_split.Webhooks.Failures.{failures_at, active_at, process_delivery_counts}

abbrev hook : Webhook
hook = record {
  id = 2;
  user_id = 7;
  url = 104 ∷ [];
  events = WebhookEventType.payment_received ∷ [];
  secret = 115 ∷ [];
  is_active = true;
  failure_count = 9;
  last_triggered_at = none;
}

abbrev delivery : WebhookDelivery
delivery = record {
  id = 5;
  webhook_id = 2;
  event_type = WebhookEventType.payment_received;
  payload = [];
  status = pending;
  attempt_count = 0;
  http_status = none;
  status_code = none;
  response_body = none;
  error_message = none;
  delivered_at = none;
}

abbrev job : Job
job = record {
  delivery_id = 5;
  webhook_id = 2;
  url = 104 ∷ [];
  secret = 115 ∷ [];
  event_type = WebhookEventType.payment_received;
  payload = [];
}

abbrev store : Store
store = record { webhooks = hook ∷ []; deliveries = delivery ∷ []; limits = []; jobs = [] }

abbrev http_env : HttpOutcome → Delivery.Env
http_env o = record { now = 900; http = o; write = λ n. true; db_message = none }

abbrev queue_env : Queueing.Env
queue_env = record {
  now = 900;
  new_id = λ n. 60 + n;
  redis = λ n. unavailable;
  write = λ n. true;
  enqueue = λ n. true;
}

-- The tenth server error turns the webhook off, and the job is not tried again.
tenth_error :
    let (r, s') = process_delivery (http_env (responded 503 [] [])) job store in
    (r ≡ ok tt) × (active_at 2 s' ≡ some false)
unfolding process_delivery attempt on_response update_stats count_failure find_by_id save_row
tenth_error = (refl, refl)

-- The window of an earlier request, which reached the limit, is over.
allowed_in_window_example :
    allowed 2 60 2
      ((2, 10) ∷ (3, 90) ∷ (2, 20) ∷ (2, 70) ∷ [])
      (record { webhook_id = 2; count = 2; reset_at = 5 } ∷ [])
    ≡ min (1 + 2) 2
unfolding find_by_id
allowed_in_window_example =
    allowed_in_window 2 60 2 10 ((3, 90) ∷ (2, 20) ∷ (2, 70) ∷ [])
      (record { webhook_id = 2; count = 2; reset_at = 5 } ∷ []) (omega arith)
      (inr (record { webhook_id = 2; count = 2; reset_at = 5 }, refl, omega arith))
      (inl refl, (inr (omega arith), (inr (omega arith), tt)))

process_delivery_counts_example :
    let (r, s') = process_delivery (http_env (responded 503 [] [])) job store in
    (failures_at 2 s' ≡ some 10) × (active_at 2 s' ≡ some false) × (is_ok r ≡ true)
unfolding find_by_id
process_delivery_counts_example =
    process_delivery_counts (http_env (responded 503 [] [])) job store delivery hook refl refl
      (λ n. refl)

trigger_event_queues_example :
    let type = WebhookEventType.payment_received in
    let (r, s') = trigger_event queue_env type [] (some 7) store in
    let targets = select (is_target type (some 7)) store.webhooks in
    (jobs : List Job) × (more : List Job) × (s'.jobs ≡ store.jobs ++ jobs)
    × (let_through type [] queue_env 0 targets store.limits ≡ jobs ++ more)
    × ((is_ok r ≡ false) ⊎ (more ≡ []))
    × All (Justified type [] (some 7) store.webhooks) jobs
    × ((i : ℕ) → count (λ job. job.webhook_id == i) jobs ≤ 1)
    × (s'.webhooks ≡ store.webhooks)
unfolding find_by_id
trigger_event_queues_example =
    trigger_event_queues queue_env WebhookEventType.payment_received [] (some 7) store (refl, tt)

abbrev random_digits : Text
random_digits = codes "9f86d081884c7d659a2feaa0c55ad015a3bf4f1b2b0b822cd15d6c15b0f00a08"

random_digits-IsStrong : IsStrong random_digits
unfolding is_strong_secret is_repeated normalized_secret trim_start trim_end lower
random_digits-IsStrong = is_strong_secret-IsStrong random_digits refl

abbrev service_env : Subscribing.Env
service_env = record {
  now = 900;
  new_id = 8;
  new_secret = random_digits;
  write = true;
  protocol_of = λ url. some (codes "https:");
}

test_weak_secrets :
    (is_strong_secret (codes "aaaaaaaaaaaaaaaaaaaaaaaaaaaaaaaaaaaa") ≡ false)
    × (is_strong_secret (codes "                Password                 ") ≡ false)
    × (is_strong_secret (codes "0123456789") ≡ false)
unfolding is_strong_secret is_repeated normalized_secret trim_start trim_end lower
test_weak_secrets = (refl, refl, refl)

perform-IsGuarded_example :
    All
      (IsGuarded service_env.protocol_of)
      (perform service_env
        (Call.subscribe (record { user_id = some 7; url = 104 ∷ []; events = [] }))
        (record store { webhooks = [] })).webhooks
perform-IsGuarded_example =
    perform-IsGuarded service_env
      (Call.subscribe (record { user_id = some 7; url = 104 ∷ []; events = [] }))
      (record store { webhooks = [] }) random_digits-IsStrong tt

abbrev turned_off : Webhook
turned_off = record hook { is_active = false; failure_count = 10 }

abbrev turn_on : UpdateWebhookDto
turn_on = record { url = none; events = none; secret = none; is_active = some true }

update_revives_once_example :
    let s' = (update service_env 2 turn_on (record store { webhooks = turned_off ∷ [] })).1 in
    (active_at 2 s' ≡ some true)
    × (active_at 2 (process_delivery (http_env (responded 503 [] [])) job s').1 ≡ some false)
unfolding find_by_id update find_one store_webhook is_refused_url is_refused_secret
update_revives_once_example =
    update_revives_once service_env turn_on (record store { webhooks = turned_off ∷ [] }) turned_off
      (http_env (responded 503 [] [])) job delivery 503 [] [] refl (omega arith) refl refl refl
      (λ n. refl) refl (omega arith)
