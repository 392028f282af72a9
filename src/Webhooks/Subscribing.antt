-- ===== src/Webhooks/Subscribing.antt =====
-- backend/src/webhooks/webhooks.service.ts. The reads in order of creation are left out.
use stellar_split.Prelude.{
  ℕ, Bool, true, false, not, ◌&&◌, ◌||◌, Option, none, some, List, [], ◌∷◌, ◌==◌, or_default,
  select, find_by_id, save_row, not_found, bad_request, db_failure, Action, return, or_throw,
  throw_if, modify, ◌>>=◌, ◌>>◌,
}
use stellar_split.Entities.{Text, same_text, codes}
use stellar_split.Webhooks.Entity.{
  WebhookEventType, Webhook, webhook_keyed, delivery_keyed, limit_keyed, Store,
}
use stellar_split.Webhooks.Queueing.{subscribes}
use stellar_split.Webhooks.Delivery.{count_failure}
use stellar_split.Webhooks.Secrets.{is_strong_secret}

pub record CreateWebhookDto : Type 0 where
  pub user_id : Option ℕ
  pub url : Text
  pub events : List WebhookEventType

pub record UpdateWebhookDto : Type 0 where
  pub url : Option Text
  pub events : Option (List WebhookEventType)
  pub secret : Option Text
  pub is_active : Option Bool

-- The clock, the identifier of a new row, the hexadecimal digits of 32 random bytes, whether the write
-- goes through, and what `new URL(url).protocol` gives, unless it throws.
pub record Env : Type 0 where
  pub now : ℕ
  pub new_id : ℕ
  pub new_secret : Text
  pub write : Bool
  pub protocol_of : Text → Option Text

unfoldable pub is_valid_url : (Text → Option Text) → Text → Bool
is_valid_url protocol_of url = elim (protocol_of url) [
  | none ↦ false
  | some p ↦ same_text (codes "http:") p || same_text (codes "https:") p
]

unfoldable pub store_webhook : Env → Webhook → Action Store Webhook
store_webhook env w = do
  throw_if (not env.write) db_failure
  modify (λ s. record s { webhooks = save_row w s.webhooks })
  return w

unfoldable pub new_webhook : Env → ℕ → CreateWebhookDto → Webhook
new_webhook env user dto = record {
  id = env.new_id;
  user_id = user;
  url = dto.url;
  events = dto.events;
  secret = env.new_secret;
  is_active = true;
  failure_count = 0;
  last_triggered_at = none;
}

-- The column of the user takes no null.
unfoldable pub create : Env → CreateWebhookDto → Action Store Webhook
unfolding store_webhook
create env dto = do
  throw_if (not (is_valid_url env.protocol_of dto.url)) bad_request
  user ← or_throw dto.user_id db_failure
  store_webhook env (new_webhook env user dto)

unfoldable pub find_one : ℕ → Action Store Webhook
find_one i s = or_throw (find_by_id i s.webhooks) not_found s

unfoldable pub find_by_event_type : WebhookEventType → Store → List Webhook
find_by_event_type type s = select (λ w. w.is_active && subscribes type w.events) s.webhooks

-- An empty address is not looked at.
unfoldable pub is_refused_url : (Text → Option Text) → Option Text → Bool
unfolding is_valid_url
is_refused_url protocol_of none = false
is_refused_url protocol_of (some []) = false
is_refused_url protocol_of (some (c ∷ cs)) = not (is_valid_url protocol_of (c ∷ cs))

unfoldable pub is_refused_secret : Option Text → Bool
unfolding is_strong_secret
is_refused_secret none = false
is_refused_secret (some t) = not (is_strong_secret t)

-- `Object.assign(webhook, updateWebhookDto)`.
unfoldable pub assign : UpdateWebhookDto → Webhook → Webhook
assign dto w = record w {
  url = or_default dto.url w.url;
  events = or_default dto.events w.events;
  secret = or_default dto.secret w.secret;
  is_active = or_default dto.is_active w.is_active;
}

unfoldable pub update : Env → ℕ → UpdateWebhookDto → Action Store Webhook
unfolding find_one store_webhook
update env i dto = do
  w ← find_one i
  throw_if (is_refused_url env.protocol_of dto.url) bad_request
  throw_if (is_refused_secret dto.secret) bad_request
  store_webhook env (assign dto w)

-- The deliveries go with their webhook.
unfoldable pub remove : Env → ℕ → Action Store (Unit {0})
unfolding find_one
remove env i = do
  w ← find_one i
  throw_if (not env.write) db_failure
  modify (λ s. record s {
    webhooks = select (λ v. not (v.id == w.id)) s.webhooks;
    deliveries = select (λ d. not (d.webhook_id == w.id)) s.deliveries;
  })

-- The change of a row that is there.
unfoldable pub change : Env → ℕ → (Webhook → Webhook) → Action Store Webhook
unfolding find_one store_webhook
change env i f = do w ← find_one i; store_webhook env (f w)

unfoldable pub increment_failure_count : Env → ℕ → Action Store Webhook
unfolding change
increment_failure_count env i = change env i count_failure

unfoldable pub reset_failure_count : Env → ℕ → Action Store Webhook
unfolding change
reset_failure_count env i = change env i (λ w. record w { failure_count = 0 })

unfoldable pub update_last_triggered : Env → ℕ → Action Store Webhook
unfolding change
update_last_triggered env i = change env i (λ w. record w { last_triggered_at = some env.now })

pub data Call : Type 0 where
  subscribe : CreateWebhookDto → Call
  revise : ℕ → UpdateWebhookDto → Call
  unsubscribe : ℕ → Call
  increment : ℕ → Call
  reset : ℕ → Call
  touch : ℕ → Call

-- What a call leaves.
unfoldable pub perform : Env → Call → Store → Store
unfolding create update remove increment_failure_count reset_failure_count update_last_triggered
perform env (Call.subscribe dto) s = (create env dto s).1
perform env (Call.revise i dto) s = (update env i dto s).1
perform env (Call.unsubscribe i) s = (remove env i s).1
perform env (Call.increment i) s = (increment_failure_count env i s).1
perform env (Call.reset i) s = (reset_failure_count env i s).1
perform env (Call.touch i) s = (update_last_triggered env i s).1
