-- ===== src/Webhooks/Entity.antt =====
-- The rows of the webhook services (backend/src/webhooks/webhook.entity.ts, webhook-delivery.entity.ts),
-- the fallback map of the rate limit and the queue.
use stellar_split.Prelude.{ℕ, Bool, Option, List, Keyed}
use stellar_split.Entities.{Text}

pub data WebhookEventType : Type 0 where
  split_created split_updated split_completed payment_received payment_made participant_added :
      WebhookEventType

abbrev pub event_code : WebhookEventType → ℕ
event_code split_created = 0
event_code split_updated = 1
event_code split_completed = 2
event_code payment_received = 3
event_code payment_made = 4
event_code participant_added = 5

pub record Webhook : Type 0 where
  pub id : ℕ
  pub user_id : ℕ
  pub url : Text
  pub events : List WebhookEventType
  pub secret : Text
  pub is_active : Bool
  pub failure_count : ℕ
  pub last_triggered_at : Option ℕ

instance abbrev pub webhook_keyed : Keyed Webhook
webhook_keyed = record { key = λ w. w.id }

pub data DeliveryStatus : Type 0 where
  pending success failed : DeliveryStatus

-- `HTTP status: text`, or the message of an exception.
pub data ErrorMessage : Type 0 where
  http : ℕ → Text → ErrorMessage
  message : Option Text → ErrorMessage

pub record WebhookDelivery : Type 0 where
  pub id : ℕ
  pub webhook_id : ℕ
  pub event_type : WebhookEventType
  pub payload : Text
  pub status : DeliveryStatus
  pub attempt_count : ℕ
  pub http_status : Option ℕ
  pub status_code : Option ℕ
  pub response_body : Option Text
  pub error_message : Option ErrorMessage
  pub delivered_at : Option ℕ

instance abbrev pub delivery_keyed : Keyed WebhookDelivery
delivery_keyed = record { key = λ d. d.id }

-- An entry of the rate limit's fallback map.
pub record Limit : Type 0 where
  pub webhook_id : ℕ
  pub count : ℕ
  pub reset_at : ℕ

instance abbrev pub limit_keyed : Keyed Limit
limit_keyed = record { key = λ l. l.webhook_id }

pub record Job : Type 0 where
  pub delivery_id : ℕ
  pub webhook_id : ℕ
  pub url : Text
  pub secret : Text
  pub event_type : WebhookEventType
  pub payload : Text

-- The repositories, the fallback map and the jobs added to the queue.
pub record Store : Type 0 where
  pub webhooks : List Webhook
  pub deliveries : List WebhookDelivery
  pub limits : List Limit
  pub jobs : List Job
