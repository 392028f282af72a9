-- ===== src/Webhooks/Revived.antt =====
-- A webhook that is turned on again after its failures.
use stellar_split.Prelude.{
  ℕ, ◌+◌, ltb, leb, if◌then◌else◌, ◌&&◌, ◌∙◌, ap, ◌≤◌, ◌≡◌, refl, Bool, true, false, some, arith,
  find_by_id, is_ok, find-save, find-key,
}
use stellar_split.Entities.{Text}
use stellar_split.Webhooks.Entity.{
  Webhook, webhook_keyed, WebhookDelivery, delivery_keyed, Job, Store,
}
use stellar_split.Webhooks.Delivery as D
use stellar_split.Webhooks.Delivery.{HttpOutcome, responded, process_delivery}
use stellar_split.Webhooks.Failures.{expected_failures, active_at, process_delivery_counts}
use stellar_split.Webhooks.Subscribing.{
  Env, UpdateWebhookDto, store_webhook, find_one, assign, update,
}

updated_row :
    (env : Env) (i : ℕ) (dto : UpdateWebhookDto) (s : Store) (w : Webhook)
    → find_by_id i s.webhooks ≡ some w
    → is_ok (update env i dto s).0 ≡ true
    → (find_by_id i (update env i dto s).1.webhooks ≡ some (assign dto w))
      × ((update env i dto s).1.deliveries ≡ s.deliveries)
unfolding update find_one store_webhook assign
updated_row env i dto s w e through =
    ground (arith, find-save i (assign dto w) s.webhooks, find-key i s.webhooks {a = w} e)

active_of_row :
    (i : ℕ) (s : Store) (w : Webhook)
    → find_by_id i s.webhooks ≡ some w
    → active_at i s ≡ some w.is_active
active_of_row i s w e = rw (active_at, e) refl

counted_off :
    (o : HttpOutcome) (status : ℕ) (text body : Text) (tries n : ℕ) (active : Bool)
    → o ≡ responded status text body
    → 9 ≤ n
    → 500 ≤ status
    → let m = expected_failures o tries n in (if ltb n m && leb 10 m then false else active) ≡ false
counted_off o status text body tries n active e many bad = ground arith

assign_turns_on :
    (dto : UpdateWebhookDto) (w : Webhook)
    → dto.is_active ≡ some true
    → (assign dto w).is_active ≡ true
unfolding assign
assign_turns_on dto w on = ground arith

-- A webhook with nine failures or more that an update turns on is turned off again by the next delivery, if
-- that one meets a server error: the update keeps the count. The writes of the delivery must go through.
pub update_revives_once :
    (env : Env) (dto : UpdateWebhookDto) (s : Store) (w : Webhook) (env' : D.Env) (job : Job)
    (d : WebhookDelivery) (status : ℕ) (text body : Text)
    → find_by_id job.webhook_id s.webhooks ≡ some w
    → 9 ≤ w.failure_count
    → dto.is_active ≡ some true
    → is_ok (update env job.webhook_id dto s).0 ≡ true
    → find_by_id job.delivery_id s.deliveries ≡ some d
    → ((n : ℕ) → env'.write n ≡ true)
    → env'.http ≡ responded status text body
    → 500 ≤ status
    → let s' = (update env job.webhook_id dto s).1 in
      (active_at job.webhook_id s' ≡ some true)
      × (active_at job.webhook_id (process_delivery env' job s').1 ≡ some false)
unfolding assign
update_revives_once env dto s w env' job d status text body e many on through found writes http
      bad =
    let (row, kept) = updated_row env job.webhook_id dto s w e through in
    let off =
      (process_delivery_counts env' job (update env job.webhook_id dto s).1 d (assign dto w)
        (rw kept found) row writes).1 in
    let on_again =
      active_of_row job.webhook_id (update env job.webhook_id dto s).1 (assign dto w) row in
    let stays =
      counted_off env'.http status text body (d.attempt_count + 1) w.failure_count
        (assign dto w).is_active http many bad in
    (on_again ∙ ap some (assign_turns_on dto w on), off ∙ ap some stays)
