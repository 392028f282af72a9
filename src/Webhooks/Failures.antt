-- ===== src/Webhooks/Failures.antt =====
-- What a delivery attempt does to the failure count of its webhook.
use stellar_split.Prelude.{
  ℕ, ◌+◌, ◌<◌, ◌≡◌, ◌⊎◌, inl, inr, Bool, true, false, ◌&&◌, Option, none, some, arith, ltb, leb,
  if◌then◌else◌, All, find_by_id, save_row, Error, db_failure, upstream_failure, ok, err, is_ok,
}
use stellar_split.Entities.{Text}
use stellar_split.Webhooks.Entity.{
  Webhook, webhook_keyed, WebhookDelivery, delivery_keyed, limit_keyed, Job, Store,
}
use stellar_split.Prelude.{Option-cases, find-save, find-key, All-save}
use stellar_split.Webhooks.Delivery.{
  HttpOutcome, responded, thrown, Env, is_success, mark_response, count_failure, reset_failures,
  update_stats, mark_thrown, count_last_attempt, on_thrown, on_response, attempt, process_delivery,
}

-- An active webhook is below the threshold of ten failures.
abbrev pub IsHealthy : Webhook → Type 0
IsHealthy w = (w.is_active ≡ false) ⊎ (w.failure_count < 10)

module _ (env : Env) (s : Store) (h : All IsHealthy s.webhooks) where
  update_stats-IsHealthy : (i status : ℕ) → All IsHealthy (update_stats env i status s).1.webhooks
  unfolding update_stats count_failure reset_failures
  update_stats-IsHealthy i status = elim (Option-cases (find_by_id i s.webhooks)) [
    | inl e ↦ ground arith
    | inr (w, e) ↦ ground (
      arith,
      All-save IsHealthy (count_failure w) s.webhooks,
      All-save IsHealthy (reset_failures env.now w) s.webhooks,
    )
  ]

  count_last_attempt-IsHealthy :
      (i n : ℕ) (status : Option ℕ) → All IsHealthy (count_last_attempt env i n status s).1.webhooks
  unfolding count_last_attempt count_failure
  count_last_attempt-IsHealthy i n status = elim (Option-cases (find_by_id i s.webhooks)) [
    | inl e ↦ ground arith
    | inr (w, e) ↦ ground (arith, All-save IsHealthy (count_failure w) s.webhooks)
  ]

update_stats_result :
    (env : Env) (s : Store) (i status : ℕ)
    → ((update_stats env i status s).0 ≡ ok tt) ⊎ ((update_stats env i status s).0 ≡ err db_failure)
unfolding update_stats
update_stats_result env s i status = ground arith

on_thrown-IsHealthy :
    (env : Env) (s : Store) (job : Job) (d : WebhookDelivery) (e : Error) (status : Option ℕ)
    (text : Option Text)
    → All IsHealthy s.webhooks
    → All IsHealthy (on_thrown env job d e status text s).1.webhooks
unfolding on_thrown
on_thrown-IsHealthy env s job d e status text h =
    let s' : Store = record s { deliveries = save_row (mark_thrown status text d) s.deliveries } in
    ground (arith, count_last_attempt-IsHealthy env s' h job.webhook_id d.attempt_count status)

on_response-IsHealthy :
    (env : Env) (s : Store) (job : Job) (d : WebhookDelivery) (status : ℕ) (text body : Text)
    → All IsHealthy s.webhooks
    → All IsHealthy (on_response env job d status text body s).1.webhooks
unfolding on_response
on_response-IsHealthy env s job d status text body h =
    let d' = mark_response env.now status text body d in
    let s' : Store = record s { deliveries = save_row d' s.deliveries } in
    let s'' : Store = (update_stats env job.webhook_id status s').1 in
    let h'' = update_stats-IsHealthy env s' h job.webhook_id status in
    ground (
      arith,
      h'',
      on_thrown-IsHealthy env s job d' db_failure none env.db_message h,
      update_stats_result env s' job.webhook_id status,
      on_thrown-IsHealthy env s'' job d' db_failure none env.db_message h'',
    )

attempt-IsHealthy :
    (env : Env) (s : Store) (job : Job) (d : WebhookDelivery) (o : HttpOutcome)
    → All IsHealthy s.webhooks
    → All IsHealthy (attempt env job d o s).1.webhooks
unfolding attempt
attempt-IsHealthy env s job d (responded status text body) h =
    on_response-IsHealthy env s job d status text body h
attempt-IsHealthy env s job d (thrown status text) h =
    on_thrown-IsHealthy env s job d upstream_failure status text h

-- Whatever the request gives and whichever writes fail, an attempt leaves every active webhook below ten
-- failures, if all were so before.
pub process_delivery-IsHealthy :
    (env : Env) (job : Job) (s : Store)
    → All IsHealthy s.webhooks
    → All IsHealthy (process_delivery env job s).1.webhooks
unfolding process_delivery
process_delivery-IsHealthy env job s h =
    elim (Option-cases (find_by_id job.delivery_id s.deliveries)) [
      | inl e ↦ ground arith
      | inr (d, e) ↦
          let d' : WebhookDelivery = record d { attempt_count = d.attempt_count + 1 } in
          let s' : Store = record s { deliveries = save_row d' s.deliveries } in
          ground (arith, attempt-IsHealthy env s' job d' env.http h)
    ]

abbrev pub failures_at : ℕ → Store → Option ℕ
failures_at i s = elim (find_by_id i s.webhooks) [ none ↦ none | some w ↦ some w.failure_count ]

abbrev pub active_at : ℕ → Store → Option Bool
active_at i s = elim (find_by_id i s.webhooks) [ none ↦ none | some w ↦ some w.is_active ]

-- The count that an attempt should leave: none after a success, one more after a server error and after
-- an exception of the last attempt that is no client error, the same after anything else.
abbrev pub expected_failures : HttpOutcome → ℕ → ℕ → ℕ
expected_failures (responded status text body) tries n =
    if is_success status then 0 else if leb 500 status then n + 1 else n
expected_failures (thrown none text) tries n = if leb 3 tries then n + 1 else n
expected_failures (thrown (some status) text) tries n =
    if leb 3 tries && leb 500 status then n + 1 else n

abbrev pub is_response : HttpOutcome → Bool
is_response (responded status text body) = true
is_response (thrown status text) = false

attempt_counts :
    (env : Env) (job : Job) (s : Store) (d : WebhookDelivery) (w : Webhook) (o : HttpOutcome)
    → find_by_id job.webhook_id s.webhooks ≡ some w
    → ((n : ℕ) → env.write n ≡ true)
    → let (r, s') = attempt env job d o s in
      let n = expected_failures o d.attempt_count w.failure_count in
      (failures_at job.webhook_id s' ≡ some n)
      × (active_at job.webhook_id s'
          ≡ some (if ltb w.failure_count n && leb 10 n then false else w.is_active))
      × (is_ok r ≡ is_response o)
unfolding attempt on_response update_stats count_failure reset_failures on_thrown count_last_attempt
attempt_counts env job s d w (responded status text body) target writes = ground (
  arith,
  writes 1,
  writes 2,
  find-key job.webhook_id s.webhooks {a = w} target,
  find-save job.webhook_id (count_failure w) s.webhooks,
  find-save job.webhook_id (reset_failures env.now w) s.webhooks,
)
attempt_counts env job s d w (thrown none text) target writes = ground (
  arith,
  writes 3,
  writes 4,
  find-key job.webhook_id s.webhooks {a = w} target,
  find-save job.webhook_id (count_failure w) s.webhooks,
)
attempt_counts env job s d w (thrown (some status) text) target writes = ground (
  arith,
  writes 3,
  writes 4,
  find-key job.webhook_id s.webhooks {a = w} target,
  find-save job.webhook_id (count_failure w) s.webhooks,
)

-- With no failing write, an attempt leaves the webhook's failure count as the table says and turns the
-- webhook off exactly when the count has grown to ten or more; it never turns one on. The call succeeds
-- exactly when there was a response, whatever its status, so that the queue tries again only after an
-- exception.
pub process_delivery_counts :
    (env : Env) (job : Job) (s : Store) (d : WebhookDelivery) (w : Webhook)
    → find_by_id job.delivery_id s.deliveries ≡ some d
    → find_by_id job.webhook_id s.webhooks ≡ some w
    → ((n : ℕ) → env.write n ≡ true)
    → let (r, s') = process_delivery env job s in
      let n = expected_failures env.http (d.attempt_count + 1) w.failure_count in
      (failures_at job.webhook_id s' ≡ some n)
      × (active_at job.webhook_id s'
          ≡ some (if ltb w.failure_count n && leb 10 n then false else w.is_active))
      × (is_ok r ≡ is_response env.http)
unfolding process_delivery
process_delivery_counts env job s d w found target writes =
    let d' : WebhookDelivery = record d { attempt_count = d.attempt_count + 1 } in
    let s' : Store = record s { deliveries = save_row d' s.deliveries } in
    ground (arith, writes 0, attempt_counts env job s' d' w env.http target writes)
