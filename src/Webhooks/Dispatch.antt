-- ===== src/Webhooks/Dispatch.antt =====
-- What an event puts into the queue.
use stellar_split.Prelude.{
  ℕ, ◌+◌, ◌≤◌, ◌≡◌, refl, sym, ap, ◌∙◌, ◌⊎◌, inl, inr, Bool, true, false, Option, none, some, List,
  [], ◌∷◌, ◌++◌, arith, All, select, count, ◌==◌, if◌then◌else◌, find_by_id, ok, err, Result,
  Action, ◌>>◌, ◌>>=◌, is_ok, Distinct, ==→eq,
}
use stellar_split.Entities.{Text}
use stellar_split.Webhooks.Entity.{
  WebhookEventType, Webhook, webhook_keyed, delivery_keyed, Limit, limit_keyed, Job, Store,
}
use mathlib.Core.Path.{subst}
use mathlib.Core.List.{append-nil, append_assoc}
use stellar_split.Prelude.{Bool-cases, All-map, count-append}
use stellar_split.Webhooks.RateLimit.{check_rate_limit}
use stellar_split.Webhooks.Queueing.{
  Env, rate_limit_window_ms, max_requests_per_window, new_job, record_delivery, queue_delivery,
  queue_all, subscribes, is_target, trigger_event,
}

module _ (m k : Action Store (Unit {0})) (s : Store) where
  then_goes : (m s).0 ≡ ok tt → (m >> k) s ≡ k (m s).1
  then_goes e = rw (◌>>◌, ◌>>=◌, e) refl

  then_ends : is_ok (m s).0 ≡ false → (m >> k) s ≡ m s
  then_ends e = ground arith

module _ (type : WebhookEventType) (payload : Text) where
  -- The job carries the event to the webhook.
  pub record Carries (w : Webhook) (job : Job) : Type 0 where
    pub same_webhook : job.webhook_id ≡ w.id
    pub same_url : job.url ≡ w.url
    pub same_secret : job.secret ≡ w.secret
    pub same_type : job.event_type ≡ type
    pub same_payload : job.payload ≡ payload

  -- The job carries the event to a webhook that is active, subscribes to the event and, where a user is
  -- given, belongs to the user.
  abbrev pub Justified : Option ℕ → List Webhook → Job → Type 0
  Justified user [] job = ⊥
  Justified user (w ∷ ws) job =
      (Carries w job
        × (w.is_active ≡ true)
        × (subscribes type w.events ≡ true)
        × ((user ≡ none) ⊎ (user ≡ some w.user_id)))
      ⊎ Justified user ws job

  -- Every job of the webhook has the property.
  abbrev JobsHave : (Job → Type 0) → Webhook → Type 0
  JobsHave P w = (i : ℕ) → P (new_job i w type payload)

  is_target_facts :
      (user : Option ℕ) (w : Webhook)
      → is_target type user w ≡ true
      → (w.is_active ≡ true)
        × (subscribes type w.events ≡ true)
        × ((user ≡ none) ⊎ (user ≡ some w.user_id))
  is_target_facts user w h = ground arith

  targets-Justified :
      (user : Option ℕ) (ws : List Webhook)
      → All (JobsHave (Justified user ws)) (select (is_target type user) ws)
  targets-Justified user [] = tt
  targets-Justified user (w ∷ ws) =
      let rest = select (is_target type user) ws in
      let later =
        All-map (JobsHave (Justified user ws)) (JobsHave (Justified user (w ∷ ws))) rest
          (λ v h i. inr (h i)) (targets-Justified user ws) in
      elim (Bool-cases (is_target type user w)) [
        | inl hit ↦
            let (a, b, c) = is_target_facts user w hit in
            rw hit (
              λ i. inl (
                unfold new_job in
                    record {
                      same_webhook = refl;
                      same_url = refl;
                      same_secret = refl;
                      same_type = refl;
                      same_payload = refl;
                    },
                a,
                b,
                c,
              ),
              later,
            )
        | inr miss ↦ rw miss later
      ]

  -- The jobs of the webhooks that the rate limit lets through, one after the other.
  pub let_through : Env → ℕ → List Webhook → List Limit → List Job
  let_through env n [] limits = []
  let_through env n (w ∷ ws) limits =
      let (within, limits') =
        check_rate_limit (env.redis n) env.now w.id max_requests_per_window rate_limit_window_ms
          limits in
      let rest = let_through env (n + 1) ws limits' in
      if within then new_job (env.new_id n) w type payload ∷ rest else rest

  abbrev checked : Env → ℕ → Webhook → Store → Bool × List Limit
  checked env n w s =
      check_rate_limit (env.redis n) env.now w.id max_requests_per_window rate_limit_window_ms
        s.limits

  -- One webhook: over its limit, it is skipped; else its job is added, or the call ends.
  queue_delivery_webhooks :
      (env : Env) (n : ℕ) (w : Webhook) (s : Store)
      → (queue_delivery env n w type payload s).1.webhooks ≡ s.webhooks
  unfolding queue_delivery
  queue_delivery_webhooks env n w s = ground arith

  done : (r : Result (Unit {0})) → is_ok r ≡ true → r ≡ ok tt
  done (ok tt) e = refl
  done (err k) e = cc

  queue_delivery_step :
      (env : Env) (n : ℕ) (w : Webhook) (s : Store)
      → let (r, s') = queue_delivery env n w type payload s in
        let (within, limits') = checked env n w s in
        ((within ≡ false) × (r ≡ ok tt) × (s'.jobs ≡ s.jobs) × (s'.limits ≡ limits'))
        ⊎ (((within ≡ true)
              × (r ≡ ok tt)
              × (s'.jobs ≡ s.jobs ++ (new_job (env.new_id n) w type payload ∷ []))
              × (s'.limits ≡ limits'))
            ⊎ ((within ≡ true) × (is_ok r ≡ false) × (s'.jobs ≡ s.jobs)))
  unfolding queue_delivery record_delivery
  queue_delivery_step env n w s = elim (Bool-cases (checked env n w s).0) [
    | inr over ↦ inl (over, rw over refl, rw over refl, rw over refl)
    | inl within ↦ elim (Bool-cases (env.write n)) [
      | inr unsaved ↦ inr (inr (within, rw (within, unsaved) refl, rw (within, unsaved) refl))
      | inl saved ↦ elim (Bool-cases (env.enqueue n)) [
        | inr refused ↦
            inr (inr (within, rw (within, saved, refused) refl, rw (within, saved, refused) refl))
        | inl added ↦ inr (
            inl (
              within,
              rw (within, saved, added) refl,
              rw (within, saved, added) refl,
              rw (within, saved, added) refl,
            ))
      ]
    ]
  ]

  queue_all_ends :
      (env : Env) (n : ℕ) (w : Webhook) (ws : List Webhook) (s : Store)
      → is_ok (queue_delivery env n w type payload s).0 ≡ false
      → queue_all env n (w ∷ ws) type payload s ≡ queue_delivery env n w type payload s
  unfolding queue_all
  queue_all_ends env n w ws s fails =
      then_ends (queue_delivery env n w type payload) (queue_all env (n + 1) ws type payload) s
        fails

  queue_all_goes :
      (env : Env) (n : ℕ) (w : Webhook) (ws : List Webhook) (s : Store)
      → (queue_delivery env n w type payload s).0 ≡ ok tt
      → queue_all env n (w ∷ ws) type payload s
        ≡ queue_all env (n + 1) ws type payload (queue_delivery env n w type payload s).1
  unfolding queue_all
  queue_all_goes env n w ws s goes =
      then_goes (queue_delivery env n w type payload) (queue_all env (n + 1) ws type payload) s goes

  -- The queue has grown by the first of the jobs, by all of them if nothing failed.
  abbrev Grown : List Job → Store → Bool → Store → Type 0
  Grown due s goes s' =
      (jobs : List Job) × (more : List Job) × (s'.jobs ≡ s.jobs ++ jobs)
      × (due ≡ jobs ++ more)
      × ((goes ≡ false) ⊎ (more ≡ []))

  still :
      {b c : Bool} {more : List Job} → c ≡ b → (b ≡ false) ⊎ (more ≡ []) → (c ≡ false) ⊎ (more ≡ [])
  still e (inl f) = inl (e ∙ f)
  still e (inr f) = inr f

  queue_all-Grown :
      (env : Env) (n : ℕ) (ws : List Webhook) (s : Store)
      → let (r, s') = queue_all env n ws type payload s in
        Grown (let_through env n ws s.limits) s (is_ok r) s'
  unfolding queue_all let_through
  queue_all-Grown env n [] s = ([], [], rw append-nil refl, refl, inr refl)
  queue_all-Grown env n (w ∷ ws) s =
      let s1 = (queue_delivery env n w type payload s).1 in
      let job = new_job (env.new_id n) w type payload in
      elim (queue_delivery_step env n w s) [
        | inl (over, goes, jobs_same, limits_same) ↦
            let (jobs, more, e, d, full) = queue_all-Grown env (n + 1) ws s1 in
            let same = queue_all_goes env n w ws s goes in
            (
              jobs,
              more,
              ap (λ x. x.1.jobs) same ∙ e ∙ ap (λ l. l ++ jobs) jobs_same,
              rw over (ap (let_through env (n + 1) ws) (sym limits_same) ∙ d),
              still (ap (λ x. is_ok x.0) same) full,
            )
        | inr (inl (within, goes, one_more, limits_same)) ↦
            let (jobs, more, e, d, full) = queue_all-Grown env (n + 1) ws s1 in
            let same = queue_all_goes env n w ws s goes in
            (
              job ∷ jobs,
              more,
              ap (λ x. x.1.jobs) same ∙ e ∙ ap (λ l. l ++ jobs) one_more ∙ rw append_assoc refl,
              rw within (ap (λ l. job ∷ l) (ap (let_through env (n + 1) ws) (sym limits_same) ∙ d)),
              still (ap (λ x. is_ok x.0) same) full,
            )
        | inr (inr (within, fails, jobs_same)) ↦
            let ends = queue_all_ends env n w ws s fails in
            (
              [],
              let_through env n (w ∷ ws) s.limits,
              ap (λ x. x.1.jobs) ends ∙ jobs_same ∙ rw append-nil refl,
              refl,
              inl (ap (λ x. is_ok x.0) ends ∙ fails),
            )
      ]

  let_through-Have :
      (P : Job → Type 0) (env : Env) (n : ℕ) (ws : List Webhook) (limits : List Limit)
      → All (JobsHave P) ws
      → All P (let_through env n ws limits)
  unfolding let_through
  let_through-Have P env n [] limits h = tt
  let_through-Have P env n (w ∷ ws) limits (h, hs) =
      let (within, limits') =
        check_rate_limit (env.redis n) env.now w.id max_requests_per_window rate_limit_window_ms
          limits in
      let rest = let_through-Have P env (n + 1) ws limits' hs in
      elim (Bool-cases within) [
        | inl yes_within ↦ rw yes_within (h (env.new_id n), rest)
        | inr not_within ↦ rw not_within rest
      ]

  abbrev is_for : ℕ → Job → Bool
  is_for i job = job.webhook_id == i

  queue_all_webhooks :
      (env : Env) (n : ℕ) (ws : List Webhook) (s : Store)
      → (queue_all env n ws type payload s).1.webhooks ≡ s.webhooks
  unfolding queue_all
  queue_all_webhooks env n [] s = refl
  queue_all_webhooks env n (w ∷ ws) s =
      let (r, s1) = queue_delivery env n w type payload s in
      let here = queue_delivery_webhooks env n w s in
      elim (Bool-cases (is_ok r)) [
        | inr fails ↦ ap (λ x. x.1.webhooks) (queue_all_ends env n w ws s fails) ∙ here
        | inl goes ↦
            ap (λ x. x.1.webhooks) (queue_all_goes env n w ws s (done r goes))
            ∙ queue_all_webhooks env (n + 1) ws s1
            ∙ here
      ]

  let_through_counts :
      (env : Env) (n i : ℕ) (ws : List Webhook) (limits : List Limit)
      → count (is_for i) (let_through env n ws limits) ≤ count (λ w. w.id == i) ws
  unfolding let_through new_job
  let_through_counts env n i [] limits = omega arith
  let_through_counts env n i (w ∷ ws) limits =
      let (within, limits') =
        check_rate_limit (env.redis n) env.now w.id max_requests_per_window rate_limit_window_ms
          limits in
      let rest = let_through_counts env (n + 1) i ws limits' in
      elim (Bool-cases within) [
        | inl let_in ↦ rw let_in (omega (arith, rest))
        | inr kept_out ↦ rw kept_out (omega (arith, rest))
      ]

module _ {A : Type 0} where
  All-first : (P : A → Type 0) (xs ys : List A) → All P (xs ++ ys) → All P xs
  All-first P [] ys h = tt
  All-first P (x ∷ xs) ys (h, hs) = (h, All-first P xs ys hs)

count_unfound :
    (p : Webhook → Bool) (i : ℕ) (ws : List Webhook)
    → find_by_id i ws ≡ none
    → count (λ w. w.id == i) (select p ws) ≡ 0
unfolding find_by_id
count_unfound p i [] e = refl
count_unfound p i (w ∷ ws) e = ground (arith, count_unfound p i ws)

count-Distinct :
    (p : Webhook → Bool) (i : ℕ) (ws : List Webhook)
    → Distinct ws
    → count (λ w. w.id == i) (select p ws) ≤ 1
count-Distinct p i [] d = omega arith
count-Distinct p i (w ∷ ws) (fresh, d) = elim (Bool-cases (w.id == i)) [
  | inl same ↦
      let gone : find_by_id i ws ≡ none =
        ap (λ n. find_by_id n ws) (sym (==→eq w.id i same)) ∙ fresh in
      ground (arith, count_unfound p i ws gone)
  | inr other ↦ ground (arith, count-Distinct p i ws d)
]

-- An event adds to the queue, after what is there, the jobs of its targets that the rate limit lets through,
-- in their order: all of them if nothing fails, else the first ones. The targets are the webhooks that are
-- active, subscribe to the event and, where a user is given, are the user's. No webhook gets more than one
-- job, each job carries the webhook's address and secret with the event, and no webhook changes. Webhooks'
-- identifiers must be distinct.
pub trigger_event_queues :
    (env : Env) (type : WebhookEventType) (payload : Text) (user : Option ℕ) (s : Store)
    → Distinct s.webhooks
    → let (r, s') = trigger_event env type payload user s in
      let targets = select (is_target type user) s.webhooks in
      (jobs : List Job) × (more : List Job) × (s'.jobs ≡ s.jobs ++ jobs)
      × (let_through type payload env 0 targets s.limits ≡ jobs ++ more)
      × ((is_ok r ≡ false) ⊎ (more ≡ []))
      × All (Justified type payload user s.webhooks) jobs
      × ((i : ℕ) → count (λ job. job.webhook_id == i) jobs ≤ 1)
      × (s'.webhooks ≡ s.webhooks)
unfolding trigger_event
trigger_event_queues env type payload user s distinct =
    let targets = select (is_target type user) s.webhooks in
    let due = let_through type payload env 0 targets s.limits in
    let (jobs, more, grown, first, full) = queue_all-Grown type payload env 0 targets s in
    let P = Justified type payload user s.webhooks in
    let have =
      let_through-Have type payload P env 0 targets s.limits
        (targets-Justified type payload user s.webhooks) in
    (
      jobs,
      more,
      grown,
      first,
      full,
      All-first P jobs more (subst (All P) first have),
      λ i.
          (let all_of = let_through_counts type payload env 0 i targets s.limits in
            let one = count-Distinct (is_target type user) i s.webhooks distinct in
            let parts = count-append (λ (job : Job). job.webhook_id == i) jobs more in
            let total = ap (count (λ (job : Job). job.webhook_id == i)) first in
            omega (arith, all_of, one, parts, total)),
      queue_all_webhooks type payload env 0 targets s,
    )
