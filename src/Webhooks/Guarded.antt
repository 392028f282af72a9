-- ===== src/Webhooks/Guarded.antt =====
-- The secrets and addresses that the subscriptions are left with.
use stellar_split.Prelude.{
  ℕ, ◌==◌, ◌≡◌, refl, ◌⊎◌, inl, inr, Bool, true, false, not, Option, none, some, List, [], ◌∷◌,
  arith, All, select, find_by_id, or_default, Option-cases, Bool-cases, find-All, All-save,
}
use stellar_split.Entities.{Text}
use stellar_split.Webhooks.Entity.{Webhook, webhook_keyed, Store}
use stellar_split.Webhooks.Delivery.{count_failure}
use stellar_split.Webhooks.Secrets.{IsStrong, is_strong_secret, is_strong_secret-IsStrong}
use stellar_split.Webhooks.Subscribing.{
  Env, is_valid_url, store_webhook, new_webhook, create, find_one, is_refused_url,
  is_refused_secret, CreateWebhookDto, UpdateWebhookDto, assign, update, remove, change,
  increment_failure_count, reset_failure_count, update_last_triggered, Call, perform,
}

-- A strong secret, and an address of the web or none.
pub record IsGuarded (protocol_of : Text → Option Text) (w : Webhook) : Type 0 where
  pub secret : IsStrong w.secret
  pub address : (is_valid_url protocol_of w.url ≡ true) ⊎ (w.url ≡ [])

All-select :
    {A : Type 0} (P : A → Type 0) (p : A → Bool) (xs : List A) → All P xs → All P (select p xs)
All-select P p [] h = tt
All-select P p (x ∷ xs) h = elim (Bool-cases (p x)) [
  | inl e ↦ ground (arith, All-select P p xs h.1)
  | inr e ↦ ground (arith, All-select P p xs h.1)
]

not-false : (b : Bool) → not b ≡ false → b ≡ true
not-false b e = ground arith

assigned_secret :
    (old : Text) (new : Option Text)
    → is_refused_secret new ≡ false
    → IsStrong old
    → IsStrong (or_default new old)
unfolding is_refused_secret
assigned_secret old none e h = h
assigned_secret old (some t) e h = is_strong_secret-IsStrong t (not-false (is_strong_secret t) e)

module _ (env : Env) where
  assigned_url :
      (old : Text) (new : Option Text)
      → is_refused_url env.protocol_of new ≡ false
      → (is_valid_url env.protocol_of old ≡ true) ⊎ (old ≡ [])
      → (is_valid_url env.protocol_of (or_default new old) ≡ true) ⊎ (or_default new old ≡ [])
  unfolding is_refused_url
  assigned_url old none e h = h
  assigned_url old (some []) e h = inr refl
  assigned_url old (some (c ∷ cs)) e h = inl (not-false (is_valid_url env.protocol_of (c ∷ cs)) e)

  assign-IsGuarded :
      (dto : UpdateWebhookDto) (w : Webhook)
      → is_refused_url env.protocol_of dto.url ≡ false
      → is_refused_secret dto.secret ≡ false
      → IsGuarded env.protocol_of w
      → IsGuarded env.protocol_of (assign dto w)
  unfolding assign
  assign-IsGuarded dto w u t h = record {
    secret = assigned_secret w.secret dto.secret t h.secret;
    address = assigned_url w.url dto.url u h.address;
  }

-- Any property of the rows.
module _ (env : Env) (P : Webhook → Type 0) (s : Store) (h : All P s.webhooks) where
  store_keeps : (w : Webhook) → P w → All P (store_webhook env w s).1.webhooks
  unfolding store_webhook
  store_keeps w g = ground (arith, All-save P w s.webhooks g h)

  change_keeps :
      (i : ℕ) (f : Webhook → Webhook)
      → ((w : Webhook) → P w → P (f w))
      → All P (change env i f s).1.webhooks
  unfolding change find_one
  change_keeps i f keeps = elim (Option-cases (find_by_id i s.webhooks)) [
    | inl e ↦ ground arith
    | inr (w, e) ↦ ground (arith, store_keeps (f w) (keeps w (find-All P i s.webhooks h e)))
  ]

  create_keeps :
      (dto : CreateWebhookDto)
      → ((user : ℕ) → is_valid_url env.protocol_of dto.url ≡ true → P (new_webhook env user dto))
      → All P (create env dto s).1.webhooks
  unfolding create
  create_keeps dto new = elim (Bool-cases (is_valid_url env.protocol_of dto.url)) [
    | inl e ↦ elim (Option-cases dto.user_id) [
      | inl none_given ↦ ground arith
      | inr (user, given) ↦ ground (arith, store_keeps (new_webhook env user dto) (new user e))
    ]
    | inr e ↦ ground arith
  ]

  update_keeps :
      (i : ℕ) (dto : UpdateWebhookDto)
      → ((w : Webhook)
          → is_refused_url env.protocol_of dto.url ≡ false
          → is_refused_secret dto.secret ≡ false
          → P w
          → P (assign dto w))
      → All P (update env i dto s).1.webhooks
  unfolding update find_one
  update_keeps i dto keeps = elim (Option-cases (find_by_id i s.webhooks)) [
    | inl e ↦ ground arith
    | inr (w, e) ↦
        let there : P w = find-All P i s.webhooks h e in
        elim (Bool-cases (is_refused_url env.protocol_of dto.url)) [
          | inl u ↦ ground arith
          | inr u ↦ elim (Bool-cases (is_refused_secret dto.secret)) [
            | inl t ↦ ground arith
            | inr t ↦ ground (arith, store_keeps (assign dto w) (keeps w u t there))
          ]
        ]
  ]

  remove_keeps : (i : ℕ) → All P (remove env i s).1.webhooks
  unfolding remove find_one
  remove_keeps i = elim (Option-cases (find_by_id i s.webhooks)) [
    | inl e ↦ ground arith
    | inr (w, e) ↦ ground (arith, All-select P (λ v. not (v.id == w.id)) s.webhooks h)
  ]

-- If every webhook's secret is strong and its address one of the web, or empty, so they are after any
-- call of the service, whether or not it goes through. The secrets that are drawn must be strong.
pub perform-IsGuarded :
    (env : Env) (c : Call) (s : Store)
    → IsStrong env.new_secret
    → All (IsGuarded env.protocol_of) s.webhooks
    → All (IsGuarded env.protocol_of) (perform env c s).webhooks
unfolding perform new_webhook increment_failure_count reset_failure_count update_last_triggered
    count_failure
perform-IsGuarded env (Call.subscribe dto) s strong h =
    create_keeps env (IsGuarded env.protocol_of) s h dto
      (λ user valid. record { secret = strong; address = inl valid })
perform-IsGuarded env (Call.revise i dto) s strong h =
    update_keeps env (IsGuarded env.protocol_of) s h i dto (λ w. assign-IsGuarded env dto w)
perform-IsGuarded env (Call.unsubscribe i) s strong h =
    remove_keeps env (IsGuarded env.protocol_of) s h i
perform-IsGuarded env (Call.increment i) s strong h =
    change_keeps env (IsGuarded env.protocol_of) s h i count_failure
      (λ w g. record { secret = g.secret; address = g.address })
perform-IsGuarded env (Call.reset i) s strong h =
    change_keeps env (IsGuarded env.protocol_of) s h i (λ w. record w { failure_count = 0 })
      (λ w g. record { secret = g.secret; address = g.address })
perform-IsGuarded env (Call.touch i) s strong h =
    change_keeps env (IsGuarded env.protocol_of) s h i
      (λ w. record w { last_triggered_at = some env.now })
      (λ w g. record { secret = g.secret; address = g.address })
