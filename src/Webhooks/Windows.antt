-- ===== src/Webhooks/Windows.antt =====
-- How many requests the fallback of the rate limit lets through in one window.
use stellar_split.Prelude.{
  ℕ, ◌+◌, ◌-◌, ◌≤◌, ◌<◌, ◌≡◌, refl, ◌⊎◌, inl, inr, true, false, ◌&&◌, none, some, List, [], ◌∷◌,
  arith, ltb, ◌==◌, if◌then◌else◌, All, count, find_by_id, save_row,
}
use stellar_split.Webhooks.Entity.{webhook_keyed, delivery_keyed, Limit, limit_keyed}
use Prim.Native.Nat.{min}
use stellar_split.Prelude.{Option-cases, Bool-cases, find-save, find-key, ==→eq, ==-refl}
use stellar_split.Webhooks.RateLimit.{check_fallback}

module _ (max_requests window_ms w : ℕ) where
  -- The requests, each of a webhook at a time, in the order in which they are checked: how many of the
  -- webhook `w` are let through.
  pub allowed : List (ℕ × ℕ) → List Limit → ℕ
  allowed [] limits = 0
  allowed ((v, t) ∷ rest) limits =
      let (within, limits') = check_fallback t v max_requests window_ms limits in
      (if (v == w) && within then 1 else 0) + allowed rest limits'

  -- Another webhook's check leaves the entry alone.
  other_limit :
      (v t : ℕ) (limits : List Limit) {l : Limit}
      → find_by_id w limits ≡ some l
      → (v == w) ≡ false
      → find_by_id w (check_fallback t v max_requests window_ms limits).1 ≡ some l
  unfolding check_fallback
  other_limit v t limits {l} e other = elim (Option-cases (find_by_id v limits)) [
    | inl new ↦
        ground (
          arith,
          find-save w (record { webhook_id = v; count = 1; reset_at = t + window_ms }) limits,
        )
    | inr (k, old) ↦ ground (
      arith,
      find-key v limits {a = k} old,
      find-save w (record { webhook_id = v; count = 1; reset_at = t + window_ms }) limits,
      find-save w (record k { count = k.count + 1 }) limits,
    )
  ]

  -- Within the window the entry counts what is let through.
  own_limit :
      (v t : ℕ) (limits : List Limit) (l : Limit)
      → find_by_id w limits ≡ some l
      → (v == w) ≡ true
      → t ≤ l.reset_at
      → let (within, limits') = check_fallback t v max_requests window_ms limits in
        let l' : Limit = record l { count = l.count + 1 } in
        (within ≡ ltb l.count max_requests)
        × (find_by_id w limits' ≡ (if ltb l.count max_requests then some l' else some l))
  unfolding check_fallback
  own_limit v t limits l e own in_time = ground (
    arith,
    ==→eq v w own,
    find-key w limits {a = l} e,
    find-save w (record l { count = l.count + 1 }) limits,
  )

  -- From an entry on, the requests of the webhook that come before its reset are let through up to the
  -- limit, and no more.
  allowed_from :
      (rest : List (ℕ × ℕ)) (limits : List Limit) (l : Limit)
      → find_by_id w limits ≡ some l
      → All (λ (r : ℕ × ℕ). ((r.0 == w) ≡ false) ⊎ (r.1 ≤ l.reset_at)) rest
      → allowed rest limits ≡ min (count (λ r. r.0 == w) rest) (max_requests - l.count)
  unfolding allowed
  allowed_from [] limits l e h = omega arith
  allowed_from ((v, t) ∷ rest) limits l e h =
      let l' : Limit = record l { count = l.count + 1 } in
      let limits' : List Limit = (check_fallback t v max_requests window_ms limits).1 in
      elim (Bool-cases (v == w)) [
        | inr other ↦
            ground (arith, allowed_from rest limits' l (other_limit v t limits {l = l} e other) h.1)
        | inl own ↦
            let in_time : t ≤ l.reset_at = ground arith in
            let (within, entry) = own_limit v t limits l e own in_time in
            elim (Bool-cases (ltb l.count max_requests)) [
              | inl room ↦
                  ground (arith, within, allowed_from rest limits' l' (rw room at entry) h.1)
              | inr full ↦
                  ground (arith, within, allowed_from rest limits' l (rw full at entry) h.1)
            ]
      ]

  -- Whether a request at a time opens a window: the webhook has no entry, or one whose window is over.
  abbrev pub Opens : ℕ → List Limit → Type 0
  Opens t limits =
      (find_by_id w limits ≡ none)
      ⊎ ((l : Limit) × (find_by_id w limits ≡ some l) × (l.reset_at < t))

  opened :
      (t : ℕ) (limits : List Limit)
      → Opens t limits
      → check_fallback t w max_requests window_ms limits
        ≡ (true, save_row (record { webhook_id = w; count = 1; reset_at = t + window_ms }) limits)
  unfolding check_fallback
  opened t limits (inl e) = ground arith
  opened t limits (inr (l, e, over)) = ground arith

  -- Of a webhook's requests from one that opens a window, the first or a later one, up to the window's end,
  -- whatever requests of other webhooks come between, exactly the first `max_requests` are let through. The
  -- limit must be positive.
  pub allowed_in_window :
      (t : ℕ) (rest : List (ℕ × ℕ)) (limits : List Limit)
      → 1 ≤ max_requests
      → Opens t limits
      → All (λ (r : ℕ × ℕ). ((r.0 == w) ≡ false) ⊎ (r.1 ≤ t + window_ms)) rest
      → allowed ((w, t) ∷ rest) limits ≡ min (1 + count (λ r. r.0 == w) rest) max_requests
  unfolding allowed
  allowed_in_window t rest limits positive opens h =
      let l : Limit = record { webhook_id = w; count = 1; reset_at = t + window_ms } in
      let first = opened t limits opens in
      rw first (
        ground (
          arith,
          ==-refl w,
          allowed_from rest (save_row l limits) l (rw (find-save, ==-refl) refl) h,
        ))
