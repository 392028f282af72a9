-- ===== src/Idempotency/Once.antt =====
-- The interceptor beside a handler that is guarded by the keys alone.
use stellar_split.Prelude.{
  ℕ, ◌-◌, Bool, not, true, false, none, some, List, [], ◌∷◌, ◌++◌, ltb, ◌==◌, if◌then◌else◌, select,
  Result, ok, err, ◌≡◌, refl, inl, inr, arith, Option-cases, Bool-cases,
}
use stellar_split.Entities.{Text}
use stellar_split.Idempotency.Intercept.{
  IdempotencyRecord, Request, get_record, new_record, day_ms, clean_expired_records, recorded,
  intercept,
}

-- A request, or a round of the cleaning at a time.
pub data Event : Type 0 where
  request : Request → Event
  clean : ℕ → Event

-- The keys in use, each with the time since which it is.
abbrev pub Used : Type 0
Used = List (ℕ × ℕ)

unfoldable pub in_use : ℕ → Used → Bool
in_use k [] = false
in_use k ((key, since) ∷ used) = if key == k then true else in_use k used

unfoldable pub forget : ℕ → Used → Used
forget now used = select (λ u. not (ltb u.1 (now - day_ms))) used

unfoldable pub keys_of : List IdempotencyRecord → Used
keys_of [] = []
keys_of (r ∷ records) = (r.key, r.created_at) ∷ keys_of records

keys_of-append :
    (records : List IdempotencyRecord) (r : IdempotencyRecord)
    → keys_of (records ++ (r ∷ [])) ≡ keys_of records ++ ((r.key, r.created_at) ∷ [])
unfolding keys_of
keys_of-append [] r = refl
keys_of-append (x ∷ xs) r = simp (keys_of-append xs r)

keys_of-clean :
    (now : ℕ) (records : List IdempotencyRecord)
    → keys_of (clean_expired_records now records) ≡ forget now (keys_of records)
unfolding keys_of clean_expired_records forget
keys_of-clean now [] = refl
keys_of-clean now (r ∷ records) = elim (Bool-cases (ltb r.created_at (now - day_ms))) [
  | inl e ↦ ground (arith, keys_of-clean now records)
  | inr e ↦ ground (arith, keys_of-clean now records)
]

get_record-none :
    (k : ℕ) (records : List IdempotencyRecord)
    → get_record k records ≡ none
    → in_use k (keys_of records) ≡ false
unfolding get_record keys_of in_use
get_record-none k [] h = refl
get_record-none k (r ∷ records) h = elim (Bool-cases (r.key == k)) [
  | inl e ↦ ground arith
  | inr e ↦ ground (arith, get_record-none k records)
]

get_record-some :
    (k : ℕ) (records : List IdempotencyRecord) (r : IdempotencyRecord)
    → get_record k records ≡ some r
    → in_use k (keys_of records) ≡ true
unfolding get_record keys_of in_use
get_record-some k [] r h = ground arith
get_record-some k (x ∷ records) r h = elim (Bool-cases (x.key == k)) [
  | inl e ↦ ground arith
  | inr e ↦ ground (arith, get_record-some k records r)
]

unfoldable pub seen : {S : Type 0} → S × List IdempotencyRecord → S × Used
seen (s, records) = (s, keys_of records)

module _ {S : Type 0} (hash : Text → ℕ) (handle : Text → S → Result (ℕ × Text) × S) where
  unfoldable pub serve : Event → S × List IdempotencyRecord → S × List IdempotencyRecord
  unfolding intercept
  serve (request q) w = (intercept hash handle q w).1
  serve (clean now) (s, records) = (s, clean_expired_records now records)

  unfoldable pub serve_each : List Event → S × List IdempotencyRecord → S × List IdempotencyRecord
  serve_each [] w = w
  serve_each (e ∷ events) w = serve_each events (serve e w)

  -- A key is taken when the handler answers and its record can be saved.
  unfoldable pub claim : Request → ℕ → Used → Result (ℕ × Text) → Used
  claim q k used (err e) = used
  claim q k used (ok answer) = if q.write then used ++ ((k, q.now) ∷ []) else used

  -- A key in use keeps its request from the handler.
  unfoldable pub once : Event → S × Used → S × Used
  once (clean now) (s, used) = (s, forget now used)
  once (request q) (s, used) = elim q.idempotency_key [
    | none ↦ ((handle q.body s).1, used)
    | some k ↦
        if in_use k used
        then (s, used)
        else ((handle q.body s).1, claim q k used (handle q.body s).0)
  ]

  unfoldable pub at_most_once : List Event → S × Used → S × Used
  at_most_once [] w = w
  at_most_once (e ∷ events) w = at_most_once events (once e w)

  recorded_keys :
      (q : Request) (k : ℕ) (records : List IdempotencyRecord) (result : Result (ℕ × Text))
      → keys_of (recorded hash handle q k records result).1 ≡ claim q k (keys_of records) result
  unfolding recorded claim new_record
  recorded_keys q k records (err e) = refl
  recorded_keys q k records (ok (status, body)) =
      ground (arith, keys_of-append records (new_record q.now k (hash q.body) status body))

  served_once : (e : Event) (w : S × List IdempotencyRecord) → seen (serve e w) ≡ once e (seen w)
  unfolding serve once seen intercept
  served_once (clean now) (s, records) = ground (arith, keys_of-clean now records)
  served_once (request q) (s, records) = elim (Option-cases q.idempotency_key) [
    | inl e ↦ ground arith
    | inr (k, e) ↦ elim (Option-cases (get_record k records)) [
      | inl fresh ↦
          ground
            (arith, get_record-none k records fresh, recorded_keys q k records (handle q.body s).0)
      | inr (r, taken) ↦ ground (arith, get_record-some k records r taken)
    ]
  ]

  -- After any requests and rounds of cleaning the state of the application, and the keys recorded
  -- with their times, are those of a server that holds keys alone: a request whose key is in use does
  -- not reach the handler, any other does, and its key is in use from the time the handler answers and
  -- the record is saved until a round of cleaning more than a day later.
  pub intercept_once :
      (events : List Event) (w : S × List IdempotencyRecord)
      → seen (serve_each events w) ≡ at_most_once events (seen w)
  unfolding serve_each at_most_once
  intercept_once [] w = refl
  intercept_once (e ∷ events) w = rw (intercept_once events (serve e w), served_once e w) refl
