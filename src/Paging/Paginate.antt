-- ===== src/Paging/Paginate.antt =====
-- backend/src/common/pagination/paginate.helper.ts.
use stellar_split.Prelude.{
  ℕ, ◌+◌, ◌*◌, ◌/◌, Bool, ◌&&◌, ◌||◌, Option, none, some, List, [], ◌∷◌, ltb, ◌==◌, if◌then◌else◌,
  length, take, select,
}
use stellar_split.Entities.{Text}

-- An entity: the creation time of the column, in microseconds, and the identifier, which the database
-- orders.
pub record Stamped {ℓ} (A : Type ℓ) : Type ℓ where
  pub created_at : A → ℕ
  pub id : A → ℕ

-- The time is a `Date`, in milliseconds.
pub record CursorPayload : Type 0 where
  pub created_at : ℕ
  pub id : ℕ

-- What `JSON.parse` finds: a property may be missing.
pub record ParsedPayload : Type 0 where
  pub created_at : Option ℕ
  pub id : Option ℕ

-- A payload as JSON in base64url and back, by Node's `Buffer` and `JSON`; none is a throw.
pub record Codec : Type 0 where
  pub stringify : CursorPayload → Text
  pub parse : Text → Option ParsedPayload

pub record PaginatedResponse {ℓ} (A : Type ℓ) : Type ℓ where
  pub page_data : List A
  pub next_cursor : Option Text
  pub has_more : Bool

module _ {ℓ} {A : Type ℓ} ⦃st : Stamped A⦄ where
  -- The driver makes a `Date` of the column, and so drops the microseconds.
  abbrev pub date_of : A → ℕ
  date_of a = st.created_at a / 1000

  unfoldable pub encode_cursor : Codec → A → Text
  encode_cursor codec a = codec.stringify (record { created_at = date_of a; id = st.id a })

unfoldable pub decode_cursor : Codec → Option Text → Option CursorPayload
decode_cursor codec none = none
decode_cursor codec (some []) = none
decode_cursor codec (some (c ∷ cs)) = elim (codec.parse (c ∷ cs)) [
  | none ↦ none
  | some p ↦ elim p.created_at [
    | none ↦ none
    | some t ↦ elim p.id [ none ↦ none | some i ↦ some (record { created_at = t; id = i }) ]
  ]
]

module _ {ℓ} {A : Type ℓ} ⦃st : Stamped A⦄ where
  -- The cursor's condition.
  abbrev pub is_after : CursorPayload → A → Bool
  is_after c a =
      ltb (c.created_at * 1000) (st.created_at a)
      || (c.created_at * 1000 == st.created_at a) && ltb c.id (st.id a)

  -- `ORDER BY createdAt ASC, id ASC`.
  abbrev pub is_before : A → A → Bool
  is_before a b =
      ltb (st.created_at a) (st.created_at b)
      || (st.created_at a == st.created_at b) && ltb (st.id a) (st.id b)

  unfoldable pub insert_row : A → List A → List A
  insert_row a [] = a ∷ []
  insert_row a (b ∷ bs) = if is_before b a then b ∷ insert_row a bs else a ∷ b ∷ bs

  unfoldable pub order_rows : List A → List A
  order_rows [] = []
  order_rows (a ∷ rest) = insert_row a (order_rows rest)

  -- `data[data.length - 1]`.
  unfoldable pub last_item : List A → Option A
  last_item [] = none
  last_item (a ∷ []) = some a
  last_item (a ∷ b ∷ bs) = last_item (b ∷ bs)

  unfoldable pub after_cursor : Option CursorPayload → List A → List A
  after_cursor none rows = rows
  after_cursor (some c) rows = select (is_after c) rows

  -- The rows are those of the query that is given; `limit` has been checked.
  unfoldable pub paginate : Codec → List A → Option Text → ℕ → PaginatedResponse A
  unfolding encode_cursor decode_cursor after_cursor last_item order_rows
  paginate codec rows cursor limit =
      let fetched =
        take (limit + 1) (order_rows (after_cursor (decode_cursor codec cursor) rows)) in
      let more = ltb limit (length fetched) in
      let page = if more then take limit fetched else fetched in
      record {
        page_data = page;
        next_cursor = elim (last_item page) [
          | none ↦ none
          | some a ↦ if more then some (encode_cursor codec a) else none
        ];
        has_more = more;
      }
