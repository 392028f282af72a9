-- ===== src/Paging/Walk.antt =====
-- All pages, from the first on.
use stellar_split.Prelude.{
  ℕ, zero, suc, ◌+◌, ◌%◌, ◌≤◌, ◌<◌, ◌≡◌, ◌≢◌, refl, sym, ◌∙◌, ap, inl, inr, Bool, true, false,
  Option, none, some, List, [], ◌∷◌, ◌++◌, arith, ltb, ltb→lt, length, take, drop, length-drop,
  length-take, take-append-drop, take_short, take_of_longer, select, All, All-map, Bool-cases,
  Option-cases,
}
use mathlib.Core.List.{append_assoc, append-nil}
use stellar_split.Entities.{Text}
use stellar_split.Paging.Paginate.{
  Stamped, CursorPayload, Codec, date_of, encode_cursor, decode_cursor, is_after, is_before,
  order_rows, last_item, after_cursor, paginate,
}
use stellar_split.Paging.Order.{
  IsSorted, HasDistinctIds, order_rows-IsSorted, order_rows-select, order_rows-All,
  length-order_rows,
}

-- What Node documents of `JSON` and `Buffer`: a payload comes back, and its text is not empty.
abbrev pub IsFaithful : Codec → Type 0
IsFaithful codec =
    (c : CursorPayload)
    → (codec.stringify c ≢ [])
      × (codec.parse (codec.stringify c)
          ≡ some (record { created_at = some c.created_at; id = some c.id }))

module _ {ℓ} {A : Type ℓ} ⦃st : Stamped A⦄ where
  -- The rows of the pages, following each page's cursor to the next, for a number of pages.
  unfoldable pub follow : ℕ → Codec → List A → Option Text → ℕ → List A
  follow zero codec rows cursor limit = []
  follow (suc pages) codec rows cursor limit =
      let page = paginate codec rows cursor limit in
      page.page_data
      ++ elim page.next_cursor [ none ↦ [] | some c ↦ follow pages codec rows (some c) limit ]

  abbrev payload_of : A → CursorPayload
  payload_of a = record { created_at = date_of a; id = st.id a }

  encode-decode :
      (codec : Codec) (a : A)
      → IsFaithful codec
      → decode_cursor codec (some (encode_cursor codec a)) ≡ some (payload_of a)
  unfolding encode_cursor decode_cursor
  encode-decode codec a faithful = go _ (faithful (payload_of a)).0 (faithful (payload_of a)).1
    where
      go :
          (t : Text)
          → t ≢ []
          → codec.parse t ≡ some (record { created_at = some (date_of a); id = some (st.id a) })
          → decode_cursor codec (some t) ≡ some (payload_of a)
      go [] full parsed = absurd (full refl)
      go (c ∷ cs) full parsed = rw (decode_cursor, parsed) refl

  -- The last row of a page that is not the last page.
  page_end :
      (n : ℕ) (rows : List A)
      → suc n < length rows
      → (before : List A) × (last : A) × (last_item (take (suc n) rows) ≡ some last)
        × (rows ≡ before ++ (last ∷ drop (suc n) rows))
  unfolding last_item
  page_end zero [] h = absurd (omega arith)
  page_end zero (a ∷ rest) h = ([], a, refl, refl)
  page_end (suc n) [] h = absurd (omega arith)
  page_end (suc n) (a ∷ []) h = absurd (omega arith)
  page_end (suc n) (a ∷ b ∷ rest) h =
      let (before, last, found, parts) = page_end n (b ∷ rest) (omega arith) in
      (a ∷ before, last, found, ap (◌∷◌ a) parts)

  -- A time that a `Date` holds exactly.
  abbrev pub IsWholeMs : A → Type 0
  IsWholeMs a = st.created_at a % 1000 ≡ 0

  select_none : (p : A → Bool) (rows : List A) → All (λ a. p a ≡ true) rows → select p rows ≡ rows
  select_none p [] h = refl
  select_none p (a ∷ rest) h = rw (h.0, select_none p rest h.1) refl

  All-middle {κ} :
      (P : A → Type κ) (before : List A) (a : A) (rest : List A)
      → All P (before ++ (a ∷ rest))
      → P a
  All-middle P [] a rest h = h.0
  All-middle P (b ∷ before) a rest h = All-middle P before a rest h.1

  -- After the cursor of a row come the rows behind it.
  select-is_after :
      (before : List A) (last : A) (rest : List A)
      → IsSorted (before ++ (last ∷ rest))
      → All IsWholeMs (before ++ (last ∷ rest))
      → select (is_after (payload_of last)) (before ++ (last ∷ rest)) ≡ rest
  select-is_after [] last rest (first, s) (whole, _) =
      let self : is_after (payload_of last) last ≡ false = ground arith in
      rw self (select_none _ rest (All-map _ _ rest (λ b h. ground arith) first))
  select-is_after (a ∷ before) last rest (first, s) (whole, wholes) =
      let earlier : is_before a last ≡ true = All-middle _ before last rest first in
      let exact : IsWholeMs last = All-middle _ before last rest wholes in
      let behind : is_after (payload_of last) a ≡ false = ground arith in
      rw behind (select-is_after before last rest s wholes)

  -- What is left when a page that ends with `last` has been read.
  resume :
      (codec : Codec) (rows before : List A) (last : A) (rest : List A)
      → IsFaithful codec
      → HasDistinctIds rows
      → All IsWholeMs rows
      → order_rows rows ≡ before ++ (last ∷ rest)
      → order_rows (after_cursor (decode_cursor codec (some (encode_cursor codec last))) rows)
        ≡ rest
  unfolding after_cursor
  resume codec rows before last rest faithful distinct whole all =
      let sorted = rw all at (order_rows-IsSorted rows distinct) in
      let wholes = rw all at (order_rows-All IsWholeMs rows whole) in
      let step =
        order_rows-select (is_after (payload_of last)) rows distinct
        ∙ ap (select (is_after (payload_of last))) all
        ∙ select-is_after before last rest sorted wholes in
      rw (encode-decode codec last faithful, after_cursor) step

  module _ (codec : Codec) (rows : List A) (cursor : Option Text) (limit : ℕ) (rest : List A)
      (here : order_rows (after_cursor (decode_cursor codec cursor) rows) ≡ rest) where
    paginate_last :
        length rest ≤ limit
        → paginate codec rows cursor limit
          ≡ record { page_data = rest; next_cursor = none; has_more = false }
    unfolding paginate
    paginate_last short =
        let all_there = take_short (limit + 1) rest (omega arith) in
        let no_more : ltb limit (length rest) ≡ false = ground arith in
        elim (Option-cases (last_item rest)) [
          | inl empty ↦ rw (paginate, here, all_there, no_more, empty) refl
          | inr (a, end) ↦
              rw (paginate, here, all_there, no_more, end, here, all_there, no_more) refl
        ]

    paginate_more :
        (a : A)
        → limit < length rest
        → last_item (take limit rest) ≡ some a
        → paginate codec rows cursor limit ≡ record {
          page_data = take limit rest;
          next_cursor = some (encode_cursor codec a);
          has_more = true;
        }
    unfolding paginate
    paginate_more a long found =
        let one_more : ltb limit (length (take (limit + 1) rest)) ≡ true =
          ground (arith, length-take (limit + 1) rest) in
        let page : take limit (take (limit + 1) rest) ≡ take limit rest =
          let size : suc limit ≡ limit + 1 = omega arith in
          rw (← size) (take_of_longer limit rest) in
        rw (paginate, here, one_more, page, found, here, one_more) refl

  -- The rows from a cursor on, where `seen` are those before it.
  follow_from :
      (pages : ℕ) (codec : Codec) (rows : List A) (cursor : Option Text) (limit : ℕ)
      (seen rest : List A)
      → IsFaithful codec
      → HasDistinctIds rows
      → All IsWholeMs rows
      → order_rows rows ≡ seen ++ rest
      → order_rows (after_cursor (decode_cursor codec cursor) rows) ≡ rest
      → length rest < pages
      → follow pages codec rows cursor (suc limit) ≡ rest
  unfolding follow
  follow_from zero codec rows cursor limit seen rest faithful distinct whole all here short =
      absurd (omega arith)
  follow_from (suc pages) codec rows cursor limit seen rest faithful distinct whole all here short =
      elim (Bool-cases (ltb (suc limit) (length rest))) [
        | inl more ↦
            let long = ltb→lt (suc limit) (length rest) more in
            let (before, last, found, parts) = page_end limit rest long in
            let left = drop (suc limit) rest in
            let split : order_rows rows ≡ (seen ++ before) ++ (last ∷ left) =
              all ∙ ap (◌++◌ seen) parts ∙ sym (append_assoc seen before (last ∷ left)) in
            let next = resume codec rows (seen ++ before) last left faithful distinct whole split in
            let split' : order_rows rows ≡ ((seen ++ before) ++ (last ∷ [])) ++ left =
              split ∙ sym (append_assoc (seen ++ before) (last ∷ []) left) in
            let ih =
              follow_from pages codec rows (some (encode_cursor codec last)) limit
                ((seen ++ before) ++ (last ∷ [])) left faithful distinct whole split' next
                (omega (arith, length-drop (suc limit) rest)) in
            rw (follow, paginate_more codec rows cursor (suc limit) rest here last long found, ih)
              (take-append-drop (suc limit) rest)
        | inr whole_rest ↦
            rw (follow, paginate_last codec rows cursor (suc limit) rest here (ground arith))
              (append-nil rest)
      ]

  -- Following the cursors from the first page on gives every row once, in order, within one page more
  -- than there are rows, if the page has room for a row. The creation times must be whole milliseconds,
  -- the identifiers distinct, and the cursors must survive being read back.
  pub follow_in_order :
      (codec : Codec) (rows : List A) (limit pages : ℕ)
      → IsFaithful codec
      → HasDistinctIds rows
      → All IsWholeMs rows
      → 0 < limit
      → length rows < pages
      → follow pages codec rows none limit ≡ order_rows rows
  unfolding decode_cursor after_cursor
  follow_in_order codec rows zero pages faithful distinct whole room enough = absurd (omega arith)
  follow_in_order codec rows (suc limit) pages faithful distinct whole room enough =
      follow_from pages codec rows none limit [] (order_rows rows) faithful distinct whole refl refl
        (omega (arith, length-order_rows rows))
