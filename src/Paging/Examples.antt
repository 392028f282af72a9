-- ===== src/Paging/Examples.antt =====
-- Pages of three rows, and of two rows that one millisecond has.
use stellar_split.Prelude.{ℕ, ◌≡◌, refl, Option, none, some, List, [], ◌∷◌, arith}
use stellar_split.Entities.{Text}
use stellar_split.Paging.Paginate.{
  Stamped, ParsedPayload, Codec, paginate, encode_cursor, decode_cursor, after_cursor, order_rows,
  insert_row, last_item,
}
use stellar_split.Paging.Walk.{IsFaithful, follow, follow_in_order}

record Item : Type 0 where
  at : ℕ
  number : ℕ

instance abbrev item_stamped : Stamped Item
item_stamped = record { created_at = λ x. x.at; id = λ x. x.number }

abbrev item : ℕ → ℕ → Item
item t n = record { at = t; number = n }

-- A codec as plain as can be: the two numbers of a payload.
abbrev plain : Codec
plain = record { stringify = λ c. c.created_at ∷ c.id ∷ []; parse = λ t. read t }
  where
    read : Text → Option ParsedPayload
    read (a ∷ b ∷ []) = some (record { created_at = some a; id = some b })
    read _ = none

plain-IsFaithful : IsFaithful plain
plain-IsFaithful c = ((λ e. cc), refl)

abbrev items : List Item
items = item 5000 1 ∷ item 2000 2 ∷ item 5000 3 ∷ []

follow_in_order_example : follow 4 plain items none 2 ≡ order_rows items
follow_in_order_example =
    follow_in_order plain items 2 4 plain-IsFaithful
      ((omega arith, (omega arith, tt)), ((omega arith, tt), (tt, tt))) (refl, (refl, (refl, tt)))
      (omega arith) (omega arith)

-- The cursor of a row that was made between two milliseconds lies before the row: the next page begins
-- with the row again, and with pages of one row it is the only one ever seen.
repeated_row_test :
    follow 3 plain (item 5400 1 ∷ item 5700 2 ∷ []) none 1
    ≡ item 5400 1 ∷ item 5400 1 ∷ item 5400 1 ∷ []
unfolding follow paginate encode_cursor decode_cursor after_cursor order_rows insert_row last_item
repeated_row_test = refl
