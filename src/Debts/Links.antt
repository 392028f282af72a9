-- ===== src/Debts/Links.antt =====
-- `generateStellarPaymentLink` of backend/src/debt-simplification/debt-simplification.service.ts.
use stellar_split.Prelude.{
  ℕ, zero, suc, ◌+◌, ◌-◌, ◌*◌, ◌/◌, ◌%◌, Bool, ◌&&◌, ◌||◌, Option, none, some, List, [], ◌∷◌, ◌++◌,
  ltb, leb, ◌==◌, if◌then◌else◌,
}
use stellar_split.Prelude.Ints.{ℤ, pos, negsuc}
use stellar_split.Entities.{Text, codes, same_text}
use stellar_split.Debts.Entity.{SimplifiedDebtEdge}

-- The decimal digits of a number; `k` bounds their count less one.
unfoldable pub digits : ℕ → ℕ → Text
digits zero n = (b'0' + n % 10) ∷ []
digits (suc k) n =
    let more = digits k (n / 10) in (if ltb n 10 then [] else more) ++ ((b'0' + n % 10) ∷ [])

-- A column of ten digits and the sums over it stay far below 2 ^ 53, which has sixteen.
abbrev pub max_digits : ℕ
max_digits = 15

-- `amount.toFixed(7)` of an amount in hundredths.
unfoldable pub to_fixed_7 : ℤ → Text
unfolding digits
to_fixed_7 (pos n) =
    digits max_digits (n / 100) ++ (b'.' ∷ (b'0' + n / 10 % 10) ∷ (b'0' + n % 10) ∷ codes "00000")
to_fixed_7 (negsuc n) =
    b'-' ∷ digits max_digits (suc n / 100)
    ++ (b'.' ∷ (b'0' + suc n / 10 % 10) ∷ (b'0' + suc n % 10) ∷ codes "00000")

-- `asset.split(':')`: the parts.
unfoldable pub split_on : ℕ → Text → List Text
split_on sep [] = [] ∷ []
split_on sep (c ∷ cs) = elim (split_on sep cs) [
  | [] ↦ (c ∷ []) ∷ []
  | part ∷ parts ↦ if c == sep then [] ∷ part ∷ parts else (c ∷ part) ∷ parts
]

abbrev pub is_unreserved : ℕ → Bool
is_unreserved c =
    (leb b'a' c && leb c b'z')
    || (leb b'A' c && leb c b'Z')
    || (leb b'0' c && leb c b'9')
    || (c == b'-')
    || (c == b'_')
    || (c == b'.')
    || (c == b'!')
    || (c == b'~')
    || (c == b'*')
    || (c == 39)
    || (c == b'(')
    || (c == b')')

-- The bytes of a code point in UTF-8.
unfoldable pub utf8 : ℕ → List ℕ
utf8 c =
    if ltb c 0x80
    then c ∷ []
    else if ltb c 0x800
    then (0xC0 + c / 0x40) ∷ (0x80 + c % 0x40) ∷ []
    else if ltb c 0x10000
    then (0xE0 + c / 0x1000) ∷ (0x80 + c / 0x40 % 0x40) ∷ (0x80 + c % 0x40) ∷ []
    else (0xF0 + c / 0x40000)
      ∷ (0x80 + c / 0x1000 % 0x40)
      ∷ (0x80 + c / 0x40 % 0x40)
      ∷ (0x80 + c % 0x40)
      ∷ []

abbrev pub hex_digit : ℕ → ℕ
hex_digit d = if ltb d 10 then b'0' + d else b'A' + (d - 10)

abbrev pub percent : List ℕ → Text
percent [] = []
percent (b ∷ bs) = b'%' ∷ hex_digit (b / 16) ∷ hex_digit (b % 16) ∷ percent bs

abbrev pub is_high_surrogate : ℕ → Bool
is_high_surrogate c = leb 0xD800 c && ltb c 0xDC00

-- `encodeURIComponent`. The database holds no surrogate that stands alone.
unfoldable pub encode_uri_component : Text → Text
unfolding utf8
encode_uri_component [] = []
encode_uri_component (c ∷ []) = if is_unreserved c then c ∷ [] else percent (utf8 c)
encode_uri_component (c ∷ d ∷ cs) =
    let after_one = encode_uri_component (d ∷ cs) in
    let after_two = encode_uri_component cs in
    if is_unreserved c
    then c ∷ after_one
    else if is_high_surrogate c
    then percent (utf8 (0x10000 + (c - 0xD800) * 0x400 + (d - 0xDC00))) ++ after_two
    else percent (utf8 c) ++ after_one

-- The first two parts, when both are there and not empty.
abbrev pub code_and_issuer : List Text → Option (Text × Text)
code_and_issuer ((c ∷ cs) ∷ (i ∷ is) ∷ rest) = some (c ∷ cs, i ∷ is)
code_and_issuer _ = none

abbrev pub to_destination : Text → Text → Text
to_destination to amount = codes "stellar:" ++ to ++ codes "?amount=" ++ amount

unfoldable pub generate_stellar_payment_link : SimplifiedDebtEdge → Text
unfolding to_fixed_7 split_on encode_uri_component
generate_stellar_payment_link d =
    let amount = to_fixed_7 d.amount in
    if same_text d.asset (codes "XLM") || same_text d.asset (codes "native")
    then to_destination d.to amount ++ codes "&memo=StellarSplit&memo_type=text"
    else elim (code_and_issuer (split_on b':' d.asset)) [
      | some (asset_code, asset_issuer) ↦
          to_destination d.to amount
          ++ codes "&asset_code="
          ++ asset_code
          ++ codes "&asset_issuer="
          ++ asset_issuer
          ++ codes "&memo=StellarSplit&memo_type=text"
      | none ↦
          codes "https://stellarpay.io/pay"
          ++ codes "?destination="
          ++ d.to
          ++ codes "&amount="
          ++ amount
          ++ codes "&asset="
          ++ encode_uri_component d.asset
    ]
