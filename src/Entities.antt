-- ===== src/Entities.antt =====
-- Rows that several services share (backend/src/entities).
use Prim.Native.Char.{code}
use Prim.Native.String.{String}
use stellar_split.Prelude.{
  ℕ, ◌≡◌, refl, Bool, true, false, Option, List, [], ◌∷◌, arith, leb, ◌==◌, ◌&&◌, ◌||◌,
  if◌then◌else◌, Keyed,
}

-- UTF-16 code units.
abbrev pub Text : Type 0
Text = List ℕ

pub data SplitStatus : Type 0 where
  active completed partial : SplitStatus

-- split.entity.ts: the columns that the modelled services read or write. Amounts are in the column's
-- hundredths, times in milliseconds.
pub record Split : Type 0 where
  pub id : ℕ
  pub total_amount : ℕ
  pub amount_paid : ℕ
  pub status : SplitStatus
  pub is_frozen : Bool
  pub created_at : ℕ
  pub due_date : Option ℕ
  pub expiry_date : Option ℕ

instance abbrev pub split_keyed : Keyed Split
split_keyed = record { key = λ s. s.id }

-- `===` on strings.
abbrev pub same_text : Text → Text → Bool
same_text [] [] = true
same_text [] (d ∷ ds) = false
same_text (c ∷ cs) [] = false
same_text (c ∷ cs) (d ∷ ds) = if c == d then same_text cs ds else false

pub same_text_refl : (t : Text) → same_text t t ≡ true
same_text_refl [] = refl
same_text_refl (c ∷ cs) = ground (arith, same_text_refl cs)

pub same_text→eq : (s t : Text) → same_text s t ≡ true → s ≡ t
same_text→eq [] [] e = refl
same_text→eq [] (d ∷ ds) e = cc
same_text→eq (c ∷ cs) [] e = cc
same_text→eq (c ∷ cs) (d ∷ ds) e = ground (arith, same_text→eq cs ds)

-- A string of ASCII characters as its code units.
abbrev pub codes : String → Text
codes String.[] = []
codes (String.◌∷◌ c s) = code c ∷ codes s

-- White space, as `trim` takes it off.
abbrev pub is_space : ℕ → Bool
is_space c =
    (leb 9 c && leb c 13)
    || (c == 0x20)
    || (c == 0xA0)
    || (c == 0x1680)
    || (leb 0x2000 c && leb c 0x200A)
    || (c == 0x2028)
    || (c == 0x2029)
    || (c == 0x202F)
    || (c == 0x205F)
    || (c == 0x3000)
    || (c == 0xFEFF)
