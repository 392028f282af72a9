-- ===== src/Webhooks/Secrets.antt =====
-- `assertStrongWebhookSecret` of backend/src/webhooks/webhooks.service.ts.
use stellar_split.Prelude.{
  ℕ, ◌+◌, ◌≤◌, ◌≡◌, refl, Bool, true, false, not, ◌&&◌, ◌||◌, List, [], ◌∷◌, ltb, leb, ◌==◌,
  if◌then◌else◌, length, All, arith,
}
use stellar_split.Entities.{Text, same_text, codes, is_space}

abbrev pub min_client_secret_length : ℕ
min_client_secret_length = 32

abbrev pub weak_secret_deny_list : List Text
weak_secret_deny_list =
    codes "changeme"
    ∷ codes "default"
    ∷ codes "password"
    ∷ codes "secret"
    ∷ codes "test"
    ∷ codes "webhook"
    ∷ []

abbrev pub is_listed : List Text → Text → Bool
is_listed [] t = false
is_listed (w ∷ ws) t = if same_text w t then true else is_listed ws t

unfoldable pub trim_start : Text → Text
trim_start [] = []
trim_start (c ∷ cs) = if is_space c then trim_start cs else c ∷ cs

unfoldable pub trim_end : Text → Text
trim_end [] = []
trim_end (c ∷ cs) =
    let rest = trim_end cs in
    if is_space c then (elim rest [ [] ↦ [] | x ∷ xs ↦ c ∷ x ∷ xs ]) else c ∷ rest

-- The capital letters and the Kelvin sign; no other character's lower case is a letter of the deny list.
unfoldable pub lower : Text → Text
lower [] = []
lower (c ∷ cs) =
    (if leb 65 c && leb c 90 then c + 32 else if c == 0x212A then 107 else c) ∷ lower cs

unfoldable pub normalized_secret : Text → Text
unfolding trim_start trim_end lower
normalized_secret t = lower (trim_end (trim_start t))

-- The characters that `.` leaves out.
abbrev pub is_line_end : ℕ → Bool
is_line_end c = c == 10 || c == 13 || c == 0x2028 || c == 0x2029

abbrev pub each_is : ℕ → Text → Bool
each_is c [] = true
each_is c (d ∷ ds) = d == c && each_is c ds

-- `/^(.)\1+$/`.
unfoldable pub is_repeated : Text → Bool
is_repeated [] = false
is_repeated (c ∷ []) = false
is_repeated (c ∷ d ∷ ds) = not (is_line_end c) && each_is c (d ∷ ds)

-- That `assertStrongWebhookSecret` does not throw.
unfoldable pub is_strong_secret : Text → Bool
unfolding is_repeated normalized_secret
is_strong_secret t = not (
    ltb (length t) min_client_secret_length
    || is_repeated t
    || is_listed weak_secret_deny_list (normalized_secret t))

-- 32 characters at least, not all the same, and no word of the deny list in spaces. Line ends are the
-- exception: nothing keeps 32 of one of them away.
pub record IsStrong (t : Text) : Type 0 where
  pub long : 32 ≤ length t
  pub mixed : (c : ℕ) → is_line_end c ≡ false → ¬ All (λ d. d ≡ c) t
  pub unlisted : is_listed weak_secret_deny_list (normalized_secret t) ≡ false

each_is-All : (c x : ℕ) (t : Text) → x ≡ c → All (λ d. d ≡ c) t → each_is x t ≡ true
each_is-All c x [] e h = refl
each_is-All c x (d ∷ ds) e h = ground (arith, each_is-All c x ds e h.1)

is_repeated-All :
    (c : ℕ) (t : Text)
    → is_line_end c ≡ false
    → All (λ d. d ≡ c) t
    → 2 ≤ length t
    → is_repeated t ≡ true
unfolding is_repeated
is_repeated-All c [] e h long = ground arith
is_repeated-All c (d ∷ []) e h long = ground arith
is_repeated-All c (d ∷ d' ∷ ds) e h long =
    let dotted : is_line_end d ≡ false = rw h.0 e in
    rw (dotted, each_is-All c d (d' ∷ ds) h.0 h.1) refl

none_of_three : (a b c : Bool) → not (a || b || c) ≡ true → (a ≡ false) × (b ≡ false) × (c ≡ false)
none_of_three a b c h = ground arith

pub is_strong_secret-IsStrong : (t : Text) → is_strong_secret t ≡ true → IsStrong t
unfolding is_strong_secret
is_strong_secret-IsStrong t h =
    let (long, mixed, unlisted) =
      none_of_three (ltb (length t) min_client_secret_length) (is_repeated t)
        (is_listed weak_secret_deny_list (normalized_secret t)) h in
    let enough : 32 ≤ length t = ground arith in
    record {
      long = enough;
      mixed = λ c e same. let r = is_repeated-All c t e same (omega (arith, enough)) in cc;
      unlisted = unlisted;
    }
