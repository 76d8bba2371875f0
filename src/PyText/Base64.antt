-- ===== src/PyText/Base64.antt =====
-- The base64 of Python's `base64` and `binascii`, and the padding that apps/core/audit_chain.py takes
-- off and puts back. `|` of two parts that share no bit is their sum.
pub mod Round
use multilingual_task_api.Prelude.{
  ◌≡◌, refl, ℕ, zero, suc, ◌+◌, ◌-◌, ◌*◌, ◌/◌, ◌%◌, true, false, ◌&&◌, Option, some, none, [], ◌∷◌,
  ◌++◌, map, ltb, leb, ◌==◌, if◌then◌else◌, length, replicate, Outcome, ok, err, value_error,
}
use multilingual_task_api.PyText.{Text, Bytes, strip}

-- The alphabet of `urlsafe_b64encode`.
unfoldable pub url_digit : ℕ → ℕ
url_digit v =
    if ltb v 26
    then 65 + v
    else if ltb v 52
    then 71 + v
    else if ltb v 62
    then v - 4
    else if v == 62
    then 45
    else 95

-- `urlsafe_b64encode(...).rstrip(b"=")`: what stands before the padding.
unfoldable pub urlsafe_digits : Bytes → Text
unfolding url_digit
urlsafe_digits [] = []
urlsafe_digits (a ∷ []) = url_digit (a / 4) ∷ url_digit (a % 4 * 16) ∷ []
urlsafe_digits (a ∷ b ∷ []) =
    url_digit (a / 4) ∷ url_digit (a % 4 * 16 + b / 16) ∷ url_digit (b % 16 * 4) ∷ []
urlsafe_digits (a ∷ b ∷ c ∷ rest) =
    url_digit (a / 4)
    ∷ url_digit (a % 4 * 16 + b / 16)
    ∷ url_digit (b % 16 * 4 + c / 64)
    ∷ url_digit (c % 64)
    ∷ urlsafe_digits rest

-- `(4 - n % 4) % 4` signs
unfoldable pub padding : ℕ → Text
padding n = replicate ((4 - n % 4) % 4) 61

unfoldable pub urlsafe_b64encode : Bytes → Text
unfolding urlsafe_digits padding
urlsafe_b64encode raw = let digits = urlsafe_digits raw in digits ++ padding (length digits)

-- `rstrip("=")`
unfoldable pub strip_padding : Text → Text
strip_padding [] = []
strip_padding (c ∷ t) = elim (strip_padding t) [
  | [] ↦ if c == 61 then [] else c ∷ []
  | d ∷ s ↦ c ∷ d ∷ s
]

-- The value of a digit of the standard alphabet.
unfoldable pub digit_value : ℕ → Option ℕ
digit_value c =
    if leb 65 c && leb c 90
    then some (c - 65)
    else if leb 97 c && leb c 122
    then some (c - 71)
    else if leb 48 c && leb c 57
    then some (c + 4)
    else if c == 43
    then some 62
    else if c == 47
    then some 63
    else none

unfoldable pub prepend : ℕ → Outcome Bytes → Outcome Bytes
prepend b (ok bs) = ok (b ∷ bs)
prepend b (err e) = err e

-- `binascii.a2b_base64` without strict mode, from its place in a group of four, what is left of the
-- last digit, and the padding seen: other characters are skipped, and full padding ends the text.
unfoldable pub a2b_from : ℕ → ℕ → ℕ → Text → Outcome Bytes
unfolding digit_value prepend
a2b_from quad left pads [] = if quad == 0 then ok [] else err value_error
a2b_from quad left pads (c ∷ t) = elim (c == 61) [
  | true ↦ elim (leb 2 quad) [
    | true ↦ elim (leb 4 (quad + suc pads)) [
      | true ↦ ok []
      | false ↦ a2b_from quad left (suc pads) t
    ]
    | false ↦ a2b_from quad left pads t
  ]
  | false ↦ elim (digit_value c) [
    | none ↦ a2b_from quad left pads t
    | some v ↦ elim quad [
      | zero ↦ a2b_from 1 v 0 t
      | suc zero ↦ prepend (left * 4 + v / 16) (a2b_from 2 (v % 16) 0 t)
      | suc (suc zero) ↦ prepend (left * 16 + v / 4) (a2b_from 3 (v % 4) 0 t)
      | suc (suc (suc _)) ↦ prepend (left * 64 + v) (a2b_from 0 0 0 t)
    ]
  ]
]

unfoldable pub b64decode : Text → Outcome Bytes
unfolding a2b_from
b64decode t = a2b_from 0 0 0 t

-- `urlsafe_b64decode` first replaces `-` and `_`.
unfoldable pub standard_char : ℕ → ℕ
standard_char c = if c == 45 then 43 else if c == 95 then 47 else c

unfoldable pub urlsafe_b64decode : Text → Outcome Bytes
unfolding b64decode standard_char
urlsafe_b64decode t = b64decode (map standard_char t)

unfoldable pub b64url_encode : Bytes → Text
unfolding urlsafe_b64encode strip_padding
b64url_encode raw = strip_padding (urlsafe_b64encode raw)

unfoldable pub b64url_decode : Text → Outcome Bytes
unfolding urlsafe_b64decode padding
b64url_decode encoded =
    let cleaned = strip encoded in urlsafe_b64decode (cleaned ++ padding (length cleaned))
