-- ===== src/PyText.antt =====
-- Python's `str` and `bytes`, as far as the repository's digest code uses them: `strip`, `lower`,
-- `upper`, `startswith`, `in`, `bytes.fromhex` and `hexdigest`. A text is the list of its code points, and all texts are ASCII.
pub mod Hex
pub mod Base64
use multilingual_task_api.Prelude.{
  ℕ, ◌+◌, ◌-◌, ◌*◌, ◌/◌, ◌%◌, ◌<◌, Bool, true, false, ◌&&◌, ◌||◌, Option, none, some, List, [], ◌∷◌,
  map, ltb, leb, ◌==◌, if◌then◌else◌, Outcome, ok, err, value_error,
}
use mathlib.Core.List.{reverse}
use Prim.Native.Char.{code}
use Prim.Native.String.{String}
use Prim.Native.String

abbrev pub Text : Type 0
Text = List ℕ

abbrev pub Bytes : Type 0
Bytes = List ℕ

-- The code points of a literal.
abbrev pub codes : String → Text
codes String.[] = []
codes (String.◌∷◌ c s) = code c ∷ codes s

-- `str.isspace` on ASCII: tab to carriage return, the four separators, and the space.
unfoldable pub is_space : ℕ → Bool
is_space c = (leb 9 c && leb c 13) || (leb 28 c && leb c 32)

unfoldable pub lstrip : Text → Text
lstrip [] = []
lstrip (c ∷ t) = let rest = lstrip t in if is_space c then rest else c ∷ t

unfoldable pub strip : Text → Text
unfolding lstrip is_space
strip t = reverse (lstrip (reverse (lstrip t)))

unfoldable pub lower_char : ℕ → ℕ
lower_char c = if leb 65 c && leb c 90 then c + 32 else c

unfoldable pub lower : Text → Text
unfolding lower_char
lower t = map lower_char t

unfoldable pub upper_char : ℕ → ℕ
upper_char c = if leb 97 c && leb c 122 then c - 32 else c

unfoldable pub upper : Text → Text
unfolding upper_char
upper t = map upper_char t

-- `bytes.fromhex` steps over the whitespace of C's `isspace` between two bytes.
unfoldable pub is_c_space : ℕ → Bool
is_c_space c = (leb 9 c && leb c 13) || c == 32

unfoldable pub hex_value : ℕ → Option ℕ
hex_value c =
    if leb 48 c && leb c 57
    then some (c - 48)
    else if leb 97 c && leb c 102
    then some (c - 87)
    else if leb 65 c && leb c 70
    then some (c - 55)
    else none

hex_byte : Option ℕ → Option ℕ → Outcome Bytes → Outcome Bytes
hex_byte (some h) (some l) (ok bs) = ok ((h * 16 + l) ∷ bs)
hex_byte (some h) (some l) (err e) = err e
hex_byte _ _ _ = err value_error

unfoldable pub fromhex : Text → Outcome Bytes
unfolding is_c_space hex_value hex_byte
fromhex [] = ok []
fromhex (c ∷ []) = if is_c_space c then ok [] else err value_error
fromhex (c ∷ d ∷ t) =
    let skip = fromhex (d ∷ t) in
    let rest = fromhex t in if is_c_space c then skip else hex_byte (hex_value c) (hex_value d) rest

unfoldable pub hex_digit : ℕ → ℕ
hex_digit v = if ltb v 10 then 48 + v else 87 + v

unfoldable pub hexdigest : Bytes → Text
unfolding hex_digit
hexdigest [] = []
hexdigest (b ∷ bs) = hex_digit (b / 16) ∷ hex_digit (b % 16) ∷ hexdigest bs

-- `==` on texts, as `hmac.compare_digest` decides it.
unfoldable pub text_eq : Text → Text → Bool
text_eq [] [] = true
text_eq (c ∷ s) (d ∷ t) = c == d && text_eq s t
text_eq _ _ = false

-- `<=` on texts.
unfoldable pub text_leb : Text → Text → Bool
text_leb [] t = true
text_leb (c ∷ s) [] = false
text_leb (c ∷ s) (d ∷ t) = ltb c d || (c == d && text_leb s t)

unfoldable pub starts_with : Text → Text → Bool
starts_with t [] = true
starts_with [] (c ∷ p) = false
starts_with (d ∷ t) (c ∷ p) = d == c && starts_with t p

-- `part in text`
unfoldable pub contains : Text → Text → Bool
unfolding starts_with
contains part [] = starts_with [] part
contains part (c ∷ t) = starts_with (c ∷ t) part || contains part t
