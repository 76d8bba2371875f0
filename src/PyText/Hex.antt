-- ===== src/PyText/Hex.antt =====
-- `bytes.fromhex` undoes `hexdigest`, also after `strip` and `lower`.
use mathlib.Core.List.{reverse, reverse-append, reverse-reverse}
use multilingual_task_api.Prelude.{
  ℕ, ◌+◌, ◌*◌, ◌/◌, ◌%◌, ◌<◌, ◌≡◌, refl, ap, ◌∙◌, true, false, some, [], ◌∷◌, arith, All,
  All-append, All-imp, length, ◌↔◌, ==_iff, ok,
}
use multilingual_task_api.PyText.{
  Text, Bytes, is_space, lstrip, strip, lower_char, lower, is_c_space, hex_value, hex_byte, fromhex,
  hex_digit, hexdigest, text_eq,
}

abbrev pub IsByte : ℕ → Type 0
IsByte b = b < 256

-- A character of a lower-case hex text.
abbrev pub IsHexChar : ℕ → Type 0
IsHexChar c = (is_space c ≡ false) × (lower_char c ≡ c) × (is_c_space c ≡ false)

hex_digit-IsHexChar : (v : ℕ) → v < 16 → IsHexChar (hex_digit v)
unfolding hex_digit is_space lower_char is_c_space
hex_digit-IsHexChar v h = (ground arith, ground arith, ground arith)

hex_value-hex_digit : (v : ℕ) → v < 16 → hex_value (hex_digit v) ≡ some v
unfolding hex_value hex_digit
hex_value-hex_digit v h = ground arith

pub hexdigest-IsHexChar : (bs : Bytes) → All IsByte bs → All IsHexChar (hexdigest bs)
unfolding hexdigest
hexdigest-IsHexChar [] h = tt
hexdigest-IsHexChar (b ∷ bs) h = (
  hex_digit-IsHexChar (b / 16) (omega arith),
  (hex_digit-IsHexChar (b % 16) (omega arith), hexdigest-IsHexChar bs h.1),
)

pub length-hexdigest : (bs : Bytes) → length (hexdigest bs) ≡ length bs + length bs
unfolding hexdigest
length-hexdigest [] = refl
length-hexdigest (b ∷ bs) = omega (arith, length-hexdigest bs)

-- One byte in front.
fromhex-cons :
    (h l : ℕ) (t : Text) (bs : Bytes)
    → h < 16
    → l < 16
    → fromhex t ≡ ok bs
    → fromhex (hex_digit h ∷ hex_digit l ∷ t) ≡ ok ((h * 16 + l) ∷ bs)
unfolding fromhex hex_byte
fromhex-cons h l t bs p q e =
    rw ((hex_digit-IsHexChar h p).2, hex_value-hex_digit h p, hex_value-hex_digit l q, e)

pub fromhex-hexdigest : (bs : Bytes) → All IsByte bs → fromhex (hexdigest bs) ≡ ok bs
unfolding hexdigest
fromhex-hexdigest [] h = unfold fromhex in refl
fromhex-hexdigest (b ∷ bs) h =
    fromhex-cons (b / 16) (b % 16) (hexdigest bs) bs (omega arith) (omega arith)
      (fromhex-hexdigest bs h.1)
    ∙ ap (λ (v : ℕ). ok (v ∷ bs)) (omega arith)

-- A character that `strip` leaves.
abbrev pub IsInk : ℕ → Type 0
IsInk c = is_space c ≡ false

lstrip-keeps : (t : Text) → All IsInk t → lstrip t ≡ t
unfolding lstrip
lstrip-keeps [] h = refl
lstrip-keeps (c ∷ t) h = rw h.0

All-reverse : (t : Text) → All IsInk t → All IsInk (reverse t)
All-reverse [] h = tt
All-reverse (c ∷ t) h =
    rw (reverse-append (c ∷ []) t)
      (All-append IsInk (reverse t) (c ∷ []) (All-reverse t h.1) (h.0, tt))

pub strip-ink : (t : Text) → All IsInk t → strip t ≡ t
unfolding strip
strip-ink t h =
    rw (lstrip-keeps t h, lstrip-keeps (reverse t) (All-reverse t h)) (reverse-reverse t)

pub strip-keeps : (t : Text) → All IsHexChar t → strip t ≡ t
strip-keeps t h = strip-ink t (All-imp IsHexChar IsInk (λ c v. v.0) t h)

pub lower-keeps : (t : Text) → All IsHexChar t → lower t ≡ t
unfolding lower
lower-keeps [] h = refl
lower-keeps (c ∷ t) h = rw (h.0.1, lower-keeps t h.1)

text_eq_sound : (s t : Text) → text_eq s t ≡ true → s ≡ t
unfolding text_eq
text_eq_sound [] [] h = refl
text_eq_sound [] (d ∷ t) h = cc
text_eq_sound (c ∷ s) [] h = cc
text_eq_sound (c ∷ s) (d ∷ t) h = ground (arith, text_eq_sound s t)

pub text_eq_refl : (t : Text) → text_eq t t ≡ true
unfolding text_eq
text_eq_refl [] = refl
text_eq_refl (c ∷ t) = rw ((==_iff c c).1 refl) (text_eq_refl t)

pub text_eq_iff : (s t : Text) → (text_eq s t ≡ true) ↔ (s ≡ t)
text_eq_iff s t = (text_eq_sound s t, λ e. rw e (text_eq_refl t))
