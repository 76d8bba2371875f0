-- ===== src/PyText/Base64/Round.antt =====
-- Decoding undoes encoding, for the unpadded base64 of apps/core/audit_chain.py.
use multilingual_task_api.Prelude.{
  ℕ, zero, suc, ◌+◌, ◌*◌, ◌/◌, ◌%◌, ◌<◌, ◌≡◌, refl, ap, ◌∙◌, false, some, [], ◌∷◌, ◌++◌, map, arith,
  ◌==◌, length, All, All-imp, ok, replicate,
}
use multilingual_task_api.PyText.{Text, Bytes, is_space, text_eq}
use multilingual_task_api.PyText.Hex.{IsByte, IsInk, strip-ink}
use multilingual_task_api.PyText.Base64.{
  url_digit, urlsafe_digits, padding, urlsafe_b64encode, strip_padding, digit_value, prepend,
  a2b_from, b64decode, standard_char, urlsafe_b64decode, b64url_encode, b64url_decode,
}

-- A digit of the alphabet.
abbrev IsDigit : ℕ → Type 0
IsDigit c = (is_space c ≡ false) × ((c == 61) ≡ false)

url_digit-IsDigit : (v : ℕ) → v < 64 → IsDigit (url_digit v)
unfolding url_digit is_space
url_digit-IsDigit v h = (ground arith, ground arith)

value_of_digit : (v : ℕ) → v < 64 → digit_value (standard_char (url_digit v)) ≡ some v
unfolding digit_value standard_char url_digit
value_of_digit v h = ground arith

digit_is_no_padding : (v : ℕ) → v < 64 → (standard_char (url_digit v) == 61) ≡ false
unfolding standard_char url_digit
digit_is_no_padding v h = ground arith

digits-IsDigit : (bs : Bytes) → All IsByte bs → All IsDigit (urlsafe_digits bs)
unfolding urlsafe_digits
digits-IsDigit [] h = tt
digits-IsDigit (a ∷ []) h = (
  url_digit-IsDigit (a / 4) (omega (arith, h.0)),
  (url_digit-IsDigit (a % 4 * 16) (omega (arith, h.0)), tt),
)
digits-IsDigit (a ∷ b ∷ []) h = (
  url_digit-IsDigit (a / 4) (omega (arith, h.0)),
  (
    url_digit-IsDigit (a % 4 * 16 + b / 16) (omega (arith, h.0, h.1.0)),
    (url_digit-IsDigit (b % 16 * 4) (omega (arith, h.1.0)), tt),
  ),
)
digits-IsDigit (a ∷ b ∷ c ∷ bs) h = (
  url_digit-IsDigit (a / 4) (omega (arith, h.0)),
  (
    url_digit-IsDigit (a % 4 * 16 + b / 16) (omega (arith, h.0, h.1.0)),
    (
      url_digit-IsDigit (b % 16 * 4 + c / 64) (omega (arith, h.1.0, h.1.1.0)),
      (url_digit-IsDigit (c % 64) (omega (arith, h.1.1.0)), digits-IsDigit bs h.1.1.1),
    ),
  ),
)

first_digit :
    (v left pads : ℕ) (t : Text)
    → v < 64
    → a2b_from 0 left pads (standard_char (url_digit v) ∷ t) ≡ a2b_from 1 v 0 t
unfolding a2b_from
first_digit v left pads t h = rw (a2b_from, digit_is_no_padding v h, value_of_digit v h)

second_digit :
    (v left pads : ℕ) (t : Text)
    → v < 64
    → a2b_from 1 left pads (standard_char (url_digit v) ∷ t)
      ≡ prepend (left * 4 + v / 16) (a2b_from 2 (v % 16) 0 t)
unfolding a2b_from
second_digit v left pads t h = rw (a2b_from, digit_is_no_padding v h, value_of_digit v h)

third_digit :
    (v left pads : ℕ) (t : Text)
    → v < 64
    → a2b_from 2 left pads (standard_char (url_digit v) ∷ t)
      ≡ prepend (left * 16 + v / 4) (a2b_from 3 (v % 4) 0 t)
unfolding a2b_from
third_digit v left pads t h = rw (a2b_from, digit_is_no_padding v h, value_of_digit v h)

fourth_digit :
    (v left pads : ℕ) (t : Text)
    → v < 64
    → a2b_from 3 left pads (standard_char (url_digit v) ∷ t)
      ≡ prepend (left * 64 + v) (a2b_from 0 0 0 t)
unfolding a2b_from
fourth_digit v left pads t h = rw (a2b_from, digit_is_no_padding v h, value_of_digit v h)

pads : ℕ → Text
pads n = map standard_char (padding n)

pads-more : (n : ℕ) → pads (suc (suc (suc (suc n)))) ≡ pads n
unfolding pads padding
pads-more n = ap (λ (k : ℕ). map standard_char (replicate k 61)) (omega arith)

-- The loop from the start of a group.
decode-digits :
    (bs : Bytes)
    → All IsByte bs
    → a2b_from 0 0 0 (map standard_char (urlsafe_digits bs) ++ pads (length (urlsafe_digits bs)))
      ≡ ok bs
unfolding urlsafe_digits prepend
decode-digits [] h = unfold pads padding a2b_from in refl
decode-digits (a ∷ []) h =
    first_digit (a / 4) 0 0 _ (omega (arith, h.0))
    ∙ second_digit (a % 4 * 16) (a / 4) 0 _ (omega arith)
    ∙ unfold pads padding a2b_from prepend standard_char in
      ap (λ (v : ℕ). ok (v ∷ [])) (omega arith)
decode-digits (a ∷ b ∷ []) h =
    first_digit (a / 4) 0 0 _ (omega (arith, h.0))
    ∙ second_digit (a % 4 * 16 + b / 16) (a / 4) 0 _ (omega (arith, h.1.0))
    ∙ ap (prepend (a / 4 * 4 + (a % 4 * 16 + b / 16) / 16))
        (third_digit (b % 16 * 4) ((a % 4 * 16 + b / 16) % 16) 0 _ (omega arith))
    ∙ (let first : a / 4 * 4 + (a % 4 * 16 + b / 16) / 16 ≡ a = omega (arith, h.1.0) in
        let second : (a % 4 * 16 + b / 16) % 16 * 16 + b % 16 * 4 / 4 ≡ b = omega (arith, h.1.0) in
        unfold pads padding a2b_from prepend standard_char in rw (first, second))
decode-digits (a ∷ b ∷ c ∷ bs) h =
    first_digit (a / 4) 0 0 _ (omega (arith, h.0))
    ∙ second_digit (a % 4 * 16 + b / 16) (a / 4) 0 _ (omega (arith, h.1.0))
    ∙ ap (prepend (a / 4 * 4 + (a % 4 * 16 + b / 16) / 16)) (
        third_digit (b % 16 * 4 + c / 64) ((a % 4 * 16 + b / 16) % 16) 0 _ (omega (arith, h.1.1.0))
        ∙ ap (prepend ((a % 4 * 16 + b / 16) % 16 * 16 + (b % 16 * 4 + c / 64) / 4))
            (fourth_digit (c % 64) ((b % 16 * 4 + c / 64) % 4) 0 _ (omega arith)))
    ∙ (let first : a / 4 * 4 + (a % 4 * 16 + b / 16) / 16 ≡ a = omega (arith, h.1.0) in
        let second : (a % 4 * 16 + b / 16) % 16 * 16 + (b % 16 * 4 + c / 64) / 4 ≡ b =
          omega (arith, h.1.0, h.1.1.0) in
        let third : (b % 16 * 4 + c / 64) % 4 * 64 + c % 64 ≡ c = omega (arith, h.1.1.0) in
        rw (first, second, third, pads-more (length (urlsafe_digits bs)), decode-digits bs h.1.1.1))

map-append_pads :
    (t : Text) (n : ℕ) → map standard_char (t ++ padding n) ≡ map standard_char t ++ pads n
unfolding pads
map-append_pads [] n = refl
map-append_pads (c ∷ t) n = ap (λ (r : Text). standard_char c ∷ r) (map-append_pads t n)

strip_padding-replicate : (n : ℕ) → strip_padding (replicate n 61) ≡ []
unfolding strip_padding
strip_padding-replicate zero = refl
strip_padding-replicate (suc n) = rw (strip_padding, strip_padding-replicate n)

strip_padding-append : (t : Text) (n : ℕ) → All IsDigit t → strip_padding (t ++ replicate n 61) ≡ t
unfolding strip_padding
strip_padding-append [] n h = strip_padding-replicate n
strip_padding-append (c ∷ []) n h = rw (strip_padding, strip_padding-replicate n, h.0.1)
strip_padding-append (c ∷ d ∷ t) n h = rw (strip_padding, strip_padding-append (d ∷ t) n h.1)

encode-eq-digits : (raw : Bytes) → All IsByte raw → b64url_encode raw ≡ urlsafe_digits raw
unfolding b64url_encode urlsafe_b64encode padding
encode-eq-digits raw h = strip_padding-append (urlsafe_digits raw) _ (digits-IsDigit raw h)

-- What `_b64url_encode` writes for bytes, `_b64url_decode` reads back.
pub decode-encode : (raw : Bytes) → All IsByte raw → b64url_decode (b64url_encode raw) ≡ ok raw
unfolding b64url_decode urlsafe_b64decode b64decode
decode-encode raw h =
    let digits = urlsafe_digits raw in
    let kept =
      strip-ink digits (All-imp IsDigit IsInk (λ c d. d.0) digits (digits-IsDigit raw h)) in
    rw (encode-eq-digits raw h, kept, map-append_pads digits (length digits)) (decode-digits raw h)

pub encode-ne-empty :
    (b : ℕ) (bs : Bytes) → All IsByte (b ∷ bs) → text_eq (b64url_encode (b ∷ bs)) [] ≡ false
unfolding urlsafe_digits text_eq
encode-ne-empty a [] h = rw (encode-eq-digits (a ∷ []) h)
encode-ne-empty a (b ∷ []) h = rw (encode-eq-digits (a ∷ b ∷ []) h)
encode-ne-empty a (b ∷ c ∷ bs) h = rw (encode-eq-digits (a ∷ b ∷ c ∷ bs) h)
