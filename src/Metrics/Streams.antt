-- ===== src/Metrics/Streams.antt =====
-- operator<< and operator>> of std::stringstream on signed integers, in the decimal format that they
-- have by default. A stream is the text that is left in it, or none once an extraction has failed.
use dhtperf.Prelude.{
  ℕ, suc, ◌<◌, ◌≡◌, refl, ◌∙◌, [], ◌∷◌, ◌++◌, Bytes, Bool, true, false, Option, none, some, ◌==◌,
  ltb, leb, if◌then◌else◌, is_digit, decimal, scan, scan-decimal, arith, append-nil, ◌&&◌, ◌-◌,
  decimal_begins, ap, sym,
}
use dhtperf.Prelude.Int.{ℤ, pos, negsuc, minus}

unfoldable pub print_ℤ : ℤ → Bytes
print_ℤ (pos n) = decimal n
print_ℤ (negsuc n) = b'-' ∷ decimal (suc n)

-- std::isspace in the C locale.
unfoldable pub is_space : ℕ → Bool
is_space c = if c == b' ' then true else leb 9 c && leb c 13

unfoldable pub skip_spaces : Bytes → Bytes
unfolding is_space
skip_spaces [] = []
skip_spaces (c ∷ s) = if is_space c then skip_spaces s else c ∷ s

-- The digits of a number, given whether there was a minus. Without a digit the number is 0, and beyond the limit
-- it is the nearest one; both fail the stream.
unfoldable pub read_digits : ℕ → Bool → Bytes → ℤ × Option Bytes
unfolding is_digit
read_digits limit negative [] = (pos 0, none)
read_digits limit negative (c ∷ s) =
    let (n, rest) = scan 0 (c ∷ s) in
    if is_digit c
    then (if negative
        then (if leb n limit then (minus n, some rest) else (minus limit, none))
        else if ltb n limit
        then (pos n, some rest)
        else (pos (limit - 1), none))
    else (pos 0, none)

unfoldable pub read_sign : ℕ → Bytes → ℤ × Option Bytes
unfolding read_digits
read_sign limit [] = (pos 0, none)
read_sign limit (c ∷ s) =
    if c == b'-'
    then read_digits limit true s
    else if c == b'+'
    then read_digits limit false s
    else read_digits limit false (c ∷ s)

-- stream >> variable, for a signed type of values from -limit to limit - 1. A stream that has failed leaves the
-- variable as it is.
unfoldable pub extract : ℕ → ℤ → Option Bytes → ℤ × Option Bytes
unfolding read_sign skip_spaces
extract limit variable none = (variable, none)
extract limit variable (some text) = read_sign limit (skip_spaces text)

-- What a printed number is followed by: nothing, or a space.
abbrev pub Ends : Bytes → Type 0
Ends [] = Unit {0}
Ends (c ∷ s) = c ≡ b' '

abbrev pub Fits : ℕ → ℤ → Type 0
Fits limit (pos n) = n < limit
Fits limit (negsuc n) = n < limit

scan-Ends : (n : ℕ) (rest : Bytes) → Ends rest → scan n rest ≡ (n, rest)
unfolding scan is_digit
scan-Ends n [] h = refl
scan-Ends n (c ∷ rest) h = ground arith

scan_whole : (n : ℕ) (rest : Bytes) → Ends rest → scan 0 (decimal n ++ rest) ≡ (n, rest)
scan_whole n rest h = scan-decimal n rest ∙ scan-Ends n rest h

read_digits-decimal :
    (limit n : ℕ) (rest : Bytes)
    → n < limit
    → Ends rest
    → read_digits limit false (decimal n ++ rest) ≡ (pos n, some rest)
unfolding read_digits
read_digits-decimal limit n rest fits ends =
    let (c, s, begins, digit) = decimal_begins n in
    let whole : scan 0 (c ∷ s ++ rest) ≡ (n, rest) =
      ap (λ t. scan 0 (t ++ rest)) (sym begins) ∙ scan_whole n rest ends in
    let in_range : ltb n limit ≡ true = ground arith in rw (begins, whole, digit, in_range) refl

read_digits_negative :
    (limit n : ℕ) (rest : Bytes)
    → n < limit
    → Ends rest
    → read_digits limit true (decimal (suc n) ++ rest) ≡ (negsuc n, some rest)
unfolding read_digits minus
read_digits_negative limit n rest fits ends =
    let (c, s, begins, digit) = decimal_begins (suc n) in
    let whole : scan 0 (c ∷ s ++ rest) ≡ (suc n, rest) =
      ap (λ t. scan 0 (t ++ rest)) (sym begins) ∙ scan_whole (suc n) rest ends in
    let in_range : leb (suc n) limit ≡ true = ground arith in
    rw (begins, whole, digit, in_range) refl

extract_digit :
    (limit : ℕ) (v : ℤ) (c : ℕ) (s : Bytes)
    → is_digit c ≡ true
    → extract limit v (some (c ∷ s)) ≡ read_digits limit false (c ∷ s)
unfolding extract read_sign skip_spaces is_space is_digit
extract_digit limit v c s digit = ground arith

pub extract_space :
    (limit : ℕ) (v : ℤ) (s : Bytes) → extract limit v (some (b' ' ∷ s)) ≡ extract limit v (some s)
unfolding extract skip_spaces is_space
extract_space limit v s = refl

-- A number of the type is read back as it was printed, up to the space behind it or the end.
pub extract-print_ℤ :
    (limit : ℕ) (v z : ℤ) (rest : Bytes)
    → Fits limit z
    → Ends rest
    → extract limit v (some (print_ℤ z ++ rest)) ≡ (z, some rest)
unfolding print_ℤ
extract-print_ℤ limit v (pos n) rest fits ends =
    let (c, s, begins, digit) = decimal_begins n in
    ap (λ t. extract limit v (some (t ++ rest))) begins
    ∙ (extract_digit limit v c (s ++ rest) digit
        ∙ (ap (λ t. read_digits limit false (t ++ rest)) (sym begins)
            ∙ read_digits-decimal limit n rest fits ends))
extract-print_ℤ limit v (negsuc n) rest fits ends =
    unfold extract skip_spaces is_space read_sign in read_digits_negative limit n rest fits ends

pub extract_last :
    (limit : ℕ) (v z : ℤ) → Fits limit z → extract limit v (some (b' ' ∷ print_ℤ z)) ≡ (z, some [])
extract_last limit v z fits =
    extract_space limit v (print_ℤ z)
    ∙ (ap (λ t. extract limit v (some t)) (sym (append-nil (print_ℤ z)))
        ∙ extract-print_ℤ limit v z [] fits tt)
