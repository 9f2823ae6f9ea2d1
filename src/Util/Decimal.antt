-- ===== src/Util/Decimal.antt =====
-- The decimal texts of the standard library that app/ and telemetry/ use: `std::to_string` and
-- `std::stoi`. `to_string` runs on fuel n + 1: a number that is not zero loses a digit in a round, and
-- so at least one.
use minerby.Base.{
  ℕ, zero, suc, ◌+◌, ◌-◌, ◌*◌, ◌/◌, ◌%◌, ◌^◌, ◌<◌, ltb, leb, ◌==◌, ℤ, pos, negsuc, Bytes, [], ◌∷◌,
  All, Lacks, Bool, true, false, ◌&&◌, ◌||◌, Result, ok, err, bad_digit, out_of_range, require,
  ◌>>=◌, ◌>>◌, ◌≡◌, refl, arith, if◌then◌else◌, if_either,
}

-- The last digit of `n` goes in front of what is written.
unfoldable pub digits : ℕ → ℕ → Bytes → Bytes
digits zero n out = out
digits (suc fuel) n out =
    let longer = digits fuel (n / 10) ((b'0' + n % 10) ∷ out) in
    if n / 10 == 0 then (b'0' + n % 10) ∷ out else longer

-- `std::to_string`
unfoldable pub to_string : ℕ → Bytes
to_string n = digits (suc n) n []

abbrev pub is_digit : ℕ → Bool
is_digit c = leb b'0' c && leb c b'9'

-- The digits at the head of a text, after those that make `n`.
unfoldable pub number_from : ℕ → Bytes → ℕ
number_from n [] = n
number_from n (c ∷ s) =
    let more = number_from (n * 10 + (c - b'0')) s in if is_digit c then more else n

-- A number without a sign; `std::invalid_argument` where there is no digit.
unfoldable pub unsigned_number : Bytes → Result ℕ
unsigned_number [] = err bad_digit
unsigned_number (c ∷ s) = if is_digit c then ok (number_from 0 (c ∷ s)) else err bad_digit

abbrev pub negate : ℕ → ℤ
negate zero = pos 0
negate (suc n) = negsuc n

-- `std::isspace`
abbrev pub is_space : ℕ → Bool
is_space c = c == b' ' || (leb 9 c && leb c 13)

unfoldable pub skip_spaces : Bytes → Bytes
skip_spaces [] = []
skip_spaces (c ∷ s) = let rest = skip_spaces s in if is_space c then rest else c ∷ s

unfoldable pub signed_number : Bytes → Result ℤ
signed_number [] = err bad_digit
signed_number (c ∷ s) =
    if c == b'-'
    then (unsigned_number s >>= λ n. require (leb n (2 ^ 31)) out_of_range >> ok (negate n))
    else (unsigned_number (if c == b'+' then s else c ∷ s) >>= λ n.
        require (ltb n (2 ^ 31)) out_of_range >> ok (pos n))

-- `std::stoi`, with an `int` of 32 bits.
unfoldable pub stoi : Bytes → Result ℤ
stoi s = signed_number (skip_spaces s)

digits_read :
    (fuel n : ℕ) (out : Bytes) → n < fuel → number_from 0 (digits fuel n out) ≡ number_from n out
unfolding digits number_from
digits_read zero n out h = absurd (omega arith)
digits_read (suc fuel) n out h = ground (arith, digits_read fuel (n / 10) ((b'0' + n % 10) ∷ out))

-- Begins with a digit.
abbrev pub StartsDigit : Bytes → Type 0
StartsDigit [] = ⊥
StartsDigit (c ∷ s) = is_digit c ≡ true

digits-StartsDigit :
    (fuel n : ℕ) (c : ℕ) (out : Bytes) → is_digit c ≡ true → StartsDigit (digits fuel n (c ∷ out))
unfolding digits
digits-StartsDigit zero n c out h = h
digits-StartsDigit (suc fuel) n c out h =
    let new : is_digit (b'0' + n % 10) ≡ true = ground arith in
    if_either StartsDigit (n / 10 == 0) new
      (digits-StartsDigit fuel (n / 10) (b'0' + n % 10) (c ∷ out) new)

pub to_string-StartsDigit : (n : ℕ) → StartsDigit (to_string n)
unfolding to_string digits
to_string-StartsDigit n =
    let new : is_digit (b'0' + n % 10) ≡ true = ground arith in
    if_either StartsDigit (n / 10 == 0) new (digits-StartsDigit n (n / 10) (b'0' + n % 10) [] new)

pub number_from-to_string : (n : ℕ) → number_from 0 (to_string n) ≡ n
unfolding to_string number_from
number_from-to_string n = digits_read (suc n) n [] (omega arith)

stoi_digits :
    (s : Bytes) (n : ℕ) → StartsDigit s → number_from 0 s ≡ n → n < 2 ^ 31 → stoi s ≡ ok (pos n)
unfolding stoi skip_spaces signed_number unsigned_number
stoi_digits [] n starts value small = absurd starts
stoi_digits (c ∷ s) n starts value small =
    let no_space : is_space c ≡ false = ground arith in
    let no_minus : (c == b'-') ≡ false = ground arith in
    let no_plus : (c == b'+') ≡ false = ground arith in
    let fits : ltb n (2 ^ 31) ≡ true = ground arith in
    rw (no_space, no_minus, no_plus, starts, value, fits) refl

pub stoi-to_string : (n : ℕ) → n < 2 ^ 31 → stoi (to_string n) ≡ ok (pos n)
stoi-to_string n = stoi_digits (to_string n) n (to_string-StartsDigit n) (number_from-to_string n)

digits-IsDigits :
    (fuel n : ℕ) (out : Bytes)
    → All (λ c. is_digit c ≡ true) out
    → All (λ c. is_digit c ≡ true) (digits fuel n out)
unfolding digits
digits-IsDigits zero n out h = h
digits-IsDigits (suc fuel) n out h =
    let new : is_digit (b'0' + n % 10) ≡ true = ground arith in
    if_either (All (λ c. is_digit c ≡ true)) (n / 10 == 0) (new, h)
      (digits-IsDigits fuel (n / 10) ((b'0' + n % 10) ∷ out) (new, h))

to_string-IsDigits : (n : ℕ) → All (λ c. is_digit c ≡ true) (to_string n)
unfolding to_string
to_string-IsDigits n = digits-IsDigits (suc n) n [] tt

digits-Lacks : (c : ℕ) (s : Bytes) → is_digit c ≡ false → All (λ b. is_digit b ≡ true) s → Lacks c s
digits-Lacks c [] h all = tt
digits-Lacks c (b ∷ s) h all = (ground (arith, all.0), digits-Lacks c s h all.1)

pub to_string-Lacks : (c n : ℕ) → is_digit c ≡ false → Lacks c (to_string n)
to_string-Lacks c n h = digits-Lacks c (to_string n) h (to_string-IsDigits n)
