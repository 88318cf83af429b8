-- ===== src/Certificates/Numbers.antt =====
-- `big.Int` and `binary.BigEndian` as services.go uses them.
use yggdrasil_authentication.Base.{
  ℕ, zero, suc, ◌+◌, ◌-◌, ◌*◌, ◌/◌, ◌%◌, ◌^◌, ◌<◌, ◌≤◌, ◌≡◌, refl, ap, ◌∙◌, Option, none, some, [],
  ◌∷◌, ◌++◌, ◌==◌, nat_eq, Text, leb, ◌&&◌, if◌then◌else◌, length, append-nil, arith,
}
use native.Mathlib.Nat.{zero-add}
use yggdrasil_authentication.Random.{hex_digit, hex_encode}

-- The value of a hexadecimal digit.
digit_value : ℕ → Option ℕ
digit_value c =
    if leb b'0' c && leb c b'9'
    then some (c - b'0')
    else if leb b'a' c && leb c b'f'
    then some (c - b'a' + 10)
    else if leb b'A' c && leb c b'F'
    then some (c - b'A' + 10)
    else none

-- `SetString(s, 16)`, of a text without sign: the number that the digits at its start stand for.
set_string : ℕ → Text → ℕ
set_string n [] = n
set_string n (c ∷ s) = elim (digit_value c) [ none ↦ n | some d ↦ set_string (n * 16 + d) s ]

-- The bytes of a number, the most significant first and not zero, before those of `bytes`; for a
-- number below 256 ^ k.
number_bytes : ℕ → ℕ → Text → Text
number_bytes zero n bytes = bytes
number_bytes (suc k) n bytes =
    let more = number_bytes k (n / 256) ((n % 256) ∷ bytes) in if n == 0 then bytes else more

-- `Bytes()` of the number; a text of `k` digits stands for one below 16 ^ k.
unfoldable pub big_int_bytes : Text → Text
unfolding set_string number_bytes digit_value
big_int_bytes s = number_bytes (length s) (set_string 0 s) []

-- The last `k` bytes of a number, the most significant first; `PutUint64` writes eight.
low_bytes : ℕ → ℕ → Text
low_bytes zero n = []
low_bytes (suc k) n = (n / 256 ^ k % 256) ∷ low_bytes k n

unfoldable pub put_uint64 : ℕ → Text
unfolding low_bytes
put_uint64 n = low_bytes 8 n

-- Every entry is a byte.
abbrev pub AreBytes : Text → Type 0
AreBytes [] = Unit
AreBytes (b ∷ bytes) = (b < 256) × AreBytes bytes

-- A text without the zeros at its start.
unfoldable pub strip_zeros : Text → Text
strip_zeros [] = []
strip_zeros (zero ∷ bytes) = strip_zeros bytes
strip_zeros (suc b ∷ bytes) = suc b ∷ bytes

-- The number that follows `n` when the bytes are added behind it.
value : ℕ → Text → ℕ
value n [] = n
value n (b ∷ bytes) = value (n * 256 + b) bytes

digit_value-hex_digit : (d : ℕ) → d < 16 → digit_value (hex_digit d) ≡ some d
unfolding digit_value hex_digit
digit_value-hex_digit d h = ground arith

set_string_digit :
    (n d : ℕ) (s : Text) → d < 16 → set_string n (hex_digit d ∷ s) ≡ set_string (n * 16 + d) s
unfolding set_string
set_string_digit n d s h = ground (arith, digit_value-hex_digit d h)

set_string-hex_encode :
    (n : ℕ) (bytes : Text) → AreBytes bytes → set_string n (hex_encode bytes) ≡ value n bytes
unfolding set_string hex_encode value
set_string-hex_encode n [] h = refl
set_string-hex_encode n (b ∷ bytes) (small, h) =
    let number : (n * 16 + b / 16) * 16 + b % 16 ≡ n * 256 + b = omega arith in
    set_string_digit n (b / 16) (hex_digit (b % 16) ∷ hex_encode bytes) (omega arith)
    ∙ set_string_digit (n * 16 + b / 16) (b % 16) (hex_encode bytes) (omega arith)
    ∙ rw number (set_string-hex_encode (n * 256 + b) bytes h)

number_bytes-value :
    (k n : ℕ) (bytes rest : Text)
    → AreBytes bytes
    → 0 < n
    → number_bytes (length bytes + k) (value n bytes) rest ≡ number_bytes k n (bytes ++ rest)
unfolding value number_bytes
number_bytes-value k n [] rest h positive = rw zero-add refl
number_bytes-value k n (b ∷ bytes) rest (small, h) positive =
    let step : suc (length bytes) + k ≡ length bytes + suc k = omega arith in
    let next : number_bytes (suc k) (n * 256 + b) (bytes ++ rest)
        ≡ number_bytes k n (b ∷ (bytes ++ rest)) =
      (let quotient : (n * 256 + b) / 256 ≡ n = omega arith in
        let remainder : (n * 256 + b) % 256 ≡ b = omega arith in
        ground (arith, quotient, remainder)) in
    rw step (number_bytes-value (suc k) (n * 256 + b) bytes rest h (omega arith) ∙ next)

number_bytes_none : (k : ℕ) (rest : Text) → number_bytes k 0 rest ≡ rest
unfolding number_bytes
number_bytes_none zero rest = refl
number_bytes_none (suc k) rest = refl

first_byte : (k b : ℕ) (rest : Text) → b < 256 → 0 < b → number_bytes (suc k) b rest ≡ b ∷ rest
unfolding number_bytes
first_byte k b rest small positive =
    let quotient : b / 256 ≡ 0 = omega arith in
    let remainder : b % 256 ≡ b = omega arith in
    ground (arith, quotient, remainder, number_bytes_none k (b ∷ rest))

number_bytes_strip :
    (k : ℕ) (bytes : Text)
    → AreBytes bytes
    → number_bytes (length bytes + k) (value 0 bytes) [] ≡ strip_zeros bytes
unfolding value strip_zeros
number_bytes_strip k [] h = number_bytes_none _ []
number_bytes_strip k (zero ∷ bytes) (small, h) =
    let step : suc (length bytes) + k ≡ length bytes + suc k = omega arith in
    rw step (number_bytes_strip (suc k) bytes h)
number_bytes_strip k (suc b ∷ bytes) (small, h) =
    let step : suc (length bytes) + k ≡ length bytes + suc k = omega arith in
    let start : 0 * 256 + suc b ≡ suc b = omega arith in
    rw (step, start)
      (number_bytes-value (suc k) (suc b) bytes [] h (omega arith)
        ∙ first_byte k (suc b) (bytes ++ []) small (omega arith)
        ∙ rw append-nil refl)

length-hex_encode : (bytes : Text) → length (hex_encode bytes) ≡ length bytes + length bytes
unfolding hex_encode
length-hex_encode [] = omega arith
length-hex_encode (b ∷ bytes) = omega (arith, length-hex_encode bytes)

-- The bytes of the number that the hexadecimal digits of a byte sequence stand for.
pub big_int_bytes-hex_encode :
    (bytes : Text) → AreBytes bytes → big_int_bytes (hex_encode bytes) ≡ strip_zeros bytes
unfolding big_int_bytes
big_int_bytes-hex_encode bytes h =
    rw (length-hex_encode bytes, set_string-hex_encode 0 bytes h)
      (number_bytes_strip (length bytes) bytes h)

length-low_bytes : (k n : ℕ) → length (low_bytes k n) ≡ k
unfolding low_bytes
length-low_bytes zero n = refl
length-low_bytes (suc k) n = ap suc (length-low_bytes k n)

pub length-strip_zeros : (bytes : Text) → length (strip_zeros bytes) ≤ length bytes
unfolding strip_zeros
length-strip_zeros [] = omega arith
length-strip_zeros (zero ∷ bytes) = omega (arith, length-strip_zeros bytes)
length-strip_zeros (suc b ∷ bytes) = omega arith
