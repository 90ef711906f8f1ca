-- ===== src/Protocol/Codec/Numbers.antt =====
-- The C library's decimal conversions as line_codec.c uses them: `%u` and `%d` of `snprintf`,
-- `strtoul` and `strtol` in base 10 with `unsigned long` and `long` of 64 bits.
use equipment_control.Prelude.{
  ◌∙◌, inr, inl, ℕ, zero, suc, ◌+◌, ◌-◌, ◌*◌, ◌/◌, ◌%◌, ◌^◌, ◌<◌, ◌≡◌, refl, Bool, true, false,
  ◌&&◌, ◌||◌, [], ◌∷◌, arith, ltb, leb, ◌==◌, if◌then◌else◌, Bytes, All, Bool-cases,
}
use native.Mathlib.Nat.{pow-suc}
use equipment_control.Prelude.Int.{ℤ, pos, negsuc, narrow, narrow-IsInt32, IsInt32}

abbrev pub is_digit : ℕ → Bool
is_digit c = leb b'0' c && leb c b'9'

-- The digits of `n` in front of `out`; 20 rounds are enough below 10^20.
unfoldable pub digits_onto : ℕ → ℕ → Bytes → Bytes
digits_onto zero n out = out
digits_onto (suc fuel) n out =
    let rest = digits_onto fuel (n / 10) ((b'0' + n % 10) ∷ out) in
    if ltb n 10 then (b'0' + n) ∷ out else rest

-- `%u`
unfoldable pub print_unsigned : ℕ → Bytes
print_unsigned n = digits_onto 20 n []

-- `%d`
unfoldable pub print_int : ℤ → Bytes
print_int (pos n) = print_unsigned n
print_int (negsuc n) = b'-' ∷ print_unsigned (n + 1)

-- `isspace` in the C locale.
abbrev is_space : ℕ → Bool
is_space c = (leb 9 c && leb c 13) || c == b' '

unfoldable pub skip_space : Bytes → Bytes
skip_space [] = []
skip_space (c ∷ cs) = if is_space c then skip_space cs else c ∷ cs

-- The value of the digits up to the first byte that is none.
unfoldable pub scan_digits : ℕ → Bytes → ℕ
scan_digits n [] = n
scan_digits n (c ∷ cs) = if is_digit c then scan_digits (n * 10 + (c - b'0')) cs else n

-- The sign, true for a minus, and the value behind it.
unfoldable pub scan_signed : Bytes → Bool × ℕ
unfolding scan_digits
scan_signed [] = (false, 0)
scan_signed (c ∷ cs) =
    if c == b'-'
    then (true, scan_digits 0 cs)
    else if c == b'+'
    then (false, scan_digits 0 cs)
    else (false, scan_digits 0 (c ∷ cs))

-- `strtoul(s, NULL, 10)`: ULONG_MAX if the value does not fit; a minus sign negates modulo 2^64.
unfoldable pub strtoul : Bytes → ℕ
unfolding skip_space scan_signed
strtoul s =
    let (minus, n) = scan_signed (skip_space s) in
    if leb (2 ^ 64) n then 2 ^ 64 - 1 else if minus then (2 ^ 64 - n) % 2 ^ 64 else n

-- `strtol(s, NULL, 10)`: LONG_MAX or LONG_MIN if the value does not fit.
abbrev clamp_long : Bool → ℕ → ℤ
clamp_long false n = if leb (2 ^ 63) n then pos (2 ^ 63 - 1) else pos n
clamp_long true n =
    if n == 0 then pos 0 else if ltb (2 ^ 63) n then negsuc (2 ^ 63 - 1) else negsuc (n - 1)

unfoldable pub strtol : Bytes → ℤ
unfolding skip_space scan_signed
strtol s = let (minus, n) = scan_signed (skip_space s) in clamp_long minus n

-- `(uint32_t)strtoul(...)`, `(int)strtol(...)` and `(int32_t)strtol(...)`.
unfoldable pub read_uint32 : Bytes → ℕ
unfolding strtoul
read_uint32 s = strtoul s % 2 ^ 32

unfoldable pub read_int32 : Bytes → ℤ
unfolding strtol
read_int32 s = narrow (strtol s)

tenth_lt : (fuel n : ℕ) → n < 10 ^ suc fuel → n / 10 < 10 ^ fuel
tenth_lt fuel n h = omega (arith, rw pow-suc at h)

scan_digits-digits_onto :
    (fuel n : ℕ) (out : Bytes)
    → n < 10 ^ fuel
    → scan_digits 0 (digits_onto fuel n out) ≡ scan_digits n out
unfolding digits_onto scan_digits
scan_digits-digits_onto zero n out h = let e : n ≡ 0 = omega arith in rw e refl
scan_digits-digits_onto (suc fuel) n out h = elim (Bool-cases (ltb n 10)) [
  | inl one ↦ ground arith
  | inr more ↦
      rw (more, scan_digits-digits_onto fuel (n / 10) ((b'0' + n % 10) ∷ out) (tenth_lt fuel n h))
        (ground arith)
]

-- Every byte printed is a digit, and the first is there.
digits_onto-All :
    (fuel n : ℕ) (out : Bytes)
    → All (λ c. is_digit c ≡ true) out
    → All (λ c. is_digit c ≡ true) (digits_onto fuel n out)
unfolding digits_onto
digits_onto-All zero n out h = h
digits_onto-All (suc fuel) n out h =
    ground (arith, digits_onto-All fuel (n / 10) ((b'0' + n % 10) ∷ out))

abbrev pub IsDigits : Bytes → Type 0
IsDigits s = All (λ c. is_digit c ≡ true) s

pub print_unsigned-IsDigits : (n : ℕ) → IsDigits (print_unsigned n)
unfolding print_unsigned
print_unsigned-IsDigits n = digits_onto-All 20 n [] tt

skip_space-IsDigits : (s : Bytes) → IsDigits s → skip_space s ≡ s
unfolding skip_space
skip_space-IsDigits [] h = refl
skip_space-IsDigits (c ∷ s) h = ground arith

scan_signed-IsDigits : (s : Bytes) → IsDigits s → scan_signed s ≡ (false, scan_digits 0 s)
unfolding scan_signed
scan_signed-IsDigits [] h = refl
scan_signed-IsDigits (c ∷ s) h = ground arith

pub scan_digits-print_unsigned : (n : ℕ) → n < 10 ^ 20 → scan_digits 0 (print_unsigned n) ≡ n
unfolding print_unsigned scan_digits
scan_digits-print_unsigned n h = scan_digits-digits_onto 20 n [] h ∙ nil_scan n
  where
    nil_scan : (n : ℕ) → scan_digits n [] ≡ n
    nil_scan n = refl

pub strtoul-print_unsigned : (n : ℕ) → n < 2 ^ 64 → strtoul (print_unsigned n) ≡ n
unfolding strtoul
strtoul-print_unsigned n h =
    let digits = print_unsigned-IsDigits n in
    rw
      (
        skip_space-IsDigits _ digits,
        scan_signed-IsDigits _ digits,
        scan_digits-print_unsigned n (omega arith),
      )
      (ground arith)

-- What `%u` prints of a 32-bit number is read back by `(uint32_t)strtoul`.
pub read_uint32-print_unsigned : (n : ℕ) → n < 2 ^ 32 → read_uint32 (print_unsigned n) ≡ n
unfolding read_uint32
read_uint32-print_unsigned n h = rw (strtoul-print_unsigned n (omega arith)) (omega arith)

strtol-print_unsigned : (n : ℕ) → n < 2 ^ 63 → strtol (print_unsigned n) ≡ pos n
unfolding strtol
strtol-print_unsigned n h =
    let digits = print_unsigned-IsDigits n in
    rw
      (
        skip_space-IsDigits _ digits,
        scan_signed-IsDigits _ digits,
        scan_digits-print_unsigned n (omega arith),
      )
      (ground arith)

strtol-minus : (n : ℕ) → n < 2 ^ 63 → strtol (b'-' ∷ print_unsigned (n + 1)) ≡ negsuc n
unfolding strtol
strtol-minus n h = rw (scan_digits-print_unsigned (n + 1) (omega arith)) (ground arith)

-- What `%d` prints of a 32-bit signed number is read back by `(int)strtol`.
pub read_int32-print_int : (z : ℤ) → IsInt32 z → read_int32 (print_int z) ≡ z
unfolding read_int32 print_int
read_int32-print_int (pos n) h =
    rw (strtol-print_unsigned n (omega arith)) (narrow-IsInt32 (pos n) h)
read_int32-print_int (negsuc n) h = rw (strtol-minus n (omega arith)) (narrow-IsInt32 (negsuc n) h)
