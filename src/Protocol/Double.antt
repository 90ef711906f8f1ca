-- ===== src/Protocol/Double.antt =====
-- What the code relies on of `double` and of the C library's conversions of it: there are no
-- floating-point numbers here, so the type and its operations are given.
use equipment_control.Prelude.{ℕ, ◌≢◌, Bytes, All}

-- The bytes that a value of a `key=value` token may have: no blank, no line end, no NUL.
abbrev pub IsPlain : ℕ → Type 0
IsPlain c = (c ≢ 0) × (c ≢ b'\t') × (c ≢ b'\n') × (c ≢ b'\r') × (c ≢ b' ')

pub record Double (D : Type 0) : Type 0 where
  -- 0.0, whose bytes are all 0
  pub zero_double : D
  -- `strtod(s, NULL)`
  pub strtod : Bytes → D
  -- `snprintf(..., "%.2f", x)`
  pub print_2f : D → Bytes
  -- it writes a sign, digits, a point or the letters of an infinity or a NaN
  pub print_2f-IsPlain : (x : D) → All IsPlain (print_2f x)
