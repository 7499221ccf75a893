-- ===== src/Word.antt =====
-- Go's machine integers. An `int32` or `int64` is its bit pattern, a number below 2 ^ 32 or 2 ^ 64
-- (so -1 is the largest pattern), which keeps the wrap-around of sums and the order of signed
-- values visible. `int`, on the platforms the program is built for, is `int64`.
use file_sharing_system_with.Prelude.{
  ℕ, ◌*◌, ◌+◌, ◌-◌, ◌/◌, ◌%◌, ◌^◌, ◌≤◌, ◌<◌, ◌≡◌, Bool, arith, ltb, if◌then◌else◌,
}

abbrev pub Int32 : Type 0
Int32 = ℕ

abbrev pub Int64 : Type 0
Int64 = ℕ

-- int32(-1)
abbrev pub minus_one32 : Int32
minus_one32 = 2 ^ 32 - 1

-- int64(-1)
abbrev pub minus_one64 : Int64
minus_one64 = 2 ^ 64 - 1

-- math.MaxInt64
abbrev pub max_int64 : Int64
max_int64 = 2 ^ 63 - 1

-- a + b on int64
unfoldable pub add64 : Int64 → Int64 → Int64
add64 a b = (a + b) % 2 ^ 64

-- a < b on int64
unfoldable pub slt64 : Int64 → Int64 → Bool
slt64 a b = ltb ((a + 2 ^ 63) % 2 ^ 64) ((b + 2 ^ 63) % 2 ^ 64)

-- a < b on int32
unfoldable pub slt32 : Int32 → Int32 → Bool
slt32 a b = ltb ((a + 2 ^ 31) % 2 ^ 32) ((b + 2 ^ 31) % 2 ^ 32)

pub add64_small : (a b : ℕ) → a + b < 2 ^ 64 → add64 a b ≡ a + b
unfolding add64
add64_small a b h = omega arith

pub slt64_small : (a b : ℕ) → a < 2 ^ 63 → b < 2 ^ 63 → slt64 a b ≡ ltb a b
unfolding slt64
slt64_small a b ha hb = ground arith

-- a - b on int64
pub sub64 : Int64 → Int64 → Int64
sub64 a b = (a + 2 ^ 64 - b) % 2 ^ 64

-- int32(a) of an int64
abbrev pub to_int32 : Int64 → Int32
to_int32 a = a % 2 ^ 32

pub sub64_small : (a b : ℕ) → b ≤ a → a < 2 ^ 64 → sub64 a b ≡ a - b
unfolding sub64
sub64_small a b h ha = omega arith

abbrev pub UInt32 : Type 0
UInt32 = ℕ

-- int(a) of an int32: the sign is extended.
unfoldable pub from_int32 : Int32 → Int64
from_int32 a = if ltb a (2 ^ 31) then a else a + 2 ^ 64 - 2 ^ 32

-- |a| of an int64
abbrev abs64 : Int64 → ℕ
abs64 a = if ltb a (2 ^ 63) then a else 2 ^ 64 - a

-- a / b on int64 for b not 0, which rounds towards 0
unfoldable pub div64 : Int64 → Int64 → Int64
div64 a b =
    let q = abs64 a / abs64 b in
    if ltb a (2 ^ 63)
    then (if ltb b (2 ^ 63) then q else (2 ^ 64 - q) % 2 ^ 64)
    else (if ltb b (2 ^ 63) then (2 ^ 64 - q) % 2 ^ 64 else q % 2 ^ 64)

pub div64_small : (a b : ℕ) → a < 2 ^ 63 → b < 2 ^ 63 → div64 a b ≡ a / b
unfolding div64
div64_small a b ha hb = ground arith

pub from_int32-to_int32 : (a : ℕ) → a < 2 ^ 31 → from_int32 (to_int32 a) ≡ a
unfolding from_int32
from_int32-to_int32 a h = ground arith

-- a * b on int64
pub mul64 : Int64 → Int64 → Int64
mul64 a b = a * b % 2 ^ 64

-- a - b on int32
pub sub32 : Int32 → Int32 → Int32
sub32 a b = (a + 2 ^ 32 - b) % 2 ^ 32

-- a + b on int32
unfoldable pub add32 : Int32 → Int32 → Int32
add32 a b = (a + b) % 2 ^ 32

pub slt32_small : (a b : ℕ) → a < 2 ^ 31 → b < 2 ^ 31 → slt32 a b ≡ ltb a b
unfolding slt32
slt32_small a b ha hb = ground arith
