-- ===== src/Fmt.antt =====
-- The text that Go's `fmt` prints for `%d`, which the program builds its map keys from.
pub mod Inverse
pub mod Split
use file_sharing_system_with.Prelude.{
  ℕ, zero, suc, ◌+◌, ◌-◌, ◌/◌, ◌%◌, ◌^◌, List, [], ◌∷◌, ◌++◌, Bytes, ltb, if◌then◌else◌,
}
use file_sharing_system_with.Word.{Int32, Int64}

-- The decimal digits of a number, on fuel above it.
pub digits : ℕ → ℕ → Bytes
digits zero n = []
digits (suc fuel) n =
    let front = digits fuel (n / 10) in (if ltb n 10 then [] else front) ++ (48 + n % 10) ∷ []

pub decimal : ℕ → Bytes
unfolding digits
decimal n = digits (suc n) n

-- fmt.Sprintf("%d", x) on an int32
unfoldable pub format_int32 : Int32 → Bytes
unfolding decimal
format_int32 x = if ltb x (2 ^ 31) then decimal x else b'-' ∷ decimal (2 ^ 32 - x)

-- fmt.Sprintf("%d", x) on an int
pub format_int64 : Int64 → Bytes
unfolding decimal
format_int64 x = if ltb x (2 ^ 63) then decimal x else b'-' ∷ decimal (2 ^ 64 - x)
