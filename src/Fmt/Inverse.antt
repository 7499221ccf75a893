-- ===== src/Fmt/Inverse.antt =====
-- A printed number can be read back.
use file_sharing_system_with.Prelude.{
  ℕ, zero, suc, ◌+◌, ◌-◌, ◌*◌, ◌/◌, ◌%◌, ◌≤◌, ◌<◌, ◌≡◌, refl, [], ◌∷◌, ◌++◌, Bytes, ltb,
  if◌then◌else◌, arith, ap, All, Bool-cases, inl, inr, length, length-append,
}
use file_sharing_system_with.Fmt.{digits, decimal}

-- The number that decimal digits stand for, after the digits that `acc` stands for.
abbrev read : ℕ → Bytes → ℕ
read acc [] = acc
read acc (d ∷ ds) = read (acc * 10 + (d - 48)) ds

read-append : (acc : ℕ) (ds : Bytes) (d : ℕ) → read acc (ds ++ d ∷ []) ≡ read acc ds * 10 + (d - 48)
read-append acc [] d = refl
read-append acc (x ∷ ds) d = read-append (acc * 10 + (x - 48)) ds d

read-digits : (fuel n : ℕ) → n < fuel → read 0 (digits fuel n) ≡ n
unfolding digits
read-digits zero n h = absurd (omega arith)
read-digits (suc fuel) n h = elim (Bool-cases (ltb n 10)) [
  | inl small ↦ rw small (ground arith)
  | inr large ↦ rw (large, read-append) (ground (arith, read-digits fuel (n / 10)))
]

pub decimal-injective : (m n : ℕ) → decimal m ≡ decimal n → m ≡ n
unfolding decimal
decimal-injective m n e =
    omega (
      arith,
      read-digits (suc m) m (omega arith),
      read-digits (suc n) n (omega arith),
      ap (read 0) e,
    )

abbrev pub IsDigit : ℕ → Type 0
IsDigit d = (48 ≤ d) × (d ≤ 57)

All-append : (xs ys : Bytes) → All IsDigit xs → All IsDigit ys → All IsDigit (xs ++ ys)
All-append [] ys hx hy = hy
All-append (x ∷ xs) ys hx hy = (hx.0, All-append xs ys hx.1 hy)

digits-IsDigit : (fuel n : ℕ) → All IsDigit (digits fuel n)
unfolding digits
digits-IsDigit zero n = tt
digits-IsDigit (suc fuel) n = elim (Bool-cases (ltb n 10)) [
  | inl small ↦ rw small (omega arith, tt)
  | inr large ↦
      rw large
        (All-append (digits fuel (n / 10)) _ (digits-IsDigit fuel (n / 10)) (omega arith, tt))
]

pub decimal-IsDigit : (n : ℕ) → All IsDigit (decimal n)
unfolding decimal
decimal-IsDigit n = digits-IsDigit (suc n) n

digits_nonempty : (fuel n : ℕ) → 0 < fuel → 0 < length (digits fuel n)
unfolding digits
digits_nonempty zero n h = absurd (omega arith)
digits_nonempty (suc fuel) n h =
    omega
      (arith, length-append (if ltb n 10 then [] else digits fuel (n / 10)) ((48 + n % 10) ∷ []))

pub decimal_nonempty : (n : ℕ) → 0 < length (decimal n)
unfolding decimal
decimal_nonempty n = digits_nonempty (suc n) n (omega arith)
