-- ===== src/Storage/Bloom/Bits.antt =====
-- A bit of a byte, under `|` and `&`.
use Prim.Native.Nat.{bit_and, bit_or, digits, max, bit_or-bitwise}
use native.Mathlib.Nat.{pow-suc}
use file_sharing_system_with.Prelude.{
  if◌then◌else◌, ℕ, zero, suc, ◌+◌, ◌*◌, ◌/◌, ◌%◌, ◌^◌, ◌≤◌, ◌<◌, ◌≡◌, refl, Bool, true, false, not,
  ◌||◌, arith, nat_beq, ap, ltb, ltb→lt,
}

-- Over a small range, check every value by evaluation.
everywhere : (ℕ → Bool) → ℕ → Bool
everywhere holds zero = true
everywhere holds (suc n) = if holds n then everywhere holds n else false

everywhere_sound : (holds : ℕ → Bool) (n k : ℕ) → k < n → everywhere holds n ≡ true → holds k ≡ true
unfolding everywhere
everywhere_sound holds zero k small run = absurd (omega arith)
everywhere_sound holds (suc n) k small run = ground (arith, everywhere_sound holds n k)

bool_beq : Bool → Bool → Bool
bool_beq true b = b
bool_beq false b = not b

bool_beq_sound : (a b : Bool) → bool_beq a b ≡ true → a ≡ b
unfolding bool_beq
bool_beq_sound true true h = refl
bool_beq_sound false false h = refl
bool_beq_sound true false h = cc
bool_beq_sound false true h = cc

powers : everywhere (λ x. ltb (2 ^ x) 256) 8 ≡ true
unfolding everywhere
powers = refl

-- Bit `j` of a number.
pub nth_bit : ℕ → ℕ → ℕ
nth_bit zero a = a % 2
nth_bit (suc j) a = nth_bit j (a / 2)

abbrev or_digits : ℕ → ℕ → ℕ → ℕ
or_digits n a b = digits (λ b. b) max n a b

-- The recursion behind `bit_or` needs no more fuel than its first number.
or_digits_fuel : (n m a b : ℕ) → a ≤ n → a ≤ m → or_digits n a b ≡ or_digits m a b
or_digits_fuel zero zero a b p q = refl
or_digits_fuel zero (suc m) zero b p q = refl
or_digits_fuel zero (suc m) (suc a) b p q = absurd (omega arith)
or_digits_fuel (suc n) zero zero b p q = refl
or_digits_fuel (suc n) zero (suc a) b p q = absurd (omega arith)
or_digits_fuel (suc n) (suc m) zero b p q = refl
or_digits_fuel (suc n) (suc m) (suc a) b p q =
    omega (arith, or_digits_fuel n m (suc a / 2) (b / 2) (omega arith) (omega arith))

zero-bit_or : (b : ℕ) → bit_or 0 b ≡ b
zero-bit_or b = bit_or-bitwise 0 b

-- The lowest bit of `a | b`, and the others.
bit_or-halves : (a b : ℕ) → bit_or a b ≡ bit_or (a / 2) (b / 2) * 2 + max (a % 2) (b % 2)
bit_or-halves zero b = omega (arith, zero-bit_or b, zero-bit_or (b / 2))
bit_or-halves (suc a) b = omega (
  arith,
  bit_or-bitwise (suc a) b,
  bit_or-bitwise (suc a / 2) (b / 2),
  or_digits_fuel a (suc a / 2) (suc a / 2) (b / 2) (omega arith) (omega arith),
)

nth_bit-bit_or : (j a b : ℕ) → nth_bit j (bit_or a b) ≡ max (nth_bit j a) (nth_bit j b)
unfolding nth_bit
nth_bit-bit_or zero a b = omega (arith, bit_or-halves a b)
nth_bit-bit_or (suc j) a b =
    let half : bit_or a b / 2 ≡ bit_or (a / 2) (b / 2) = omega (arith, bit_or-halves a b) in
    rw half (nth_bit-bit_or j (a / 2) (b / 2))

bit_or-lt-pow : (k a b : ℕ) → a < 2 ^ k → b < 2 ^ k → bit_or a b < 2 ^ k
bit_or-lt-pow zero a b ha hb =
    let none_a : a ≡ 0 = omega arith in omega (arith, ap (λ x. bit_or x b) none_a, zero-bit_or b)
bit_or-lt-pow (suc k) a b ha hb = omega (
  arith,
  pow-suc 2 k,
  bit_or-halves a b,
  bit_or-lt-pow k (a / 2) (b / 2) (omega (arith, pow-suc 2 k)) (omega (arith, pow-suc 2 k)),
)

pub bit_or-lt : (a b : ℕ) → a < 256 → b < 256 → bit_or a b < 256
bit_or-lt a b ha hb = bit_or-lt-pow 8 a b ha hb

-- b & (1 << k) != 0
abbrev pub flag : ℕ → ℕ → Bool
flag b k = not (nat_beq (bit_and b (2 ^ k)) 0)

flag_table :
    everywhere
      (λ x. bool_beq (flag (x / 8) (x % 8)) (not (nat_beq (nth_bit (x % 8) (x / 8)) 0)))
      2048
    ≡ true
unfolding everywhere nth_bit bool_beq
flag_table = refl

flag-nth_bit : (b k : ℕ) → b < 256 → k < 8 → flag b k ≡ not (nat_beq (nth_bit k b) 0)
flag-nth_bit b k hb hk =
    let at : (b * 8 + k) / 8 ≡ b = omega arith in
    let low : (b * 8 + k) % 8 ≡ k = omega arith in
    let row = everywhere_sound _ 2048 (b * 8 + k) (omega arith) flag_table in
    bool_beq_sound _ _ (rw (at, low) at row)

power_table :
    everywhere (λ x. bool_beq (flag (2 ^ (x / 8)) (x % 8)) (nat_beq (x / 8) (x % 8))) 64 ≡ true
unfolding everywhere bool_beq
power_table = refl

-- The mask 1 << i has the bit `i` alone.
pub flag-power : (i k : ℕ) → i < 8 → k < 8 → flag (2 ^ i) k ≡ nat_beq i k
flag-power i k hi hk =
    let at : (i * 8 + k) / 8 ≡ i = omega arith in
    let low : (i * 8 + k) % 8 ≡ k = omega arith in
    let row = everywhere_sound _ 64 (i * 8 + k) (omega arith) power_table in
    bool_beq_sound _ _ (rw (at, low) at row)

-- A bit of `a | b` is set if it is set in `a` or in `b`.
pub flag-bit_or :
    (a b k : ℕ) → a < 256 → b < 256 → k < 8 → flag (bit_or a b) k ≡ (flag a k || flag b k)
flag-bit_or a b k ha hb hk =
    rw
      (
        flag-nth_bit (bit_or a b) k (bit_or-lt a b ha hb) hk,
        flag-nth_bit a k ha hk,
        flag-nth_bit b k hb hk,
        nth_bit-bit_or k a b,
      )
      (ground arith)

pub power_below : (i : ℕ) → i < 8 → 2 ^ i < 256
power_below i h = ltb→lt _ _ (everywhere_sound (λ x. ltb (2 ^ x) 256) 8 i h powers)
