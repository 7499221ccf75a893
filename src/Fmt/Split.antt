-- ===== src/Fmt/Split.antt =====
-- A key that is put together from printed numbers can be taken apart again.
use mathlib.Core.List.{Memᴰ}
use mathlib.Core.List.Memᴰ
use file_sharing_system_with.Prelude.{
  ℕ, ◌-◌, ◌^◌, ◌<◌, ◌≡◌, refl, ◌≢◌, [], ◌∷◌, ◌++◌, Bytes, ltb, arith, ap, sym, length, All,
  All_of_Memᴰ, Bool-cases, inl, inr, subst,
}
use file_sharing_system_with.Word.{Int32}
use file_sharing_system_with.Fmt.{decimal, format_int32}
use file_sharing_system_with.Fmt.Inverse.{
  IsDigit, decimal-IsDigit, decimal-injective, decimal_nonempty,
}

-- Digits up to a byte that is none are determined by the whole.
digits_prefix :
    (xs ys : Bytes) (c d : ℕ) (r s : Bytes)
    → All IsDigit xs
    → All IsDigit ys
    → ¬ IsDigit c
    → ¬ IsDigit d
    → xs ++ c ∷ r ≡ ys ++ d ∷ s
    → (xs ≡ ys) × (r ≡ s)
digits_prefix [] [] c d r s hx hy hc hd e = (refl, cc)
digits_prefix [] (y ∷ ys) c d r s hx hy hc hd e = absurd (hc (ground arith))
digits_prefix (x ∷ xs) [] c d r s hx hy hc hd e = absurd (hd (ground arith))
digits_prefix (x ∷ xs) (y ∷ ys) c d r s hx hy hc hd e = ground (arith, digits_prefix xs ys c d r s)

-- A byte that stands in neither end is found from the right.
suffix_after :
    (xs ys : Bytes) (c : ℕ) (r s : Bytes)
    → ¬ Memᴰ c r
    → ¬ Memᴰ c s
    → xs ++ c ∷ r ≡ ys ++ c ∷ s
    → (xs ≡ ys) × (r ≡ s)
suffix_after [] [] c r s hr hs e = (refl, cc)
suffix_after [] (y ∷ ys) c r s hr hs e =
    let rest : r ≡ ys ++ c ∷ s = cc in
    absurd (hr (subst (Memᴰ c) (sym rest) (Memᴰ.append_right ys (Memᴰ.head refl))))
suffix_after (x ∷ xs) [] c r s hr hs e =
    let rest : s ≡ xs ++ c ∷ r = cc in
    absurd (hs (subst (Memᴰ c) (sym rest) (Memᴰ.append_right xs (Memᴰ.head refl))))
suffix_after (x ∷ xs) (y ∷ ys) c r s hr hs e = ground (arith, suffix_after xs ys c r s hr hs)

minus_not-IsDigit : ¬ IsDigit b'-'
minus_not-IsDigit h = omega arith

-- Printed digits are not taken for a sign.
no_sign_head : (ds r s : Bytes) → All IsDigit ds → 0 < length ds → ds ++ r ≢ b'-' ∷ s
no_sign_head [] r s h n e = absurd (omega arith)
no_sign_head (d ∷ ds) r s h n e = ground arith

no_sign : (n : ℕ) (r s : Bytes) → decimal n ++ r ≢ b'-' ∷ s
no_sign n r s = no_sign_head (decimal n) r s (decimal-IsDigit n) (decimal_nonempty n)

decimal_prefix :
    (m n : ℕ) (r s : Bytes) → decimal m ++ b'-' ∷ r ≡ decimal n ++ b'-' ∷ s → (m ≡ n) × (r ≡ s)
decimal_prefix m n r s e =
    let (same, rest) =
      digits_prefix (decimal m) (decimal n) b'-' b'-' r s (decimal-IsDigit m) (decimal-IsDigit n)
        minus_not-IsDigit minus_not-IsDigit e in
    (decimal-injective m n same, rest)

-- The number before a `-` is determined.
pub format_int32-prefix :
    (a b : Int32) (r s : Bytes)
    → a < 2 ^ 32
    → b < 2 ^ 32
    → format_int32 a ++ b'-' ∷ r ≡ format_int32 b ++ b'-' ∷ s
    → (a ≡ b) × (r ≡ s)
unfolding format_int32
format_int32-prefix a b r s ha hb e = elim (Bool-cases (ltb a (2 ^ 31))) [
  | inl pa ↦ elim (Bool-cases (ltb b (2 ^ 31))) [
    | inl pb ↦ decimal_prefix a b r s (rw (pa, pb) at e)
    | inr nb ↦ absurd (no_sign a (b'-' ∷ r) (decimal (2 ^ 32 - b) ++ b'-' ∷ s) (rw (pa, nb) at e))
  ]
  | inr na ↦ elim (Bool-cases (ltb b (2 ^ 31))) [
    | inl pb ↦
        absurd (no_sign b (b'-' ∷ s) (decimal (2 ^ 32 - a) ++ b'-' ∷ r) (sym (rw (na, pb) at e)))
    | inr nb ↦
        let both : b'-' ∷ decimal (2 ^ 32 - a) ++ b'-' ∷ r
            ≡ b'-' ∷ decimal (2 ^ 32 - b) ++ b'-' ∷ s =
          rw (na, nb) at e in
        let (same, rest) = decimal_prefix (2 ^ 32 - a) (2 ^ 32 - b) r s (cc) in (omega arith, rest)
  ]
]

pub format_int32-injective :
    (a b : Int32) → a < 2 ^ 32 → b < 2 ^ 32 → format_int32 a ≡ format_int32 b → a ≡ b
format_int32-injective a b ha hb e =
    (format_int32-prefix a b [] [] ha hb (ap (λ xs. xs ++ b'-' ∷ []) e)).0

no_colon_in : (ds : Bytes) → All IsDigit ds → ¬ Memᴰ b':' ds
no_colon_in ds h m = let (low, high) = All_of_Memᴰ IsDigit ds h m in absurd (omega arith)

no_colon : (a : Int32) → ¬ Memᴰ b':' (format_int32 a)
unfolding format_int32
no_colon a = elim (Bool-cases (ltb a (2 ^ 31))) [
  | inl p ↦ rw p (no_colon_in (decimal a) (decimal-IsDigit a))
  | inr n ↦ rw n (λ m. elim (Memᴰ.cases_cons m) [
    | inl e ↦ absurd (omega arith)
    | inr later ↦ no_colon_in (decimal (2 ^ 32 - a)) (decimal-IsDigit (2 ^ 32 - a)) later
  ])
]

-- The number after the last `:` is determined.
pub format_int32-suffix :
    (xs ys : Bytes) (a b : Int32)
    → a < 2 ^ 32
    → b < 2 ^ 32
    → xs ++ b':' ∷ format_int32 a ≡ ys ++ b':' ∷ format_int32 b
    → (xs ≡ ys) × (a ≡ b)
format_int32-suffix xs ys a b ha hb e =
    let (front, back) =
      suffix_after xs ys b':' (format_int32 a) (format_int32 b) (no_colon a) (no_colon b) e in
    (front, format_int32-injective a b ha hb back)
