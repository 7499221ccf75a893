-- ===== src/Storage/Bloom/SetBit.antt =====
-- `setBit` and `getBit` on the bytes of the array.
use Prim.Native.Nat.{bit_or}
use file_sharing_system_with.Prelude.{
  ℕ, zero, suc, ◌*◌, ◌/◌, ◌%◌, ◌^◌, ◌<◌, ◌≡◌, refl, inl, inr, true, ◌||◌, some, [], ◌∷◌, Bytes,
  length, length-set, get_elem?, set, All, arith, nat_beq, Bool-cases, ap, subst, if◌then◌else◌,
  ◌∙◌,
}
use file_sharing_system_with.Storage.Bloom.{set_bit, get_bit}
use file_sharing_system_with.Storage.Bloom.Bits.{
  flag, flag-power, flag-bit_or, bit_or-lt, power_below,
}

abbrev pub IsBytes : Bytes → Type 0
IsBytes = All (λ b. b < 256)

-- `ys` has the bits of `xs`, and perhaps more.
pub record Grown (xs ys : Bytes) : Type 0 where
  pub size : length ys ≡ length xs
  pub bytes : IsBytes ys
  pub keeps : (j : ℕ) → get_bit xs j ≡ some true → get_bit ys j ≡ some true

pub get_elem?-lt :
    (xs : Bytes) (i : ℕ)
    → IsBytes xs
    → i < length xs
    → (b : ℕ) × (get_elem? xs i ≡ some b) × (b < 256)
get_elem?-lt [] i h l = absurd (omega arith)
get_elem?-lt (x ∷ xs) zero h l = (x, refl, h.0)
get_elem?-lt (x ∷ xs) (suc i) h l = get_elem?-lt xs i h.1 (omega arith)

get_elem?-set :
    (xs : Bytes) (i j v : ℕ)
    → i < length xs
    → get_elem? (set xs i v) j ≡ (if nat_beq i j then some v else get_elem? xs j)
get_elem?-set [] i j v h = absurd (omega arith)
get_elem?-set (x ∷ xs) zero zero v h = refl
get_elem?-set (x ∷ xs) zero (suc j) v h = ground arith
get_elem?-set (x ∷ xs) (suc i) zero v h = ground arith
get_elem?-set (x ∷ xs) (suc i) (suc j) v h = ground (arith, get_elem?-set xs i j v)

IsBytes-set : (xs : Bytes) (i v : ℕ) → IsBytes xs → v < 256 → IsBytes (set xs i v)
IsBytes-set [] i v h hv = tt
IsBytes-set (x ∷ xs) zero v h hv = (hv, h.1)
IsBytes-set (x ∷ xs) (suc i) v h hv = (h.0, IsBytes-set xs i v h.1 hv)

pub get_bit-of :
    (xs : Bytes) (j b : ℕ) → get_elem? xs (j / 8) ≡ some b → get_bit xs j ≡ some (flag b (j % 8))
unfolding get_bit
get_bit-of xs j b e = rw (e, get_bit)

get_bit-same :
    (xs ys : Bytes) (j : ℕ)
    → get_elem? ys (j / 8) ≡ get_elem? xs (j / 8)
    → get_bit ys j ≡ get_bit xs j
unfolding get_bit
get_bit-same xs ys j e = rw (e, get_bit)

module _ (xs : Bytes) (p b : ℕ) (here : get_elem? xs (p / 8) ≡ some b) (inside : p / 8 < length xs)
    (small : b < 256) where
  abbrev written : Bytes
  written = set xs (p / 8) (bit_or b (2 ^ (p % 8)))

  flag-written :
      (j : ℕ) → flag (bit_or b (2 ^ (p % 8))) (j % 8) ≡ (flag b (j % 8) || nat_beq (p % 8) (j % 8))
  flag-written j =
      flag-bit_or b (2 ^ (p % 8)) (j % 8) small (power_below (p % 8) (omega arith)) (omega arith)
      ∙ ap (λ x. flag b (j % 8) || x) (flag-power (p % 8) (j % 8) (omega arith) (omega arith))

  read_written :
      (j : ℕ)
      → get_elem? written (j / 8)
        ≡ (if nat_beq (p / 8) (j / 8) then some (bit_or b (2 ^ (p % 8))) else get_elem? xs (j / 8))
  read_written j = get_elem?-set xs (p / 8) (j / 8) (bit_or b (2 ^ (p % 8))) inside

  get_bit-written_keeps : (j : ℕ) → get_bit xs j ≡ some true → get_bit written j ≡ some true
  get_bit-written_keeps j before = elim (Bool-cases (nat_beq (p / 8) (j / 8))) [
    | inl same ↦
        let at : p / 8 ≡ j / 8 = ground arith in
        let old = get_bit-of xs j b (subst (λ q. get_elem? xs q ≡ some b) at here) in
        let was : flag b (j % 8) ≡ true = ground arith in
        get_bit-of written j (bit_or b (2 ^ (p % 8))) (read_written j ∙ rw same)
        ∙ ap some (flag-written j ∙ rw was)
    | inr other ↦ get_bit-same xs written j (read_written j ∙ rw other) ∙ before
  ]

  get_bit-written_self : get_bit written p ≡ some true
  get_bit-written_self =
      get_bit-of written p (bit_or b (2 ^ (p % 8))) (read_written p ∙ ground arith)
      ∙ ap some (flag-written p ∙ ground arith)

-- `setBit` within the array sets the bit and keeps the others.
pub set_bit-Grown :
    (xs : Bytes) (p : ℕ)
    → IsBytes xs
    → p < 8 * length xs
    → (ys : Bytes) × (set_bit xs p ≡ some ys) × Grown xs ys × (get_bit ys p ≡ some true)
unfolding set_bit
set_bit-Grown xs p h hp =
    let inside : p / 8 < length xs = omega arith in
    let (b, here, small) = get_elem?-lt xs (p / 8) h inside in
    let mask = 2 ^ (p % 8) in
    (
      written xs p b here inside small,
      rw (here, set_bit),
      record {
        size = length-set xs (p / 8) (bit_or b mask);
        bytes =
            IsBytes-set xs (p / 8) (bit_or b mask) h
              (bit_or-lt b mask small (power_below (p % 8) (omega arith)));
        keeps = get_bit-written_keeps xs p b here inside small;
      },
      get_bit-written_self xs p b here inside small,
    )
