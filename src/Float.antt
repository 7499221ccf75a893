-- ===== src/Float.antt =====
-- float64 and the functions of package math that the program calls. Their values are up to the
-- platform: a type with operations, of which the theorems assume only that int(x) is an int64.
use file_sharing_system_with.Prelude.{ℕ, ◌-◌, ◌*◌, ◌/◌, ◌%◌, arith, ◌^◌, ◌<◌}
use file_sharing_system_with.Word.{Int64}

pub record Float64 (F : Type 0) : Type 0 where
  -- float64(n) and int(x)
  pub of_int : Int64 → F
  pub to_int : F → Int64
  pub mul : F → F → F
  pub div : F → F → F
  pub sub : F → F → F
  pub neg : F → F
  pub log : F → F
  pub exp : F → F
  pub pow : F → F → F
  pub ceil : F → F
  pub round : F → F
  -- math.Ln2, the constant math.Ln2 * math.Ln2, and 0.01
  pub ln2 : F
  pub ln2_squared : F
  pub one_percent : F

pub record IsLawful {F : Type 0} (fl : Float64 F) : Type 0 where
  pub to_int_lt : (x : F) → fl.to_int x < 2 ^ 64

-- A stand-in for float64: the whole numbers, with the logarithms that the sizes of the program's
-- filter need, in billionths.
abbrev pub toy_float : Float64 ℕ
toy_float = record {
  of_int = λ n. n;
  to_int = λ x. x % 2 ^ 64;
  mul = λ x y. x * y;
  div = λ x y. x / y;
  sub = λ x y. x - y;
  neg = λ x. 0 - x;
  log = λ x. 1;
  exp = λ x. 1;
  pow = λ x y. x;
  ceil = λ x. 95_851;
  round = λ x. 7;
  ln2 = 1;
  ln2_squared = 1;
  one_percent = 1;
}

pub toy_float-IsLawful : IsLawful toy_float
toy_float-IsLawful = record { to_int_lt = λ x. omega arith }
