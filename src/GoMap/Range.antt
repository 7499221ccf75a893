-- ===== src/GoMap/Range.antt =====
-- A range over a map visits each entry once, in an order that the runtime chooses.
use mathlib.Core.List.{Permᴰ}
use file_sharing_system_with.Prelude.{List}
use file_sharing_system_with.GoMap.{GoMap}

abbrev pub Range {ℓ} : Type ℓ → Type ℓ → Type ℓ
Range K V = GoMap K V → List (K × V)

abbrev pub IsRanging {ℓ} : {K V : Type ℓ} → Range K V → Type ℓ
IsRanging {K = K} {V = V} order = (m : GoMap K V) → Permᴰ (order m) m
