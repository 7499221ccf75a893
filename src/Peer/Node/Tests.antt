-- ===== src/Peer/Node/Tests.antt =====
-- Runs of the node's operations, and the theorems at concrete pings.
use Prim.Native.Nat.{max}
use file_sharing_system_with.Prelude.{ℕ, ◌+◌, ◌*◌, ◌/◌, ◌^◌, ◌≡◌, refl, Option, some, arith}
use file_sharing_system_with.Word.{Int64, add64, div64}
use file_sharing_system_with.Peer.Node.{milliseconds, ping_loop, average_latency, measure_latency}
use file_sharing_system_with.Peer.Node.Latency.{measure_latency-average}

abbrev pings : ℕ → Option Int64
pings i = some ((i + 3) * 10 ^ 6)

runs : (measure_latency pings ≡ some 4) × (measure_latency (λ i. some 9) ≡ some 1)
unfolding measure_latency ping_loop average_latency milliseconds add64 div64
runs = (refl, refl)

measure_latency-average_example :
    measure_latency pings
    ≡ some (max 1 ((3_000_000 / 10 ^ 6 + 4_000_000 / 10 ^ 6 + 5_000_000 / 10 ^ 6) / 3))
measure_latency-average_example =
    measure_latency-average pings 3_000_000 4_000_000 5_000_000 refl refl refl (omega arith)
      (omega arith) (omega arith)
