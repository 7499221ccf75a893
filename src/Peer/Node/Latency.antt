-- ===== src/Peer/Node/Latency.antt =====
-- The measured latency against its definition as an average.
use Prim.Native.Nat.{max}
use file_sharing_system_with.Prelude.{
  ℕ, zero, suc, ◌+◌, ◌/◌, ◌^◌, ◌<◌, ◌≡◌, refl, Option, none, some, arith, nat_eq, ◌∙◌,
}
use file_sharing_system_with.Word.{Int64, add64_small, div64_small}
use file_sharing_system_with.Peer.Node.{milliseconds, ping_loop, average_latency, measure_latency}

milliseconds_lem : (t : Int64) → t < 2 ^ 61 → milliseconds t ≡ t / 10 ^ 6
unfolding milliseconds
milliseconds_lem t h = div64_small t (10 ^ 6) (omega arith) (omega arith)

average_latency_lem : (t : Int64) → t < 2 ^ 63 → average_latency t ≡ max 1 (t / 3)
unfolding average_latency
average_latency_lem t h = ground (arith, div64_small t 3 h (omega arith))

ping_loop-some :
    (ping : ℕ → Option Int64) (n i total a j total' : ℕ)
    → ping i ≡ some a
    → a < 2 ^ 61
    → total < 2 ^ 62
    → j ≡ i + 1
    → total' ≡ total + a / 10 ^ 6
    → ping_loop ping (suc n) i total ≡ ping_loop ping n j total'
unfolding ping_loop
ping_loop-some ping n i total a j total' e ha ht ej et =
    rw (e, ping_loop, milliseconds_lem a ha, add64_small total (a / 10 ^ 6) (omega arith), ej, et)

-- If three pings of less than 2 ^ 61 nanoseconds succeed, the latency is the rounded average of their
-- milliseconds, and at least one.
pub measure_latency-average :
    (ping : ℕ → Option Int64) (a b c : Int64)
    → ping 0 ≡ some a
    → ping 1 ≡ some b
    → ping 2 ≡ some c
    → a < 2 ^ 61
    → b < 2 ^ 61
    → c < 2 ^ 61
    → measure_latency ping ≡ some (max 1 ((a / 10 ^ 6 + b / 10 ^ 6 + c / 10 ^ 6) / 3))
unfolding measure_latency ping_loop
measure_latency-average ping a b c ea eb ec ha hb hc =
    let total = a / 10 ^ 6 + b / 10 ^ 6 + c / 10 ^ 6 in
    let loop : ping_loop ping 3 0 0 ≡ some total =
      ping_loop-some ping 2 0 0 a 1 (a / 10 ^ 6) ea ha (omega arith) (omega arith) (omega arith)
      ∙ ping_loop-some ping 1 1 (a / 10 ^ 6) b 2 (a / 10 ^ 6 + b / 10 ^ 6) eb hb (omega arith)
          (omega arith) refl
      ∙ ping_loop-some ping 0 2 (a / 10 ^ 6 + b / 10 ^ 6) c 3 total ec hc (omega arith)
          (omega arith) refl in
    rw (loop, measure_latency, average_latency_lem total (omega arith))

-- If one of the three pings fails, there is no latency.
pub measure_latency-none :
    (ping : ℕ → Option Int64) (i : ℕ) → i < 3 → ping i ≡ none → measure_latency ping ≡ none
unfolding measure_latency ping_loop
measure_latency-none ping zero h e = rw (e, measure_latency, ping_loop)
measure_latency-none ping (suc zero) h e = ground (arith, e)
measure_latency-none ping (suc (suc zero)) h e = ground (arith, e)
measure_latency-none ping (suc (suc (suc i))) h e = absurd (omega arith)
