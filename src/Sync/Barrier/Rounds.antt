-- ===== src/Sync/Barrier/Rounds.antt =====
-- When a barrier opens.
use commoncpp.Common.{ℕ, zero, suc, ◌+◌, ◌*◌, ◌^◌, ◌<◌, ◌≡◌, refl, ◌∙◌, arith, ◌⊎◌, inl, inr}
use commoncpp.Sync.Barrier.{Barrier, barrier, dec, opens, sleeps, wait, arrivals, count_opening}

-- Fewer threads wait than are required, so none of them waits in vain.
pub record IsClosed (b : Barrier) : Type 0 where
  pub below : b.waits < b.count
  pub fits : b.count < 2 ^ 32

-- `wait` keeps a barrier so, and opens it just when the last required thread arrives.
pub wait-IsClosed :
    (b : Barrier)
    → IsClosed b
    → IsClosed (wait b).0
      × ((wait b).0.count ≡ b.count)
      × (((b.waits + 1 ≡ b.count) × ((wait b).1 ≡ opens) × ((wait b).0.waits ≡ 0))
          ⊎ ((b.waits + 1 < b.count) × ((wait b).1 ≡ sleeps) × ((wait b).0.waits ≡ b.waits + 1)))
unfolding wait
wait-IsClosed b v = (ground arith, ground arith, ground arith)

record Count (n k : ℕ) (r : Barrier × ℕ) : Type 0 where
  closed : IsClosed r.0
  size : r.0.count ≡ n
  rounds : r.1 * n + r.0.waits ≡ k

full_round : (q n w k : ℕ) → q * n + w ≡ k → w + 1 ≡ n → (q + 1) * n + 0 ≡ suc k
full_round q n w k e f = omega arith

arrivals-Count : (n k : ℕ) → 0 < n → n < 2 ^ 32 → Count n k (arrivals k (barrier n))
unfolding arrivals barrier
arrivals-Count n zero h0 h = record {
  closed = record { below = h0; fits = h };
  size = refl;
  rounds = omega arith;
}
arrivals-Count n (suc k) h0 h = step (arrivals k (barrier n)) (arrivals-Count n k h0 h)
  where
    step : (r : Barrier × ℕ) → Count n k r → Count n (suc k) (count_opening r.1 (wait r.0))
    step r v = elim (wait-IsClosed r.0 v.closed).2 [
      | inl (e, o, z) ↦ record {
        closed = ground (arith, wait-IsClosed r.0 v.closed);
        size = ground (arith, wait-IsClosed r.0 v.closed, v.size);
        rounds = rw (o, z) (full_round r.1 n r.0.waits k v.rounds (e ∙ v.size));
      }
      | inr (e, o, z) ↦ record {
        closed = ground (arith, wait-IsClosed r.0 v.closed);
        size = ground (arith, wait-IsClosed r.0 v.closed, v.size);
        rounds = ground (arith, v.rounds);
      }
    ]

-- Of k calls of `wait` on a new barrier for n threads, n at least 1 and below 2 ^ 32, where nothing
-- else changes its state, as many open it as full rounds of n are in k, and its count of waiting
-- threads is then the rest, which is below n. What the threads that are woken or time out do is no
-- part of it.
pub arrivals_rounds :
    (n k : ℕ)
    → 0 < n
    → n < 2 ^ 32
    → let (b, opened) = arrivals k (barrier n) in (opened * n + b.waits ≡ k) × (b.waits < n)
arrivals_rounds n k h0 h =
    let v = arrivals-Count n k h0 h in (v.rounds, omega (arith, v.closed.below, v.size))

-- `dec` wakes nobody: at a barrier at which one thread only is missing, as many wait after it as
-- are required.
pub dec_strands :
    (b : Barrier)
    → 0 < b.waits
    → b.waits + 1 ≡ b.count
    → ((dec b).waits ≡ b.waits) × ((dec b).count ≡ b.waits)
unfolding dec
dec_strands b h e = (ground arith, ground arith)
