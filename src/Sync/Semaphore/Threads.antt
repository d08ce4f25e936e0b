-- ===== src/Sync/Semaphore/Threads.antt =====
-- Threads at a semaphore, in any interleaving of their calls.
use commoncpp.Common.{ℕ, ◌+◌, ◌-◌, ◌^◌, ◌≤◌, ◌<◌, ◌≡◌, refl, arith, Bool, true, false}
use commoncpp.Sync.{one}
use commoncpp.Sync.Semaphore.{
  Sem, Outcome, sleeps, returns, semaphore, enter_timed, resume_timed, enter_plain, resume_plain,
  release,
}

-- The semaphore, the threads that have passed it, and those asleep in a timed and a plain wait.
pub record World : Type 0 where
  pub sem : Sem
  pub inside : ℕ
  pub timed : ℕ
  pub plain : ℕ

-- A thread's call, or its wake-up, has gone as far as it can.
abbrev settle_timed : World → Sem × Outcome → World
settle_timed w (s, sleeps) = record w { sem = s; timed = w.timed + 1 }
settle_timed w (s, returns true) = record w { sem = s; inside = w.inside + 1 }
settle_timed w (s, returns false) = record w { sem = s }

abbrev settle_plain : World → Sem × Outcome → World
settle_plain w (s, sleeps) = record w { sem = s; plain = w.plain + 1 }
settle_plain w (s, returns b) = record w { sem = s; inside = w.inside + 1 }

-- There are fewer threads than an unsigned can count.
abbrev Room : World → Type 0
Room w = w.timed + w.plain + 1 < 2 ^ 32

-- One thread's step; the waits are timed ones.
pub data TimedStep (w u : World) : Type 0 where
  call : Room w → u ≡ settle_timed w (enter_timed w.sem) → TimedStep w u
  wake :
      (result : Bool)
      → 0 < w.timed
      → u ≡ settle_timed (record w { timed = w.timed - 1 }) (resume_timed result w.sem)
      → TimedStep w u
  leave :
      0 < w.inside → u ≡ record w { sem = (release w.sem).0; inside = w.inside - 1 } → TimedStep w u

pub data Reach (w : World) : World → Type 0 where
  here : Reach w w
  then_step : {u v : World} → Reach w u → TimedStep u v → Reach w v

pub record Inv (limit : ℕ) (w : World) : Type 0 where
  pub limited : (0 < limit) × (limit < 2 ^ 32)
  pub fixed : w.sem.count ≡ limit
  pub none_plain : w.plain ≡ 0
  pub held : w.sem.used ≡ w.inside
  pub asleep : w.sem.waits ≡ w.timed + w.plain
  pub few : w.timed + w.plain < 2 ^ 32
  pub within : w.sem.used ≤ w.sem.count

TimedStep-Inv : {limit : ℕ} {w u : World} → TimedStep w u → Inv limit w → Inv limit u
unfolding enter_timed resume_timed release
TimedStep-Inv (call room e) v = rw e (ground arith)
TimedStep-Inv (wake true h e) v = rw e (ground arith)
TimedStep-Inv (wake false h e) v = rw e (ground arith)
TimedStep-Inv (leave h e) v = rw e (ground arith)

unfoldable pub start : ℕ → World
start limit = record { sem = semaphore limit; inside = 0; timed = 0; plain = 0 }

Reach-Inv : {limit : ℕ} {w u : World} → Inv limit w → Reach w u → Inv limit u
Reach-Inv v here = v
Reach-Inv v (then_step r s) = TimedStep-Inv s (Reach-Inv v r)

-- However threads with timed waits interleave at a semaphore with a limit, and whenever they wake,
-- no more threads are inside it than its limit allows, and its counters count the threads inside
-- and asleep.
pub timed_waits_bounded :
    (limit : ℕ) {w : World}
    → 0 < limit
    → limit < 2 ^ 32
    → Reach (start limit) w
    → (w.inside ≤ limit) × (w.sem.used ≡ w.inside) × (w.sem.waits ≡ w.timed)
unfolding start semaphore
timed_waits_bounded limit {w} h0 h r = omega (arith, Reach-Inv begin r)
  where
    begin : Inv limit (start limit)
    begin = record {
      limited = (h0, h);
      fixed = refl;
      none_plain = refl;
      held = refl;
      asleep = refl;
      few = omega arith;
      within = omega arith;
    }

-- With plain waits it is otherwise: at a full semaphore one thread begins a plain wait, another
-- leaves, a third enters in its place and the first wakes, and one more is inside than the limit.
pub plain_wait_overruns :
    (s : Sem)
    → 0 < s.count
    → s.count + 1 < 2 ^ 32
    → s.waits + 1 < 2 ^ 32
    → s.used ≡ s.count
    → let s1 = (enter_plain s).0 in
      let s2 = (release s1).0 in
      let s3 = (enter_plain s2).0 in
      let s4 = (resume_plain s3).0 in
      ((enter_plain s).1 ≡ sleeps)
      × ((release s1).1 ≡ one)
      × ((enter_plain s2).1 ≡ returns true)
      × ((resume_plain s3).1 ≡ returns true)
      × (s4.used ≡ s.count + 1)
      × (s4.waits ≡ s.waits)
unfolding enter_plain release resume_plain
plain_wait_overruns s h0 h hw e =
    (ground arith, ground arith, ground arith, ground arith, ground arith, ground arith)
