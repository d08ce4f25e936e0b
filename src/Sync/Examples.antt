-- ===== src/Sync/Examples.antt =====
-- Tests of the objects of condition.cpp, and the theorems at short runs of them.
use commoncpp.Common.{◌+◌, ◌*◌, ◌≤◌, ◌<◌, ◌≡◌, ◌↔◌, ◌⊎◌, refl, arith, true, false, [], ◌∷◌}
use commoncpp.Sync.{one}
use commoncpp.Sync.Semaphore
use commoncpp.Sync.Semaphore.{Sem, enter_timed, enter_plain, resume_plain, release, set_limit}
use commoncpp.Sync.Semaphore.Threads as Callers
use commoncpp.Sync.Semaphore.Threads.{timed_waits_bounded, plain_wait_overruns}
use commoncpp.Sync.Barrier.{Barrier, barrier, arrivals}
use commoncpp.Sync.Barrier.Rounds.{arrivals_rounds}
use commoncpp.Sync.Access
use commoncpp.Sync.Lock
use commoncpp.Sync.Lock.{Lock, Context}
use commoncpp.Sync.Lock.Reentry.{held, access-returns}
use commoncpp.Sync.Access.{Access, modify, access, resume_access, commit}
use commoncpp.Sync.Access.Threads as Sharers
use commoncpp.Sync.Access.Threads.{modify_exclusive}

-- One thread inside a semaphore for one, and another asleep.
abbrev full : Callers.World
full = record { sem = record { count = 1; waits = 1; used = 1 }; inside = 1; timed = 1; plain = 0 }

full-Reach : Callers.Reach (Callers.start 1) full
unfolding Callers.start Semaphore.semaphore enter_timed
full-Reach =
    Callers.then_step (Callers.then_step Callers.here (Callers.call (omega arith) refl))
      (Callers.call (omega arith) refl)

timed_waits_bounded_example :
    (full.inside ≤ 1) × (full.sem.used ≡ full.inside) × (full.sem.waits ≡ full.timed)
timed_waits_bounded_example = timed_waits_bounded 1 (omega arith) (omega arith) full-Reach

abbrev busy : Sem
busy = record { count = 2; waits = 0; used = 2 }

plain_wait_overruns_example :
    let s1 = (enter_plain busy).0 in
    let s2 = (release s1).0 in
    let s3 = (enter_plain s2).0 in
    let s4 = (resume_plain s3).0 in
    ((enter_plain busy).1 ≡ Semaphore.sleeps)
    × ((release s1).1 ≡ one)
    × ((enter_plain s2).1 ≡ Semaphore.returns true)
    × ((resume_plain s3).1 ≡ Semaphore.returns true)
    × (s4.used ≡ busy.count + 1)
    × (s4.waits ≡ busy.waits)
plain_wait_overruns_example =
    plain_wait_overruns busy (omega arith) (omega arith) (omega arith) refl

-- A barrier for three at which two wait.
abbrev two_wait : Barrier
two_wait = record { count = 3; waits = 2 }

arrivals_rounds_example :
    let (b, opened) = arrivals 7 (barrier 3) in (opened * 3 + b.waits ≡ 7) × (b.waits < 3)
arrivals_rounds_example = arrivals_rounds 3 7 (omega arith) (omega arith)

-- One thread shares, and another waits to modify.
abbrev shared : Sharers.World
shared = record {
  state = record { pending = 1; waiting = 0; sharing = 1 };
  readers = 1;
  writer = false;
  asleep_modify = 1;
  asleep_access = 0;
}

shared-Reach : Sharers.Reach Sharers.start shared
unfolding Sharers.start Access.conditional_access modify access
shared-Reach =
    Sharers.then_step (Sharers.then_step Sharers.here (Sharers.call_access (omega arith) refl refl))
      (Sharers.call_modify (omega arith) refl refl)

modify_exclusive_example :
    ((shared.writer ≡ false) ⊎ (shared.readers ≡ 0))
    × (shared.state.sharing ≡ 1)
    × (shared.state.pending ≡ 1)
    × (shared.state.waiting ≡ 0)
modify_exclusive_example = modify_exclusive shared-Reach

-- One thread shares, another waits to modify, and the first calls again.
abbrev locked : Lock
locked = record {
  state = record { pending = 1; waiting = 0; sharing = 1 };
  contexts = record { thread = 7; count = 1 } ∷ [];
}

reentry_runs :
    ((Lock.access 7 locked).1 ≡ Access.returns)
    × ((Lock.access 8 locked).1 ≡ Access.sleeps)
    × ((Lock.modify 7 locked).1 ≡ Access.returns)
    × ((Lock.commit 7 (Lock.modify 7 locked).0).0.state ≡ locked.state)
unfolding Lock.access Lock.modify Lock.commit Lock.get_context Lock.scan Lock.claim modify
reentry_runs = (refl, refl, refl, refl)

access-returns_example :
    ((Lock.access 7 locked).1 ≡ Access.returns)
    ↔ ((0 < held 7 locked.contexts) ⊎ (locked.state.pending ≡ 0))
unfolding held
access-returns_example = access-returns 7 locked (omega arith)
