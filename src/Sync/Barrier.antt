-- ===== src/Sync/Barrier.antt =====
-- The class Barrier of corelib/condition.cpp. The timed wait differs from the plain one in its
-- result alone, which the condition gives; the destructor wakes all, which ends no call.
pub mod Rounds
use commoncpp.Common.{ℕ, zero, suc, ◌+◌, ◌-◌, Bool, true, false, ltb, leb, ◌==◌, if◌then◌else◌}
use commoncpp.Sync.{inc32, Wake, nobody, everybody}

pub record Barrier : Type 0 where
  pub count : ℕ
  pub waits : ℕ

unfoldable pub barrier : ℕ → Barrier
barrier limit = record { count = limit; waits = 0 }

-- `if(count <= waits) { waits = 0; broadcast(); }`
abbrev open_if_met : Barrier → Barrier × Wake
open_if_met b = if leb b.count b.waits then (record b { waits = 0 }, everybody) else (b, nobody)

unfoldable pub set : ℕ → Barrier → Barrier × Wake
set limit b = open_if_met (record b { count = limit })

-- `dec` and `operator--`, which return nothing and the new count.
unfoldable pub dec : Barrier → Barrier
dec b = if ltb 0 b.count then record b { count = b.count - 1 } else b

-- `inc` and `operator++`.
unfoldable pub inc : Barrier → Barrier × Wake
inc b = open_if_met (record b { count = inc32 b.count })

-- What a thread's `wait` does up to its sleep: pass an open barrier, open it, or sleep.
pub data Arrival : Type 0 where
  passes opens sleeps : Arrival

unfoldable pub wait : Barrier → Barrier × Arrival
wait b =
    let w = inc32 b.waits in
    if b.count == 0
    then (b, passes)
    else if leb b.count w
    then (record b { waits = 0 }, opens)
    else (record b { waits = w }, sleeps)

-- The barrier after `n` threads have arrived one after another, and how often it opened.
abbrev pub count_opening : ℕ → Barrier × Arrival → Barrier × ℕ
count_opening k (b, opens) = (b, k + 1)
count_opening k (b, passes) = (b, k)
count_opening k (b, sleeps) = (b, k)

pub arrivals : ℕ → Barrier → Barrier × ℕ
arrivals zero b = (b, 0)
arrivals (suc n) b = let r = arrivals n b in count_opening r.1 (wait r.0)
