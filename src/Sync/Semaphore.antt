-- ===== src/Sync/Semaphore.antt =====
-- The class Semaphore of corelib/condition.cpp.
pub mod Threads
use commoncpp.Common.{ℕ, ◌+◌, ◌-◌, Bool, true, false, ◌&&◌, ◌||◌, ltb, leb, ◌==◌, if◌then◌else◌}
use commoncpp.Sync.{inc32, dec32, Wake, nobody, one, everybody}

pub record Sem : Type 0 where
  pub count : ℕ
  pub waits : ℕ
  pub used : ℕ

-- A thread sleeps in `Conditional::wait`, or its call returns.
pub data Outcome : Type 0 where
  sleeps : Outcome
  returns : Bool → Outcome

unfoldable pub semaphore : ℕ → Sem
semaphore limit = record { count = limit; waits = 0; used = 0 }

unfoldable pub semaphore_avail : ℕ → ℕ → Sem
semaphore_avail limit avail = record { count = limit; waits = 0; used = limit - avail }

-- The test of the loop in `wait(timeout_t)`, and what follows the loop.
abbrev loop_timed : Bool → Sem → Sem × Outcome
loop_timed result s =
    if leb s.count s.used && result
    then (record s { waits = inc32 s.waits }, sleeps)
    else if result && ltb 0 s.count
    then (record s { used = inc32 s.used }, returns result)
    else (s, returns result)

unfoldable pub enter_timed : Sem → Sem × Outcome
enter_timed s = loop_timed true s

-- Awake again: `result` is false if the time ran out.
unfoldable pub resume_timed : Bool → Sem → Sem × Outcome
resume_timed result s =
    let s' = record s { waits = dec32 s.waits } in
    if s'.count == 0 then (s', returns result) else loop_timed result s'

-- The end of `wait()`.
abbrev pass : Sem → Sem × Outcome
pass s =
    if ltb 0 s.count then (record s { used = inc32 s.used }, returns true) else (s, returns true)

unfoldable pub enter_plain : Sem → Sem × Outcome
enter_plain s = if leb s.count s.used then (record s { waits = inc32 s.waits }, sleeps) else pass s

unfoldable pub resume_plain : Sem → Sem × Outcome
resume_plain s = pass (record s { waits = dec32 s.waits })

unfoldable pub release : Sem → Sem × Wake
release s =
    let s' = if ltb 0 s.used then record s { used = s.used - 1 } else s in
    (s', if ltb 0 s'.waits then (if ltb 0 s'.count then one else everybody) else nobody)

-- The limit is set, and that many single waiters are signalled.
unfoldable pub set_limit : ℕ → Sem → Sem × ℕ
set_limit value s =
    let s' = record s { count = value } in
    let diff = s'.count - s'.used in
    if leb s'.count s'.used || (s'.waits == 0)
    then (s', 0)
    else (s', if ltb s'.waits diff then s'.waits else diff)
