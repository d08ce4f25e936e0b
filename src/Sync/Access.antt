-- ===== src/Sync/Access.antt =====
-- The class ConditionalAccess of corelib/condition.cpp: many sharing, or one that modifies, which
-- holds the mutex from `modify` to `commit`.
pub mod Threads
use commoncpp.Common.{ℕ, ◌+◌, ◌-◌, Bool, true, false, ◌&&◌, ltb, ◌==◌, if◌then◌else◌}
use commoncpp.Sync.{inc32, dec32, Wake, nobody, one, everybody}

pub record Access : Type 0 where
  pub pending : ℕ
  pub waiting : ℕ
  pub sharing : ℕ

-- A thread sleeps, or its call returns.
pub data Outcome : Type 0 where
  sleeps returns : Outcome

unfoldable pub conditional_access : Access
conditional_access = record { pending = 0; waiting = 0; sharing = 0 }

-- The test of the loop in `modify`, at the call and after each wake-up.
unfoldable pub modify : Access → Access × Outcome
modify a =
    if ltb 0 a.sharing then (record a { pending = inc32 a.pending }, sleeps) else (a, returns)

unfoldable pub resume_modify : Access → Access × Outcome
unfolding modify
resume_modify a = modify (record a { pending = dec32 a.pending })

unfoldable pub commit : Access → Wake
commit a = if ltb 0 a.pending then one else if ltb 0 a.waiting then everybody else nobody

-- The test of the loop in `access`, and what follows the loop.
unfoldable pub access : Access → Access × Outcome
access a =
    if ltb 0 a.pending
    then (record a { waiting = inc32 a.waiting }, sleeps)
    else (record a { sharing = inc32 a.sharing }, returns)

unfoldable pub resume_access : Access → Access × Outcome
unfolding access
resume_access a = access (record a { waiting = dec32 a.waiting })

unfoldable pub release : Access → Access × Wake
release a =
    let a' = record a { sharing = dec32 a.sharing } in
    (
      a',
      if ltb 0 a'.pending && (a'.sharing == 0)
          then one
          else if ltb 0 a'.waiting && (a'.pending == 0)
          then everybody
          else nobody,
    )
