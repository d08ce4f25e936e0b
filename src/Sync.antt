-- ===== src/Sync.antt =====
-- corelib/condition.cpp: the objects built from a mutex and a condition. The code between two
-- points at which a thread holds the mutex is one function here, and `Conditional::wait` splits a
-- function in two: what runs up to it, and what runs once the thread is awake again. POSIX lets a
-- waiting thread wake at any time, signalled or not.
pub mod Semaphore
pub mod Access
pub mod Barrier
pub mod Lock
mod Examples
use commoncpp.Common.{ℕ, ◌+◌, ◌-◌, ◌%◌, ◌^◌}

-- `++` and `--` on an unsigned.
abbrev pub inc32 : ℕ → ℕ
inc32 x = (x + 1) % 2 ^ 32

abbrev pub dec32 : ℕ → ℕ
dec32 x = (x + 2 ^ 32 - 1) % 2 ^ 32

-- Which waiting threads a function wakes.
pub data Wake : Type 0 where
  nobody one everybody : Wake
