-- ===== src/Sync/Access/Threads.antt =====
-- Threads at a ConditionalAccess, in any interleaving of their calls. A step that begins by taking
-- the mutex is possible only while no thread that modifies holds it.
use commoncpp.Common.{
  ℕ, ◌+◌, ◌-◌, ◌^◌, ◌<◌, ◌≡◌, refl, arith, Bool, true, false, ◌⊎◌, inl, inr, Bool-cases,
}
use commoncpp.Sync.Access.{
  Access, Outcome, sleeps, returns, conditional_access, modify, resume_modify, access,
  resume_access, release,
}

-- The object; the threads that share and whether one modifies; those asleep for either.
pub record World : Type 0 where
  pub state : Access
  pub readers : ℕ
  pub writer : Bool
  pub asleep_modify : ℕ
  pub asleep_access : ℕ

abbrev settle_modify : World → Access × Outcome → World
settle_modify w (a, sleeps) = record w { state = a; asleep_modify = w.asleep_modify + 1 }
settle_modify w (a, returns) = record w { state = a; writer = true }

abbrev settle_access : World → Access × Outcome → World
settle_access w (a, sleeps) = record w { state = a; asleep_access = w.asleep_access + 1 }
settle_access w (a, returns) = record w { state = a; readers = w.readers + 1 }

-- There are fewer threads than an unsigned can count.
abbrev Room : World → Type 0
Room w = w.readers + w.asleep_modify + w.asleep_access + 1 < 2 ^ 32

pub data Step (w u : World) : Type 0 where
  call_modify : Room w → w.writer ≡ false → u ≡ settle_modify w (modify w.state) → Step w u
  wake_modify :
      w.writer ≡ false
      → 0 < w.asleep_modify
      → u ≡ settle_modify (record w { asleep_modify = w.asleep_modify - 1 }) (resume_modify w.state)
      → Step w u
  call_commit : w.writer ≡ true → u ≡ record w { writer = false } → Step w u
  call_access : Room w → w.writer ≡ false → u ≡ settle_access w (access w.state) → Step w u
  wake_access :
      w.writer ≡ false
      → 0 < w.asleep_access
      → u ≡ settle_access (record w { asleep_access = w.asleep_access - 1 }) (resume_access w.state)
      → Step w u
  call_release :
      w.writer ≡ false
      → 0 < w.readers
      → u ≡ record w { state = (release w.state).0; readers = w.readers - 1 }
      → Step w u

pub data Reach (w : World) : World → Type 0 where
  here : Reach w w
  then_step : {u v : World} → Reach w u → Step u v → Reach w v

unfoldable pub start : World
start = record {
  state = conditional_access;
  readers = 0;
  writer = false;
  asleep_modify = 0;
  asleep_access = 0;
}

-- The counters count the threads, and a thread that modifies is alone.
pub record Inv (w : World) : Type 0 where
  pub sharing_is : w.state.sharing ≡ w.readers
  pub pending_is : w.state.pending ≡ w.asleep_modify
  pub waiting_is : w.state.waiting ≡ w.asleep_access
  pub few : w.readers + w.asleep_modify + w.asleep_access < 2 ^ 32
  pub exclusive : w.writer ≡ true → w.readers ≡ 0

Step-Inv : {w u : World} → Step w u → Inv w → Inv u
unfolding modify resume_modify access resume_access release
Step-Inv (call_modify room f e) v = rw e (ground arith)
Step-Inv (wake_modify f h e) v = rw e (ground arith)
Step-Inv (call_commit f e) v = rw e (ground arith)
Step-Inv (call_access room f e) v = rw e (ground arith)
Step-Inv (wake_access f h e) v = rw e (ground arith)
Step-Inv (call_release f h e) v = rw e (ground arith)

Reach-Inv : {w : World} → Reach start w → Inv w
unfolding start conditional_access
Reach-Inv here = record {
  sharing_is = refl;
  pending_is = refl;
  waiting_is = refl;
  few = omega arith;
  exclusive = λ e. refl;
}
Reach-Inv (then_step r s) = Step-Inv s (Reach-Inv r)

-- However threads interleave at a ConditionalAccess, and whenever they wake, none shares while one
-- modifies, and the counters count the threads that share and that are asleep.
pub modify_exclusive :
    {w : World}
    → Reach start w
    → ((w.writer ≡ false) ⊎ (w.readers ≡ 0))
      × (w.state.sharing ≡ w.readers)
      × (w.state.pending ≡ w.asleep_modify)
      × (w.state.waiting ≡ w.asleep_access)
modify_exclusive {w} r =
    let v = Reach-Inv r in
    (
      elim (Bool-cases w.writer) [ inl e ↦ inr (v.exclusive e) | inr e ↦ inl e ],
      v.sharing_is,
      v.pending_is,
      v.waiting_is,
    )
