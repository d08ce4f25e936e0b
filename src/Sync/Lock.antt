-- ===== src/Sync/Lock.antt =====
-- The class ConditionalLock of corelib/condition.cpp: a ConditionalAccess that knows, by its list of
-- contexts, how many times each thread shares. A thread is its number.
pub mod Reentry
use commoncpp.Common.{
  ℕ, zero, suc, ◌+◌, ◌-◌, ◌%◌, ◌^◌, Bool, true, false, not, ◌&&◌, List, [], ◌∷◌, ◌++◌, length,
  Option, none, some, ltb, ◌==◌, if◌then◌else◌, set, get_or,
}
use commoncpp.Sync.{inc32, dec32, Wake, nobody, one, everybody}
use commoncpp.Sync.Access
use commoncpp.Sync.Access.{Access, Outcome, sleeps, returns}

pub record Context : Type 0 where
  pub thread : ℕ
  pub count : ℕ

pub record Lock : Type 0 where
  pub state : Access
  pub contexts : List Context

unfoldable pub conditional_lock : Lock
conditional_lock = record { state = Access.conditional_access; contexts = [] }

-- The loop of `getContext`: the thread's own context, else the last met that nobody uses. New
-- contexts come first in the list of the code. Here they come last, so that a context keeps its
-- place, and the loop goes from the end of the list to its beginning.
pub data Found : Type 0 where
  own : ℕ → Found
  slot : Option ℕ → Found

abbrev pub met : ℕ → Context → ℕ → Found → Found
met tid c at (own i) = own i
met tid c at (slot unused) =
    if not (c.count == 0) && (c.thread == tid)
    then own at
    else if c.count == 0
    then slot (some at)
    else slot unused

unfoldable pub scan : ℕ → List Context → ℕ → Found
scan tid [] at = slot none
scan tid (c ∷ cs) at = met tid c at (scan tid cs (at + 1))

abbrev no_context : Context
no_context = record { thread = 0; count = 0 }

abbrev pub context_at : List Context → ℕ → Context
context_at cs i = get_or cs i no_context

-- `getContext`: the list, and the place of the context in it; a new one has no shares yet.
unfoldable pub claim : ℕ → List Context → Found → List Context × ℕ
claim tid cs (own i) = (set cs i (record (context_at cs i) { thread = tid }), i)
claim tid cs (slot (some i)) = (set cs i (record (context_at cs i) { thread = tid }), i)
claim tid cs (slot none) = (cs ++ (record { thread = tid; count = 0 } ∷ []), length cs)

unfoldable pub get_context : ℕ → List Context → List Context × ℕ
unfolding scan claim
get_context tid cs = claim tid cs (scan tid cs 0)

abbrev pub set_count : List Context → ℕ → ℕ → List Context
set_count cs i n = set cs i (record (context_at cs i) { count = n })

-- The sum and the difference of two unsigned numbers.
abbrev plus32 : ℕ → ℕ → ℕ
plus32 a b = (a + b) % 2 ^ 32

abbrev minus32 : ℕ → ℕ → ℕ
minus32 a b = (a + 2 ^ 32 - b) % 2 ^ 32

-- `modify` and `exclusive` up to the wait: what the thread shares does not count against it. The
-- place of the context is kept for the rest.
abbrev leave_shares : ℕ → Lock → Lock × ℕ
leave_shares tid l =
    let (cs, i) = get_context tid l.contexts in
    let a = record l.state { sharing = minus32 l.state.sharing (context_at cs i).count } in
    (record { state = a; contexts = cs }, i)

-- The end of `modify`.
abbrev count_in : ℕ → Lock × Outcome → Lock × Outcome
count_in i (l, sleeps) = (l, sleeps)
count_in i (l, returns) = (
  record l { contexts = set_count l.contexts i (inc32 (context_at l.contexts i).count) },
  returns,
)

abbrev try_alone : Lock → Access × Outcome → Lock × Outcome
try_alone l (a, o) = (record l { state = a }, o)

unfoldable pub modify : ℕ → Lock → Lock × Outcome
modify tid l =
    let (l', i) = leave_shares tid l in count_in i (try_alone l' (Access.modify l'.state))

unfoldable pub resume_modify : ℕ → Lock → Lock × Outcome
resume_modify i l = count_in i (try_alone l (Access.resume_modify l.state))

unfoldable pub exclusive : ℕ → Lock → Lock × Outcome
exclusive tid l = let (l', i) = leave_shares tid l in try_alone l' (Access.modify l'.state)

unfoldable pub resume_exclusive : Lock → Lock × Outcome
resume_exclusive l = try_alone l (Access.resume_modify l.state)

-- `commit`: the thread goes on sharing if it did, else it wakes those that wait.
unfoldable pub commit : ℕ → Lock → Lock × Wake
commit tid l =
    let (cs, i) = get_context tid l.contexts in
    let n = dec32 (context_at cs i).count in
    let l' : Lock = record l { contexts = set_count cs i n } in
    if n == 0
    then (l', Access.commit l.state)
    else (record l' { state = record l.state { sharing = plus32 l.state.sharing n } }, nobody)

-- `share`, which turns an exclusive hold into a shared one.
unfoldable pub share : ℕ → Lock → Lock
share tid l =
    let (cs, i) = get_context tid l.contexts in
    record {
      state = record l.state { sharing = plus32 l.state.sharing (context_at cs i).count };
      contexts = cs;
    }

-- The loop of `access`, and what follows it; the context is counted before.
abbrev enter : ℕ → Lock → Lock × Outcome
enter i l =
    if ltb (context_at l.contexts i).count 2 && ltb 0 l.state.pending
    then (record l { state = record l.state { waiting = inc32 l.state.waiting } }, sleeps)
    else (record l { state = record l.state { sharing = inc32 l.state.sharing } }, returns)

unfoldable pub access : ℕ → Lock → Lock × Outcome
access tid l =
    let (cs, i) = get_context tid l.contexts in
    enter i (record l { contexts = set_count cs i (inc32 (context_at cs i).count) })

unfoldable pub resume_access : ℕ → Lock → Lock × Outcome
resume_access i l =
    enter i (record l { state = record l.state { waiting = dec32 l.state.waiting } })

unfoldable pub release : ℕ → Lock → Lock × Wake
release tid l =
    let (cs, i) = get_context tid l.contexts in
    let (a, wake) = Access.release l.state in
    (record { state = a; contexts = set_count cs i (dec32 (context_at cs i).count) }, wake)
