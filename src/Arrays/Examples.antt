-- ===== src/Arrays/Examples.antt =====
-- Arrays of four slots: a queue, a stack, and a queue that keeps its last object.
use commoncpp.Common.{
  ℕ, ◌+◌, ◌≡◌, refl, arith, true, false, ◌&&◌, List, [], ◌∷◌, none, some, ltb, ◌==◌, if◌then◌else◌,
  ◌>>=◌,
}
use commoncpp.Linked.{Ptr, null}
use commoncpp.Refs.{Objects, retain, release, retain_any, release_any, clear}
use commoncpp.Refs.Counts.{one}
use commoncpp.Arrays.{
  Mode, plain, stack, queue, fallback, Array, waits, done, create, assign, push, pull, pop,
  assign_from, reset, clear_array, assign_at, get, release_all, copy_from, resize, realloc, is_set,
  array_ref,
}
use commoncpp.Arrays.Ring.{IsRing, contents, AllCounted}
use commoncpp.Arrays.Runs.{Call, put, take, run, bounded, gained, AreHeld, IsQueue, run-bounded}
use commoncpp.Arrays.Stacks.{push-pull, pull-uncounted}

-- Three objects with a reference outside the array to each.
abbrev held : Ptr → ℕ
held p = if ltb 0 p && ltb p 4 then 1 else 0

abbrev objects : Objects
objects = record { live = λ p. ltb 0 p && ltb p 4; refs = held }

abbrev empty : Mode → Array
empty m = record { mode = m; size = 4; head = 0; tail = 0; slots = null ∷ null ∷ null ∷ null ∷ [] }

empty-IsRing : (m : Mode) → IsRing (empty m)
empty-IsRing m = record { slots_are = refl; head_in = omega arith; tail_in = omega arith }

empty-AllCounted : (m : Mode) → AllCounted objects (empty m) held
empty-AllCounted m = record {
  counts = λ p n l. ground arith;
  lives = λ p n h. ground (arith, h, n);
}

empty-IsQueue : IsQueue objects (empty queue) held []
empty-IsQueue = record {
  mode_is = refl;
  ring = empty-IsRing queue;
  contents_are = refl;
  no_null = tt;
  counted = empty-AllCounted queue;
}

-- The fourth object that is pushed waits, and so does the last that is pulled.
abbrev calls : List Call
calls = put 1 ∷ put 2 ∷ take ∷ put 3 ∷ put 1 ∷ put 2 ∷ take ∷ take ∷ take ∷ take ∷ []

calls-AreHeld : AreHeld held calls
calls-AreHeld = (
  ground arith,
  ground arith,
  (
    ground arith,
    ground arith,
    (ground arith, ground arith, (ground arith, ground arith, (ground arith, ground arith, tt))),
  ),
)

calls-bounded : bounded 3 [] calls ≡ (
  (done, null)
      ∷ (done, null)
      ∷ (done, 1)
      ∷ (done, null)
      ∷ (done, null)
      ∷ (waits, null)
      ∷ (done, 2)
      ∷ (done, 3)
      ∷ (done, 1)
      ∷ (waits, null)
      ∷ [],
  [],
)
unfolding bounded
calls-bounded = refl

run-bounded_example :
    (o : Objects) × (a : Array) × (run objects (empty queue) calls
      ≡ some ((bounded 3 [] calls).0, o, a))
    × IsQueue o a (λ p. held p + gained (bounded 3 [] calls).0 p) (bounded 3 [] calls).1
run-bounded_example = run-bounded objects (empty queue) held [] calls empty-IsQueue calls-AreHeld

push-pull_example :
    (o : Objects) × (b : Array) × (c : Array) × (push objects (empty stack) 2 ≡ some (o, b, done))
    × (pull b ≡ (c, done, 2))
    × (contents c ≡ [])
    × IsRing c
    × AllCounted o c (λ p. held p + one 2 p)
push-pull_example =
    push-pull objects (empty stack) 2 held refl (empty-IsRing stack) (omega arith)
      (empty-AllCounted stack) (ground arith) refl

-- The array has the only reference to the object.
abbrev last_one : Array
last_one = record (empty fallback) { tail = 1; slots = 1 ∷ null ∷ null ∷ null ∷ [] }

last_one-AllCounted : AllCounted (record objects { live = λ p. p == 1 }) last_one (λ p. 0)
last_one-AllCounted = record {
  counts = λ p n l. ground (arith, l);
  lives = λ p n h. ground (arith, h);
}

pull-uncounted_example :
    (pull last_one ≡ (last_one, done, 1))
    × (o : Objects) × (clear (record objects { live = λ p. p == 1 }) 1 ≡ some (o, null))
    × (o.live 1 ≡ false)
pull-uncounted_example =
    pull-uncounted (record objects { live = λ p. p == 1 }) last_one 1 (λ p. 0) refl
      (record { slots_are = refl; head_in = omega arith; tail_in = omega arith }) refl
      last_one-AllCounted (ground arith) refl refl

-- A queue that goes round the end: its second object is there, but is not found.
abbrev round : Array
round = record (empty queue) { head = 3; tail = 2; slots = 2 ∷ 3 ∷ null ∷ 1 ∷ [] }

-- The objects of `round`, one that is found, and what `clear`, `pop` and `resize` do.
rounds :
    (contents round ≡ 1 ∷ 2 ∷ 3 ∷ [])
    × (get round 1 ≡ 2)
    × (clear_array objects round ≡ some (objects, round))
    × ((pop objects round >>= λ (o, a). some (a.head ∷ a.tail ∷ [])) ≡ some (0 ∷ 2 ∷ []))
    × ((pop objects (record round { mode = stack }) >>= λ (o, a). some (a.slots))
        ≡ some (2 ∷ null ∷ null ∷ 1 ∷ []))
    × ((resize objects round 0 true >>= λ (o, a). some a.size) ≡ none)
    × ((realloc objects round 2 true >>= λ (o, a). some (o.live 1)) ≡ some false)
unfolding get clear_array reset pop assign resize realloc create release_all retain_any release_any
    retain release
rounds = (refl, refl, refl, refl, refl, refl, refl)

-- A plain array: all slots set, one changed, and the array made smaller.
plain_array :
    ((array_ref objects plain 3 1 >>= λ (o, a). assign_at o a 1 2 >>= λ (p, b). some b.slots)
      ≡ some (1 ∷ 2 ∷ 1 ∷ []))
    × ((array_ref objects plain 3 1 >>= λ (o, a).
          reset o a 3 >>= λ (p, b). some (p.refs 1 ∷ p.refs 3 ∷ b.slots))
        ≡ some (1 ∷ 4 ∷ 3 ∷ 3 ∷ 3 ∷ []))
    × ((array_ref objects plain 3 1 >>= λ (o, a).
          resize o a 2 true >>= λ (p, b). some (p.refs 1 ∷ b.tail ∷ b.slots))
        ≡ some (3 ∷ 2 ∷ 1 ∷ 1 ∷ []))
    × ((array_ref objects plain 3 1 >>= λ (o, a). some (is_set a 2 ∷ is_set a 3 ∷ []))
        ≡ some (true ∷ false ∷ []))
unfolding array_ref create assign_from assign_at assign reset resize copy_from release_all get
    retain_any release_any retain release
plain_array = (refl, refl, refl, refl)
