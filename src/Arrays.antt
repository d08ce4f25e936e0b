-- ===== src/Arrays.antt =====
-- corelib/arrayref.cpp: an array of references that is a plain array, a stack, a queue, or a queue that
-- keeps its last object. A function that holds the lock is one function. One that waits for room or
-- for an object is one turn of its loop; with a timeout the turn that waits is the one that gives up.
pub mod Slots
pub mod Ring
pub mod Runs
pub mod Stacks
mod Examples
use commoncpp.Common.{
  ℕ, zero, suc, ◌+◌, ◌-◌, ◌≤◌, ◌<◌, Bool, true, false, not, ◌&&◌, ◌||◌, List, [], ◌∷◌, Option, none,
  some, ltb, leb, ◌==◌, if◌then◌else◌, ◌>>=◌, length, set, get_or, replicate,
}
use commoncpp.Linked.{Ptr, null}
use commoncpp.Refs.{Objects, retain_any, release_any, clear}

pub data Mode : Type 0 where
  plain : Mode
  stack : Mode
  queue : Mode
  fallback : Mode

pub record Array : Type 0 where
  pub mode : Mode
  pub size : ℕ
  pub head : ℕ
  pub tail : ℕ
  pub slots : List Ptr

-- What a turn comes to: the array is none to push to or pull from, the caller waits, or it is done.
pub data Turn : Type 0 where
  refused : Turn
  waits : Turn
  done : Turn

abbrev pub is_plain : Mode → Bool
is_plain plain = true
is_plain stack = false
is_plain queue = false
is_plain fallback = false

-- `create`, for a size other than 0, and the constructor of the array.
unfoldable pub create : Mode → ℕ → Option Array
create mode size =
    if size == 0
    then none
    else some (record {
      mode = mode;
      size = size;
      head = 0;
      tail = if is_plain mode then size else 0;
      slots = replicate size null;
    })

abbrev pub count : Array → ℕ
count a = if leb a.head a.tail then a.tail - a.head else a.tail + a.size - a.head

abbrev pub slot : Array → ℕ → Ptr
slot a index = if leb a.size index then null else get_or a.slots index null

unfoldable pub remove : Array → ℕ → Array × Ptr
remove a index =
    if leb a.size index
    then (a, null)
    else (record a { slots = set a.slots index null }, slot a index)

unfoldable pub assign : Objects → Array → ℕ → Ptr → Option (Objects × Array)
assign o a index object =
    let stored = (do
      o1 ← retain_any o object
      o2 ← release_any o1 (slot a index)
      some (o2, record a { slots = set a.slots index object })) in
    if leb a.size index then some (o, a) else stored

-- The place after a place, round the end.
abbrev pub next : ℕ → ℕ → ℕ
next size i = if leb size (i + 1) then 0 else i + 1

abbrev pub before : ℕ → ℕ → ℕ
before size i = if i == 0 then size - 1 else i - 1

unfoldable pub push : Objects → Array → Ptr → Option (Objects × Array × Turn)
push o a object =
    let stored = assign o a a.tail object >>= λ (o', a').
    some (o', record a' { tail = next a.size a.tail }, done) in
    if is_plain a.mode
    then some (o, a, refused)
    else if leb (a.size - 1) (count a)
    then some (o, a, waits)
    else stored

-- The switch of `pull`: what is taken from an array that has objects.
abbrev pub from_tail : Array → Array × Ptr
from_tail a =
    let (a', value) = remove a (before a.size a.tail) in
    (record a' { tail = before a.size a.tail }, value)

abbrev pub from_head : Array → Array × Ptr
from_head a = let (a', value) = remove a a.head in (record a' { head = next a.size a.head }, value)

unfoldable pub take_by : Mode → Array → Array × Ptr
take_by plain a = (a, null)
take_by stack a = from_tail a
take_by queue a = from_head a
take_by fallback a = if count a == 1 then (a, slot a a.head) else from_head a

abbrev pub turn_of : Array × Ptr → Array × Turn × Ptr
turn_of (a, value) = if value == null then (a, waits, null) else (a, done, value)

-- The reference that is pulled into was cleared before the loop.
unfoldable pub pull : Array → Array × Turn × Ptr
pull a =
    if is_plain a.mode
    then (a, refused, null)
    else if a.head == a.tail
    then (a, waits, null)
    else turn_of (take_by a.mode a)

abbrev pub drop_tail : Objects → Array → Option (Objects × Array)
drop_tail o a =
    if a.head == a.tail
    then some (o, a)
    else assign o a (before a.size a.tail) null >>= λ (o', a').
        some (o', record a' { tail = before a.size a.tail })

abbrev pub drop_head : Objects → Array → Option (Objects × Array)
drop_head o a =
    if a.head == a.tail
    then some (o, a)
    else assign o a a.head null >>= λ (o', a'). some (o', record a' { head = next a.size a.head })

abbrev pub pop_by : Mode → Objects → Array → Option (Objects × Array)
pop_by plain o a = some (o, a)
pop_by stack o a = drop_tail o a
pop_by queue o a = drop_head o a
pop_by fallback o a = if count a == 1 then some (o, a) else drop_head o a

unfoldable pub pop : Objects → Array → Option (Objects × Array)
pop o a = pop_by a.mode o a

-- The loop of `reset` and of the constructor from an object, with the number of rounds left.
unfoldable pub assign_from : ℕ → Objects → Array → ℕ → Ptr → Option (Objects × Array)
assign_from zero o a index object = some (o, a)
assign_from (suc left) o a index object =
    assign o a index object >>= λ (o', a'). assign_from left o' a' (index + 1) object

abbrev pub reset_max : Mode → ℕ → ℕ
reset_max plain size = size
reset_max stack size = 0
reset_max queue size = 0
reset_max fallback size = 1

unfoldable pub reset : Objects → Array → Ptr → Option (Objects × Array)
reset o a object =
    let m : ℕ = reset_max a.mode a.size in
    let all = assign_from m o (record a { head = 0; tail = m }) 0 object in
    if object == null then some (o, a) else all

unfoldable pub clear_array : Objects → Array → Option (Objects × Array)
unfolding reset
clear_array o a = reset o a null

unfoldable pub assign_at : Objects → Array → ℕ → Ptr → Option (Objects × Array)
assign_at o a index object =
    let i : ℕ = index + a.head in
    if leb a.size index
    then some (o, a)
    else assign o a (if leb a.size i then i - a.size else i) object

-- ArrayRef's `get`.
unfoldable pub get : Array → ℕ → Ptr
get a index =
    let i : ℕ = index + a.head in
    let j : ℕ = if leb a.size i then i - a.size else i in
    if leb a.size index || (a.head == a.tail)
    then null
    else if leb a.head a.tail && leb a.tail i
    then null
    else if leb a.tail j
    then null
    else slot a j

-- The release of all objects when the array itself is deallocated.
unfoldable pub release_all : Objects → List Ptr → Option Objects
release_all o [] = some o
release_all o (p ∷ ps) = release_any o p >>= λ o'. release_all o' ps

-- The copies into a new array, of which there are no more than either has.
unfoldable pub copy_from : ℕ → Objects → Array → Array → ℕ → Option (Objects × Array)
copy_from zero o current a index = some (o, a)
copy_from (suc left) o current a index =
    assign o a index (slot current index) >>= λ (o', a'). copy_from left o' current a' (index + 1)

abbrev pub fewer : ℕ → ℕ → ℕ
fewer m n = if ltb m n then m else n

abbrev pub resize_by : Mode → Objects → Array → Array → ℕ → Option (Objects × Array)
resize_by plain o current a size = copy_from (fewer size current.size) o current a 0 >>= λ (o', a').
    some (o', record a' { tail = size })
resize_by stack o current a size = some (o, record a { head = 0; tail = 0 })
resize_by queue o current a size = some (o, record a { head = 0; tail = 0 })
resize_by fallback o current a size = some (o, record a { head = 0; tail = 0 })

-- `last` tells whether the reference to the old array was the last one. `none` is a null array.
unfoldable pub resize : Objects → Array → ℕ → Bool → Option (Objects × Array)
resize o current size last = do
  a ← create current.mode size
  (o', a') ← resize_by current.mode o current a size
  o'' ← (if last then release_all o' current.slots else some o')
  some (o'', a')

-- `realloc`, with `last` as in `resize`, and `is`.
unfoldable pub realloc : Objects → Array → ℕ → Bool → Option (Objects × Array)
realloc o current size last = do
  a ← create current.mode size
  o' ← (if last then release_all o current.slots else some o)
  some (o', a)

abbrev pub is_set : Array → ℕ → Bool
is_set a index = not (get a index == null)

-- The constructor from a size and an object.
unfoldable pub array_ref : Objects → Mode → ℕ → Ptr → Option (Objects × Array)
array_ref o mode size object = create mode size >>= λ a. assign_from a.size o a 0 object
