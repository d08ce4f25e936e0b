-- ===== src/Linked/Ordered.antt =====
-- corelib/linked.cpp, classes OrderedIndex and OrderedObject: a list with a pointer to its last
-- object. The functions are given the index and give it back.
pub mod Queue
pub mod Last
pub mod Order
use commoncpp.Common.{
  ℕ, zero, suc, ◌+◌, Bool, true, false, not, ◌&&◌, ◌||◌, List, [], ◌∷◌, Option, none, some, ltb,
  ◌==◌, if◌then◌else◌, ◌>>=◌,
}
use commoncpp.Linked
use commoncpp.Linked.{Ptr, null, Heap, put, is_object, next_of, set_next, seek}

pub record Index : Type 0 where
  pub head : Ptr
  pub tail : Ptr

abbrev pub empty : Index
empty = record { head = null; tail = null }

-- `copy`, which `operator=` and the copy constructor call.
unfoldable pub copy : Index → Index → Index
copy this source = record { head = source.head; tail = source.tail }

-- `enlistTail` does not end the list at `this`: `enlist` does, before it calls it.
unfoldable pub enlist_tail : Heap → Ptr → Index → Option (Heap × Index)
enlist_tail h this root =
    if root.head == null
    then some (h, record { head = this; tail = this })
    else if root.tail == null
    then some (h, record root { tail = this })
    else set_next h root.tail this >>= λ h'. some (h', record root { tail = this })

unfoldable pub enlist : Heap → Ptr → Index → Option (Heap × Index)
unfolding enlist_tail
enlist h this root = do h' ← set_next h this null; enlist_tail h' this root

unfoldable pub enlist_head : Heap → Ptr → Index → Option (Heap × Index)
enlist_head h this root = do
  h' ← set_next h this null
  if root.tail == null
      then some (h', record { head = this; tail = this })
      else if root.head == null
      then some (h', record root { head = this })
      else set_next h' this root.head >>= λ h''. some (h'', record root { head = this })

unfoldable pub delist : ℕ → Heap → Ptr → Index → Option (Heap × Index)
unfolding seek
delist fuel h this root = do
  (prior, node) ← seek fuel h this null root.head
  let index = λ (head : Ptr).
      let r : Index = record {
        head = head;
        tail = if this == root.tail then prior else root.tail;
      } in
      r
  if node == null
      then some (h, root)
      else Linked.unlink h this root.head prior >>= λ (h', head). some (h', index head)

-- `get`: the first object, or null.
unfoldable pub get : Heap → Index → Option (Ptr × Index)
get h root =
    if root.head == null
    then some (null, root)
    else next_of h root.head >>= λ q.
        some (root.head, record { head = q; tail = if q == null then null else root.tail })

unfoldable pub purge : ℕ → Heap → Index → Option (Heap × Index)
purge fuel h root =
    if root.head == null
    then some (h, root)
    else Linked.purge fuel h root.head >>= λ h'. some (h', empty)

unfoldable pub reset : Index → Index
reset root = empty

-- The loop of `index`: the objects in order, before the null at the end of the array.
unfoldable pub index_from : ℕ → Heap → Ptr → Option (List Ptr)
index_from zero h node = none
index_from (suc fuel) h node =
    let rest = next_of h node >>= λ q. index_from fuel h q >>= λ op. some (node ∷ op) in
    if node == null then some [] else rest

unfoldable pub index : ℕ → Heap → Index → Option (List Ptr)
unfolding index_from
index fuel h root = index_from fuel h root.head

unfoldable pub count_from : ℕ → Heap → Ptr → ℕ → Option ℕ
count_from zero h node c = none
count_from (suc fuel) h node c =
    let rest = next_of h node >>= λ q. count_from fuel h q (c + 1) in
    if node == null then some c else rest

unfoldable pub count : ℕ → Heap → Index → Option ℕ
unfolding count_from
count fuel h root = count_from fuel h root.head 0

-- The loop of `find`, with the objects that were counted.
unfoldable pub find_from : ℕ → Heap → Ptr → ℕ → ℕ → Option Ptr
find_from zero h node index c = none
find_from (suc fuel) h node index c =
    let rest = next_of h node >>= λ q. find_from fuel h q index (c + 1) in
    if node == null then some null else if ltb (c + 1) index then rest else some node

unfoldable pub find : ℕ → Heap → Index → ℕ → Option Ptr
unfolding find_from
find fuel h root index = find_from fuel h root.head index 0
