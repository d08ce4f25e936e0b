-- ===== src/Linked/Double.antt =====
-- corelib/linked.cpp, class DLinkedObject: objects linked both ways, each with a pointer to the
-- index of its list. The indexes are kept by their addresses.
pub mod Links
pub mod Ends
pub mod Delist
pub mod Enlist
pub mod Insert
mod Examples
use commoncpp.Common.{
  ℕ, Bool, true, false, not, ◌&&◌, Option, none, some, ◌==◌, if◌then◌else◌, ◌>>=◌,
}
use commoncpp.Linked.{Ptr, null, Heap, put, is_object, set_next}
use commoncpp.Linked.Ordered.{Index}

pub record Store : Type 0 where
  pub heap : Heap
  pub index : Ptr → Index

abbrev pub set_prev : Heap → Ptr → Ptr → Option Heap
set_prev h p q = if is_object h p then some (record h { prev = put h.prev p q }) else none

abbrev pub set_root : Heap → Ptr → Ptr → Option Heap
set_root h p r = if is_object h p then some (record h { root = put h.root p r }) else none

-- `p->Prev = a; p->Next = b; p->Root = r`.
abbrev pub set_links : Heap → Ptr → Ptr → Ptr → Ptr → Option Heap
set_links h p a b r = do h1 ← set_prev h p a; h2 ← set_next h1 p b; set_root h2 p r

abbrev pub set_head : Store → Ptr → Ptr → Store
set_head s r p = record s { index = put s.index r (record (s.index r) { head = p }) }

abbrev pub set_tail : Store → Ptr → Ptr → Store
set_tail s r p = record s { index = put s.index r (record (s.index r) { tail = p }) }

-- The two parts of `delist`: towards the objects before, and those after.
abbrev pub past_prev : Store → Ptr → Option Store
past_prev s this =
    let h = s.heap in
    let r : Ptr = h.root this in
    if not (h.prev this == null)
    then (set_next h (h.prev this) (h.next this) >>= λ h'. some (record s { heap = h' }))
    else some (if (s.index r).head == this then set_head s r (h.next this) else s)

abbrev pub past_next : Store → Ptr → Option Store
past_next s this =
    let h = s.heap in
    let r : Ptr = h.root this in
    if not (h.next this == null)
    then (set_prev h (h.next this) (h.prev this) >>= λ h'. some (record s { heap = h' }))
    else some (if (s.index r).tail == this then set_tail s r (h.prev this) else s)

unfoldable pub delist : Store → Ptr → Option Store
delist s this =
    let rest = past_prev s this >>= λ s1. past_next s1 this >>= λ s2.
    set_links s2.heap this null null null >>= λ h. some (record s2 { heap = h }) in
    if not (is_object s.heap this) then none else if s.heap.root this == null then some s else rest

-- An object that is in a list is taken out of it first.
abbrev pub alone : Store → Ptr → Option Store
alone s this = if s.heap.root this == null then some s else delist s this

abbrev pub at_end : Store → Ptr → Ptr → Option Store
at_end s this r = do
  h1 ← set_prev s.heap this (s.index r).tail
  h2 ← set_next h1 (s.index r).tail this
  some (set_tail (record s { heap = h2 }) r this)

abbrev pub join_tail : Store → Ptr → Ptr → Option Store
join_tail s this r =
    if (s.index r).head == null
    then some (record s { index = put s.index r (record { head = this; tail = this }) })
    else at_end s this r

unfoldable pub enlist_tail : Store → Ptr → Ptr → Option Store
enlist_tail s this r = do
  s1 ← alone s this
  h ← set_links s1.heap this null null r
  join_tail (record s1 { heap = h }) this r

abbrev pub at_front : Store → Ptr → Ptr → Option Store
at_front s this r = do
  h1 ← set_next s.heap this (s.index r).head
  h2 ← set_prev h1 (s.index r).head this
  some (set_head (record s { heap = h2 }) r this)

abbrev pub join_head : Store → Ptr → Ptr → Option Store
join_head s this r =
    if (s.index r).tail == null
    then some (record s { index = put s.index r (record { head = this; tail = this }) })
    else at_front s this r

unfoldable pub enlist_head : Store → Ptr → Ptr → Option Store
enlist_head s this r = do
  s1 ← alone s this
  h ← set_links s1.heap this null null r
  join_head (record s1 { heap = h }) this r

-- `enlist` is `enlist_tail`, and `insert` is `insert_tail`.
unfoldable pub insert_tail : Store → Ptr → Ptr → Option Store
insert_tail s this o = do
  s1 ← alone s o
  let h = s1.heap
  let r : Ptr = h.root this
  s2 ←
      (if not (h.next this == null)
        then some s1
        else if r == null
        then none
        else some (set_tail s1 r o))
  h1 ← set_links h o this (h.next this) r
  h2 ← set_next h1 this o
  if not (is_object h this) then none else some (record s2 { heap = h2 })

unfoldable pub insert_head : Store → Ptr → Ptr → Option Store
insert_head s this o = do
  s1 ← alone s o
  let h = s1.heap
  let r : Ptr = h.root this
  s2 ←
      (if not (h.prev this == null)
        then some s1
        else if r == null
        then none
        else some (set_head s1 r o))
  h1 ← set_links h o (h.prev this) this r
  h2 ← set_prev h1 this o
  if not (is_object h this) then none else some (record s2 { heap = h2 })
