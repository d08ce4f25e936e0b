-- ===== src/Linked/Named.antt =====
-- corelib/linked.cpp, class NamedObject: objects with an id, in a list or in a table of lists. An id
-- is the list of its chars. `same` tells whether two ids are equal: that is `compare` being 0, and
-- `compare` is the C library's `strcoll` or `strcmp` unless a class overrides it.
pub mod Lookup
pub mod Swap
pub mod Add
pub mod Table
mod Examples
use Prim.Native.Nat.{bit_and, bit_or}
use commoncpp.Common.{
  ℕ, zero, suc, ◌+◌, ◌-◌, ◌*◌, ◌%◌, ◌^◌, Bool, true, false, not, ◌&&◌, List, [], ◌∷◌, Option, none,
  some, ◌==◌, if◌then◌else◌, ◌>>=◌, ltb,
}
use commoncpp.Linked.{Ptr, null, Heap, put, is_object, next_of, set_next, unlink, release}
use commoncpp.Linked.Ordered.{Index}

abbrev pub Text : Type 0
Text = List ℕ

-- `a ^ b`.
abbrev pub bit_xor : ℕ → ℕ → ℕ
bit_xor a b = bit_or a b - bit_and a b

-- A table of lists: `root[k]` is `root k`.
abbrev pub Slots : Type 0
Slots = ℕ → Ptr

unfoldable pub key_from : Text → ℕ → ℕ
key_from [] val = val
key_from (c ∷ id) val = key_from id (bit_xor (val * 2 % 2 ^ 32) (bit_and c 0x1f))

unfoldable pub keyindex : Text → ℕ → ℕ
keyindex id max = key_from id 0 % max

abbrev pub slot : Text → ℕ → ℕ
slot id max = if ltb max 2 then 0 else keyindex id max

abbrev pub set_id : Heap → Ptr → Option Text → Option Heap
set_id h p t = if is_object h p then some (record h { ident = put h.ident p t }) else none

-- `this` takes the place of an object behind another, or that object is taken from the front.
unfoldable pub replace : Heap → Slots → Ptr → ℕ → Ptr → Ptr → Option (Heap × Slots)
replace h root this k prior node =
    if prior == null
    then (next_of h node >>= λ after. release h node >>= λ g. some (g, put root k after))
    else (do
      h1 ← set_next h prior this
      after ← next_of h1 node
      h2 ← set_next h1 this after
      g ← release h2 node
      some (g, root))

module _ (same : Text → Text → Bool) where
  -- `p->equal(id)`: an object without an id has none to read.
  abbrev pub equal : Heap → Ptr → Text → Option Bool
  equal h p id = if is_object h p then (h.ident p >>= λ t. some (same t id)) else none

  unfoldable pub find : ℕ → Heap → Ptr → Text → Option Ptr
  find zero h root id = none
  find (suc fuel) h root id =
      let rest = next_of h root >>= λ q. find fuel h q id in
      let here = equal h root id >>= λ y. if y then some root else rest in
      if root == null then some null else here

  -- The loop of the constructors, of `add` and of `remove`: where it ends, and what it saw before.
  unfoldable pub seek_id : ℕ → Heap → Text → Ptr → Ptr → Option (Ptr × Ptr)
  seek_id zero h id prior node = none
  seek_id (suc fuel) h id prior node =
      let rest = next_of h node >>= λ q. seek_id fuel h id node q in
      let here = equal h node id >>= λ y. if y then some (prior, node) else rest in
      if node == null then some (prior, null) else here

  -- The heap, the list and the object that is taken out of it.
  unfoldable pub remove : ℕ → Heap → Ptr → Text → Option (Heap × Ptr × Ptr)
  remove fuel h root id = do
    (prior, node) ← seek_id fuel h id null root
    if node == null
        then some (h, root, null)
        else unlink h node root prior >>= λ (g, root'). some (g, root', node)

  unfoldable pub add : ℕ → Heap → Slots → Ptr → Text → ℕ → Option (Heap × Slots)
  add fuel h root this nid max = do
    let k : ℕ = slot nid max
    h0 ← set_id h this none
    (prior, node) ← seek_id fuel h0 nid null (root k)
    (g, root') ←
        (if node == null
          then (set_next h0 this (root k) >>= λ h1. some (h1, put root k this))
          else replace h0 root this k prior node)
    g' ← set_id g this (some nid)
    some (g', root')

  -- The constructor that puts the object into an ordered list.
  unfoldable pub construct : ℕ → Heap → Index → Ptr → Text → Option (Heap × Index)
  construct fuel h root this nid = do
    (prior, node) ← seek_id fuel h nid null root.head
    (h1, head) ←
        (if node == null
          then some (h, root.head)
          else (unlink h node root.head prior >>= λ (g, first).
              release g node >>= λ g'. some (g', first)))
    h2 ← set_next h1 this null
    h3 ← set_id h2 this (some nid)
    let head' : Ptr = if head == null then this else head
    if root.tail == null
        then some (h3, record { head = head'; tail = this })
        else set_next h3 root.tail this >>= λ g. some (g, record { head = head'; tail = root.tail })
