-- ===== src/Linked.antt =====
-- corelib/linked.cpp, class LinkedObject: objects that are linked through their own field `Next`.
-- A pointer is a number, 0 is null. `none` is a read or a write through a pointer to no object, or
-- a loop that is not done when its fuel is out.
pub mod Chain
pub mod Objects
pub mod Ordered
pub mod Double
pub mod Named
mod Examples
use commoncpp.Common.{
  ℕ, zero, suc, ◌+◌, Bool, true, false, not, ◌&&◌, ◌||◌, List, Option, none, some, ◌==◌,
  if◌then◌else◌, ◌>>=◌,
}

abbrev pub Ptr : Type 0
Ptr = ℕ

abbrev pub null : Ptr
null = 0

-- The objects of all the classes: the fields of LinkedObject, DLinkedObject and NamedObject.
pub record Heap : Type 0 where
  pub live : Ptr → Bool
  pub next : Ptr → Ptr
  pub prev : Ptr → Ptr
  pub root : Ptr → Ptr
  pub ident : Ptr → Option (List ℕ)

abbrev pub put {ℓ} : {A : Type ℓ} → (Ptr → A) → Ptr → A → Ptr → A
put f p v q = if q == p then v else f q

abbrev pub is_object : Heap → Ptr → Bool
is_object h p = not (p == null) && h.live p

-- `p->Next`, and `p->Next = q`.
abbrev pub next_of : Heap → Ptr → Option Ptr
next_of h p = if is_object h p then some (h.next p) else none

abbrev pub set_next : Heap → Ptr → Ptr → Option Heap
set_next h p q = if is_object h p then some (record h { next = put h.next p q }) else none

-- The functions that take a `LinkedObject **root` are given what it points to, and give it back.
unfoldable pub enlist : Heap → Ptr → Ptr → Option (Heap × Ptr)
enlist h this root = do h' ← set_next h this root; some (h', this)

-- The loop of `delist`: the node where it ends, and the one before.
unfoldable pub seek : ℕ → Heap → Ptr → Ptr → Ptr → Option (Ptr × Ptr)
seek zero h this prior node = none
seek (suc fuel) h this prior node =
    let rest = next_of h node >>= λ q. seek fuel h this node q in
    if (node == null) || (node == this) then some (prior, node) else rest

abbrev pub unlink : Heap → Ptr → Ptr → Ptr → Option (Heap × Ptr)
unlink h this root prior = do
  after ← next_of h this
  if prior == null then some (h, after) else set_next h prior after >>= λ h'. some (h', root)

unfoldable pub delist : ℕ → Heap → Ptr → Ptr → Option (Heap × Ptr)
unfolding seek
delist fuel h this root = do
  (prior, node) ← seek fuel h this null root
  if node == null then some (h, root) else unlink h this root prior

unfoldable pub is_member : ℕ → Heap → Ptr → Ptr → Option Bool
is_member zero h this list = none
is_member (suc fuel) h this list =
    let rest = next_of h list >>= λ q. is_member fuel h this q in
    if list == null then some false else if list == this then some true else rest

unfoldable pub count_from : ℕ → Heap → Ptr → ℕ → Option ℕ
count_from zero h root c = none
count_from (suc fuel) h root c =
    let rest = next_of h root >>= λ q. count_from fuel h q (c + 1) in
    if root == null then some c else rest

unfoldable pub count : ℕ → Heap → Ptr → Option ℕ
unfolding count_from
count fuel h root = count_from fuel h root 0

-- The loop ends with the index.
unfoldable pub get_indexed : Heap → Ptr → ℕ → Option Ptr
get_indexed h root zero = some root
get_indexed h root (suc index) =
    let rest = next_of h root >>= λ q. get_indexed h q index in
    if root == null then some root else rest

unfoldable pub retain : Heap → Ptr → Option Heap
retain h this = set_next h this this

-- An object that is not retained is deleted.
unfoldable pub release : Heap → Ptr → Option Heap
release h this = do
  after ← next_of h this
  if after == this
      then some h
      else some (record h { next = put h.next this this; live = put h.live this false })

unfoldable pub purge : ℕ → Heap → Ptr → Option Heap
purge zero h root = none
purge (suc fuel) h root =
    let rest = next_of h root >>= λ after. release h root >>= λ h'. purge fuel h' after in
    if root == null then some h else rest
