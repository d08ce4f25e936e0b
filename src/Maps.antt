-- ===== src/Maps.antt =====
-- corelib/mapref.cpp: lists of entries with a key and a value, which are references that count, and an
-- instance that goes over all entries. An entry is a linked object; the pool gives the address of a new
-- one, an argument. The lock is held from `access` or `modify` on.
pub mod Walks
pub mod Entries
pub mod Adds
mod Examples
use Prim.Native.Nat.{bit_xor}
use commoncpp.Common.{
  ℕ, zero, suc, ◌+◌, ◌-◌, ◌*◌, ◌%◌, ◌^◌, Bool, true, false, not, ◌&&◌, ◌||◌, List, [], ◌∷◌, Option,
  none, some, ltb, leb, ◌==◌, if◌then◌else◌, ◌>>=◌,
}
use commoncpp.Linked.{Ptr, null, Heap, put, next_of, set_next, enlist, delist}
use commoncpp.Refs.{Objects, retain_any, release_any}

-- The map, with the fields of its entries.
pub record Map : Type 0 where
  pub heap : Heap
  pub key : Ptr → Ptr
  pub value : Ptr → Ptr
  pub list : ℕ → Ptr
  pub size : ℕ
  pub free : Ptr
  pub last : Ptr
  pub count : ℕ
  pub alloc : ℕ

abbrev pub allocate : Heap → Ptr → Heap
allocate h p = record h { live = put h.live p true }

-- An entry that is free, or a new one, with the count of entries.
unfoldable pub new_index : Map → Ptr → Option (Map × Ptr)
new_index m fresh =
    let grown : Map = record m {
      heap = allocate m.heap fresh;
      alloc = m.alloc + 1;
      count = m.count + 1;
    } in
    let reused =
      next_of m.heap m.free >>= λ q. some (record m { free = q; count = m.count + 1 }, m.free) in
    if m.free == null then some (grown, fresh) else reused

-- The constructors of Index.
abbrev pub blank : Map → Ptr → Map
blank m p = record m { key = put m.key p null; value = put m.value p null }

-- Map's `create`.
unfoldable pub create : Map → ℕ → Ptr → Option (Map × Ptr)
unfolding new_index
create m path fresh = do
  (m1, p) ← new_index m fresh
  (h, root) ← enlist m1.heap p (m1.list (path % m1.size))
  some (record (blank m1 p) { heap = h; list = put m1.list (path % m1.size) root }, p)

-- Map's `append`.
unfoldable pub append : Map → Ptr → Option (Map × Ptr)
unfolding new_index
append m fresh = do
  (m1, p) ← new_index m fresh
  m2 ←
      (if m1.last == null
        then some (record (blank m1 p) { list = put m1.list 0 p })
        else set_next m1.heap m1.last p >>= λ h. some (record (blank m1 p) { heap = h }))
  h ← set_next m2.heap p null
  some (record m2 { heap = h; last = p }, p)

-- The loop of `remove` for the entry before the last.
unfoldable pub prior_of : ℕ → Heap → Ptr → Ptr → Option Ptr
prior_of zero h index node = none
prior_of (suc fuel) h index node =
    let rest = next_of h node >>= λ q. if q == index then some node else prior_of fuel h index q in
    if node == null then some null else rest

abbrev pub new_last : ℕ → Map → Ptr → Ptr → Option Ptr
new_last fuel m index root =
    if not (m.last == null) && (index == m.last)
    then if root == index then some null else prior_of fuel m.heap index root
    else some m.last

-- Map's `remove`.
unfoldable pub remove : ℕ → Objects → Map → Ptr → ℕ → Option (Objects × Map)
unfolding prior_of
remove fuel o m index path =
    let root : Ptr = m.list (path % m.size) in
    let removed = (do
      o1 ← release_any o (m.key index)
      o2 ← release_any o1 (m.value index)
      last ← new_last fuel m index root
      (h, root') ← delist fuel m.heap index root
      (h', free) ← enlist h index m.free
      some (
        o2,
        record m {
          heap = h';
          list = put m.list (path % m.size) root';
          free = free;
          last = last;
          count = m.count - 1;
        },
      )) in
    if index == null then some (o, m) else removed

-- MapRef's `update`, `append` and `add`, for a map of a size other than 0.
unfoldable pub update : Objects → Map → Ptr → Ptr → Option (Objects × Map)
update o m index value =
    let updated = (do
      o1 ← release_any o (m.value index)
      o2 ← retain_any o1 value
      some (o2, record m { value = put m.value index value })) in
    if index == null then some (o, m) else updated

unfoldable pub append_value : Objects → Map → Ptr → Ptr → Option (Objects × Map)
unfolding append
append_value o m value fresh = do
  (m', p) ← append m fresh
  o' ← retain_any o value
  some (o', record m' { key = put m'.key p null; value = put m'.value p value })

unfoldable pub add : Objects → Map → ℕ → Ptr → Ptr → Ptr → Option (Objects × Map)
unfolding create
add o m path key value fresh = do
  (m', p) ← create m path fresh
  o1 ← retain_any o key
  o2 ← retain_any o1 value
  some (o2, record m' { key = put m'.key p key; value = put m'.value p value })

-- An instance on a map.
pub record Instance : Type 0 where
  pub index : Ptr
  pub path : ℕ

-- The loop of `next`, with the number of paths left.
unfoldable pub scan : Map → ℕ → ℕ → Instance × Bool
scan m zero path = (record { index = null; path = path + 1 }, false)
scan m (suc left) path =
    let rest = scan m left (path + 1) in
    if m.list (path + 1) == null
    then rest
    else (record { index = m.list (path + 1); path = path + 1 }, true)

abbrev pub settle : Map → Instance → Instance × Bool
settle m i = if i.index == null then scan m (m.size - (i.path + 1)) i.path else (i, true)

unfoldable pub next : Map → Instance → Option (Instance × Bool)
unfolding scan
next m i =
    if i.index == null
    then some (settle m i)
    else next_of m.heap i.index >>= λ q. some (settle m (record i { index = q }))

unfoldable pub rewind : Map → Instance
unfolding scan
rewind m = (settle m (record { index = m.list 0; path = 0 })).0

abbrev pub eol : Map → Instance → Bool
eol m i = leb m.size i.path

abbrev pub top : Map → Instance → Bool
top m i = not (ltb 0 i.path) && (i.index == m.list 0)

-- The loop of a client that goes over the entries.
unfoldable pub walk : ℕ → Map → Instance → Option (List Ptr)
unfolding next
walk zero m i = none
walk (suc fuel) m i =
    let rest = (do (i', more) ← next m i; out ← walk fuel m i'; some (i.index ∷ out)) in
    if i.index == null then some [] else rest

-- Map's `dealloc`, with its loops over the lists and over a list.
unfoldable pub release_list : ℕ → Objects → Map → Ptr → Option Objects
release_list zero o m p = none
release_list (suc fuel) o m p =
    let rest = (do
      o1 ← release_any o (m.key p)
      o2 ← release_any o1 (m.value p)
      q ← next_of m.heap p
      release_list fuel o2 m q) in
    if p == null then some o else rest

unfoldable pub release_from : ℕ → ℕ → Objects → Map → ℕ → Option Objects
release_from zero fuel o m path = some o
release_from (suc left) fuel o m path =
    release_list fuel o m (m.list path) >>= λ o'. release_from left fuel o' m (path + 1)

unfoldable pub dealloc : ℕ → Objects → Map → Option Objects
unfolding release_list release_from
dealloc fuel o m = release_from m.size fuel o m 0

-- MapRef's `index`, the path of a key of 64 bits, from its bytes.
unfoldable pub index : ℕ → List ℕ → ℕ
index key [] = key
index key (b ∷ bs) = index (bit_xor key (bit_xor (key * 8 % 2 ^ 64) b)) bs
