-- ===== src/Arrays/Stacks.antt =====
-- The stack, the queue that keeps its last object, and the access by an index.
use commoncpp.Common.{
  ℕ, zero, suc, ◌+◌, ◌-◌, ◌<◌, ◌≡◌, ◌≢◌, refl, sym, ap, ◌∙◌, arith, List, [], ◌∷◌, some, ltb, leb,
  ◌==◌, if◌then◌else◌, length, set, get_or, length-set, get_or-set_self, true, false, ◌&&◌,
}
use commoncpp.Linked.{Ptr, null, put}
use commoncpp.Refs.{Objects, release, clear, release_any}
use commoncpp.Refs.Counts.{one, IsCounted-eq}
use commoncpp.Arrays.{
  stack, fallback, Array, done, is_plain, count, slot, next, before, remove, push, take_by, pull,
  reset, clear_array, get,
}
use commoncpp.Arrays.Slots.{refs_in, refs_in-set, place, window, window-set}
use commoncpp.Arrays.Ring.{
  IsRing, contents, length-contents, place-count, contents-pulled, AllCounted, pushed, push-done,
}

-- The stack after an object was pushed and pulled.
abbrev popped : Array → Ptr → Array
popped a object = record a {
  slots = set (set a.slots a.tail object) a.tail null;
  tail = before a.size (next a.size a.tail);
}

pull-pushed :
    (a : Array) (object : Ptr)
    → a.mode ≡ stack
    → IsRing a
    → count a + 1 < a.size
    → object ≢ null
    → pull (pushed a object) ≡ (popped a object, done, object)
unfolding pull take_by remove
pull-pushed a object m r room n =
    let b : Array = pushed a object in
    let p : is_plain a.mode ≡ false = ap is_plain m in
    let z : (a.head == next a.size a.tail) ≡ false = ground (arith, room, r.head_in, r.tail_in) in
    let by : take_by a.mode b ≡ take_by stack b = ap (λ k. take_by k b) m in
    let back : before a.size (next a.size a.tail) ≡ a.tail = ground (arith, r.tail_in) in
    let inside : leb a.size a.tail ≡ false = ground (arith, r.tail_in) in
    let v : get_or (set a.slots a.tail object) a.tail null ≡ object =
      get_or-set_self a.slots a.tail object null (omega (arith, r.slots_are, r.tail_in)) in
    let y : (object == null) ≡ false = ground arith in rw (p, z, by, back, inside, v, y) refl

-- On a stack that has less than `size` - 1 objects, `push` of a live object and then `pull` are
-- done, give the object back and leave the objects of the stack as they were, and the counts are
-- those of the references held, with the one that is handed out.
pub push-pull :
    (o : Objects) (a : Array) (object : Ptr) (held : Ptr → ℕ)
    → a.mode ≡ stack
    → IsRing a
    → count a + 1 < a.size
    → AllCounted o a held
    → object ≢ null
    → o.live object ≡ true
    → (o' : Objects) × (b : Array) × (c : Array) × (push o a object ≡ some (o', b, done))
      × (pull b ≡ (c, done, object))
      × (contents c ≡ contents a)
      × IsRing c
      × AllCounted o' c (λ p. held p + one object p)
push-pull o a object held m r room c n live =
    let (o', e, k) = push-done o a object held (ap is_plain m) r room c (λ _. live) in
    let back : before a.size (next a.size a.tail) ≡ a.tail = ground (arith, r.tail_in) in
    let at = place-count a r in
    let same : count (popped a object) ≡ count a = ground (arith, back) in
    let off : (v : Ptr) (xs : List Ptr)
        → window (set xs a.tail v) a.size a.head 0 (count a) ≡ window xs a.size a.head 0 (count a) =
      λ v xs.
        window-set xs a.size a.head 0 (count a) a.tail v
          (λ j l w. ground (arith, at, l, r.head_in, r.tail_in, room)) in
    let inside : a.tail < length (set a.slots a.tail object) =
      omega (arith, length-set a.slots a.tail object, r.slots_are, r.tail_in) in
    let v = get_or-set_self a.slots a.tail object null (omega (arith, r.slots_are, r.tail_in)) in
    (
      o',
      pushed a object,
      popped a object,
      e,
      pull-pushed a object m r room n,
      ap (window (popped a object).slots a.size a.head 0) same
          ∙ (off null (set a.slots a.tail object) ∙ off object a.slots),
      record {
        slots_are =
            length-set (set a.slots a.tail object) a.tail null
            ∙ (length-set a.slots a.tail object ∙ r.slots_are);
        head_in = r.head_in;
        tail_in = omega (arith, back, r.tail_in);
      },
      IsCounted-eq o' (λ p. held p + refs_in (set a.slots a.tail object) p)
          (λ p. held p + one object p + refs_in (popped a object).slots p) k
          (λ p w. omega (
            arith,
            refs_in-set (set a.slots a.tail object) a.tail null p inside,
            ap (λ q. one q p) v,
          )),
    )

-- Where an array that keeps its last object has one object, to which no other reference is held,
-- `pull` hands out a reference that is not counted: the array still has the object, and `clear` of
-- that reference deallocates it.
pub pull-uncounted :
    (o : Objects) (a : Array) (x : Ptr) (held : Ptr → ℕ)
    → a.mode ≡ fallback
    → IsRing a
    → contents a ≡ x ∷ []
    → AllCounted o a held
    → x ≢ null
    → held x ≡ 0
    → refs_in a.slots x ≡ 1
    → (pull a ≡ (a, done, x)) × (o' : Objects) × (clear o x ≡ some (o', null)) × (o'.live x ≡ false)
unfolding pull take_by clear release_any release
pull-uncounted o a x held m r e c n h k =
    let len : count a ≡ 1 = sym (length-contents a) ∙ ap length e in
    let p : is_plain a.mode ≡ false = ap is_plain m in
    let z : (a.head == a.tail) ≡ false = ground (arith, len, r.head_in, r.tail_in) in
    let by : take_by a.mode a ≡ take_by fallback a = ap (λ k. take_by k a) m in
    let one_left : (count a == 1) ≡ true = ground (arith, len) in
    let (first, w) = contents-pulled a x [] r e in
    let v : slot a a.head ≡ x = ground (arith, r.head_in, first) in
    let y : (x == null) ≡ false = ground arith in
    let live : o.live x ≡ true = c.lives x n (omega arith) in
    let u : ltb (o.refs x) 2 ≡ true = ground (arith, c.counts x n live) in
    (
      rw (p, z, by, one_left, v, y) refl,
      record { refs = put o.refs x (o.refs x - 1); live = put o.live x false },
      rw (y, live, u) refl,
      ground arith,
    )

window-get :
    (xs : List Ptr) (size i k n j : ℕ)
    → j < n
    → get_or (window xs size i k n) j null ≡ get_or xs (place size i (k + j)) null
window-get xs size i k zero j l = absurd (omega arith)
window-get xs size i k (suc n) zero l =
    let e : k ≡ k + 0 = omega arith in ap (λ q. get_or xs (place size i q) null) e
window-get xs size i k (suc n) (suc j) l =
    let e : k + 1 + j ≡ k + suc j = omega arith in
    window-get xs size i (k + 1) n j (omega arith) ∙ ap (λ q. get_or xs (place size i q) null) e

-- `ArrayRef::get` of an index below the number of objects gives the object at that place of the
-- queue, but null for those at the end of the slots when the queue goes round it.
pub get-contents :
    (a : Array) (k : ℕ)
    → IsRing a
    → k < count a
    → get a k
      ≡ (if ltb a.tail a.head && ltb (k + a.head) a.size then null else get_or (contents a) k null)
unfolding get
get-contents a k r l =
    let w = window-get a.slots a.size a.head 0 (count a) k l in
    ground (arith, w, l, r.head_in, r.tail_in)

-- `clear` is `reset` to null, which returns at once.
pub clear_array-nothing : (o : Objects) (a : Array) → clear_array o a ≡ some (o, a)
unfolding clear_array reset
clear_array-nothing o a = refl
