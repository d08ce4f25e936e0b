-- ===== src/Maps/Examples.antt =====
-- A map of two lists: three entries come, one goes, and one comes again in its place.
use commoncpp.Common.{
  ℕ, zero, suc, ◌+◌, ◌<◌, ◌≡◌, ◌≢◌, refl, arith, true, false, ◌&&◌, [], ◌∷◌, none, some, ltb, leb,
  ◌==◌, if◌then◌else◌, ◌>>=◌,
}
use commoncpp.Linked.{Ptr, null, put, enlist, seek, delist}
use commoncpp.Linked.Chain.{has, Distinct}
use commoncpp.Refs.{Objects, retain, release, retain_any, release_any}
use commoncpp.Refs.Counts.{one, IsCounted}
use commoncpp.Maps.{
  Map, new_index, create, append, prior_of, remove, update, append_value, add, scan, next, rewind,
  eol, top, walk, dealloc, release_from, release_list, index,
}
use commoncpp.Maps.Walks.{HasLists, walk-gather}
use commoncpp.Maps.Entries.{Lists, Holds, remove-IsMap}
use commoncpp.Maps.Adds.{add-IsMap}

-- Objects 11 and 12, to each of which a reference is held.
abbrev held : Ptr → ℕ
held p = if leb 11 p && leb p 12 then 1 else 0

abbrev objects : Objects
objects = record { live = λ p. leb 11 p && leb p 12; refs = held }

-- Entries 1 and 2 are in the first list and 3 in the second; none is free.
abbrev three : Map
three = record {
  heap = record {
    live = λ p. ltb 0 p && ltb p 4;
    next = λ p. if p == 1 then 2 else null;
    prev = λ p. null;
    root = λ p. null;
    ident = λ p. none;
  };
  key = λ p. null;
  value = λ p. null;
  list = λ i. if i == 0 then 1 else if i == 1 then 3 else null;
  size = 2;
  free = null;
  last = null;
  count = 3;
  alloc = 3;
}

abbrev lists : Lists
lists i = if i == 0 then 1 ∷ 2 ∷ [] else if i == 1 then 3 ∷ [] else []

three-HasLists : HasLists three lists
three-HasLists zero l = (refl, ground arith, refl, (refl, ground arith, refl, refl))
three-HasLists (suc zero) l = (refl, ground arith, refl, refl)
three-HasLists (suc (suc i)) l = absurd (omega arith)

walk-gather_example : walk 5 three (rewind three) ≡ some (1 ∷ 2 ∷ 3 ∷ [])
walk-gather_example = walk-gather three lists 5 (omega arith) three-HasLists (omega arith)

three-Holds : Holds three lists []
three-Holds = record {
  chains = λ i l. (three-HasLists i l, once i l);
  free_chain = (refl, tt);
  apart = λ i j a l m n s. alone i j a l m n s;
  not_free = λ i a l s. ground (arith, s);
}
  where
    once : (i : ℕ) → i < 2 → Distinct (lists i)
    once zero l = (refl, (refl, tt))
    once (suc zero) l = (refl, tt)
    once (suc (suc i)) l = absurd (omega arith)

    alone :
        (i j : ℕ) (a : Ptr)
        → i < 2
        → j < 2
        → i ≢ j
        → has a (lists i) ≡ true
        → has a (lists j) ≡ false
    alone zero zero a l m n s = absurd (n refl)
    alone zero (suc zero) a l m n s = ground (arith, s)
    alone (suc zero) zero a l m n s = ground (arith, s)
    alone (suc zero) (suc zero) a l m n s = absurd (n refl)
    alone (suc (suc i)) j a l m n s = absurd (omega arith)
    alone i (suc (suc j)) a l m n s = absurd (omega arith)

objects-IsCounted : IsCounted objects held
objects-IsCounted = record {
  counts = λ p n l. ground (arith, l);
  lives = λ p n h. ground (arith, h);
}

add-IsMap_example :
    (o : Objects) × (m : Map) × (add objects three 5 11 12 4 ≡ some (o, m))
    × Holds m (put lists 1 (4 ∷ 3 ∷ [])) []
    × (m.key 4 ≡ 11)
    × (m.value 4 ≡ 12)
    × IsCounted o (λ p. held p + one 11 p + one 12 p)
    × (m.count ≡ 4)
add-IsMap_example =
    add-IsMap objects three 5 11 12 4 held lists [] (omega arith) three-Holds (ground arith) new
      objects-IsCounted (λ n. refl) (λ n. refl)
  where
    new : (j : ℕ) → j < 2 → has 4 (lists j) ≡ false
    new zero l = refl
    new (suc zero) l = refl
    new (suc (suc j)) l = absurd (omega arith)

remove-IsMap_example :
    (o : Objects) × (m : Map) × (remove 3 objects three 1 4 ≡ some (o, m))
    × Holds m (put lists 0 (2 ∷ [])) (1 ∷ [])
    × IsCounted o held
    × (m.count ≡ 2)
remove-IsMap_example =
    remove-IsMap 3 objects three 1 4 held lists [] (omega arith) three-Holds refl (ground arith)
      refl (omega arith)
      (record { counts = λ p n l. ground (arith, l); lives = λ p n h. ground (arith, h) })

-- An entry comes with a key and a value, is changed, and goes; the next one takes its place.
again :
    ((add objects three 5 11 12 4 >>= λ (o, m). update o m 4 11 >>= λ (p, n).
    remove 4 p n 4 5 >>= λ (q, k). some (q.refs 11 ∷ q.refs 12 ∷ k.free ∷ k.count ∷ []))
      ≡ some (1 ∷ 1 ∷ 4 ∷ 3 ∷ []))
    × ((remove 4 objects three 2 0 >>= λ (o, m).
          create m 3 9 >>= λ (n, p). some (p ∷ n.list 1 ∷ n.alloc ∷ n.free ∷ []))
        ≡ some (2 ∷ 2 ∷ 3 ∷ 0 ∷ []))
unfolding add create new_index enlist update remove delist seek prior_of retain_any release_any
    retain release
again = (refl, refl)

-- Entries that are appended to a list, the last of which goes.
abbrev empty : Map
empty = record three {
  heap = record three.heap { live = λ p. false };
  list = λ i. null;
  count = 0;
  alloc = 0;
}

appended :
    ((append_value objects empty 11 1 >>= λ (o, m).
    append_value o m 12 2 >>= λ (p, n). walk 9 n (rewind n))
      ≡ some (1 ∷ 2 ∷ []))
    × ((append_value objects empty 11 1 >>= λ (o, m). append_value o m 12 2 >>= λ (p, n).
          remove 4 p n 2 0 >>= λ (q, k). some (k.last ∷ k.free ∷ q.refs 12 ∷ []))
        ≡ some (1 ∷ 2 ∷ 1 ∷ []))
    × (top three (rewind three) ≡ true)
    × (eol three (rewind three) ≡ false)
unfolding append_value append new_index walk next scan rewind remove delist seek prior_of enlist
    retain_any release_any retain release
appended = (refl, refl, refl, refl)

-- What is left of the counts when a map goes, and the path of a key of two bytes.
gone :
    ((add objects three 5 11 12 4 >>= λ (o, m).
    add o m 0 11 11 6 >>= λ (p, n). dealloc 9 p n >>= λ q. some (q.refs 11 ∷ q.refs 12 ∷ []))
      ≡ some (1 ∷ 1 ∷ []))
    × (index 1 (0x61 ∷ 0x62 ∷ []) ≡ 0x34a)
unfolding add create new_index enlist dealloc release_from release_list retain_any release_any
    retain release index
gone = (refl, refl)
