-- ===== src/Linked/Double/Examples.antt =====
-- A list of three objects linked both ways and one of two, with their indexes at 20 and 30.
use commoncpp.Common.{
  ◌≡◌, refl, arith, true, false, List, [], ◌∷◌, ◌++◌, none, some, if◌then◌else◌, ◌>>=◌, ltb,
}
use commoncpp.Linked.{Ptr, null, put}
use commoncpp.Linked.Chain.{has, erase}
use commoncpp.Linked.Ordered.{empty}
use commoncpp.Linked.Double.{Store, delist, enlist_tail, enlist_head, insert_tail, insert_head}
use commoncpp.Linked.Double.Links.{IsDouble}
use commoncpp.Linked.Double.Delist.{Removed, delist-IsDouble}
use commoncpp.Linked.Double.Enlist.{enlist_tail-moves}
use commoncpp.Linked.Double.Insert.{insert_tail-broken}

-- 1, 2 and 3 are in the first list, 4 and 5 in the second, and 6 is in none.
abbrev start : Store
start = record {
  heap = record {
    live = λ p. ltb p 10;
    next = put (put (put (λ p. null) 1 2) 2 3) 4 5;
    prev = put (put (put (λ p. null) 2 1) 3 2) 5 4;
    root = λ p. if ltb p 4 then 20 else if ltb p 6 then 30 else null;
    ident = λ p. none;
  };
  index =
      put (put (λ p. empty) 20 (record { head = 1; tail = 3 })) 30 (record { head = 4; tail = 5 });
}

abbrev ones : List Ptr
ones = 1 ∷ 2 ∷ 3 ∷ []

abbrev others : List Ptr
others = 4 ∷ 5 ∷ []

ones-IsDouble : IsDouble start 20 ones
ones-IsDouble = record {
  links = (
    refl,
    ground arith,
    refl,
    refl,
    refl,
    (refl, ground arith, refl, refl, refl, (refl, ground arith, refl, refl, refl, refl)),
  );
  distinct = (refl, (refl, (refl, tt)));
  tail_is = refl;
}

others-IsDouble : IsDouble start 30 others
others-IsDouble = record {
  links = (refl, ground arith, refl, refl, refl, (refl, ground arith, refl, refl, refl, refl));
  distinct = (refl, (refl, tt));
  tail_is = refl;
}

delist-IsDouble_example : (u : Store) × (delist start 2 ≡ some u) × Removed start u 20 2 ones
delist-IsDouble_example = delist-IsDouble start 20 2 ones (ground arith) ones-IsDouble refl

apart : (a : Ptr) → has a others ≡ true → has a ones ≡ false
apart a e = ground (arith, e)

enlist_tail-moves_example :
    (u : Store) × (enlist_tail start 2 30 ≡ some u)
    × IsDouble u 20 (erase 2 ones)
    × IsDouble u 30 (others ++ (2 ∷ []))
enlist_tail-moves_example =
    enlist_tail-moves start 30 20 2 others ones (ground arith) (ground arith) ones-IsDouble refl
      others-IsDouble apart

insert_tail-broken_example :
    (u : Store) × (insert_tail start 2 6 ≡ some u)
    × ((ys : List Ptr) → has 6 ys ≡ true → ¬ IsDouble u 20 ys)
insert_tail-broken_example =
    insert_tail-broken start 20 2 6 ones ones-IsDouble refl (ground arith) (ground arith) refl refl
      refl

-- After `insertHead` before 2 the walk from the head misses 6, and the walk back from the tail has it.
insert_head_middle :
    (insert_head start 2 6 >>= λ u. some (u.heap.next 1 ∷ u.heap.prev 2 ∷ u.heap.prev 6 ∷ []))
    ≡ some (2 ∷ 6 ∷ 1 ∷ [])
unfolding insert_head
insert_head_middle = refl

enlist_head_moves :
    (enlist_head start 1 30 >>= λ u.
    some ((u.index 20).head ∷ (u.index 30).head ∷ u.heap.next 1 ∷ []))
    ≡ some (2 ∷ 1 ∷ 4 ∷ [])
unfolding enlist_head delist
enlist_head_moves = refl
