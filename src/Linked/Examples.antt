-- ===== src/Linked/Examples.antt =====
-- Lists of three objects, a queue, two lists linked both ways and a table of four lists.
use commoncpp.Common.{◌≡◌, refl, arith, true, List, [], ◌∷◌, none, some, ◌>>=◌, ltb}
use commoncpp.Linked.{null, Heap, put, seek, delist, count_from, count, release, purge}
use commoncpp.Linked.Chain.{Distinct, Chain}
use commoncpp.Linked.Objects.{Relinked, Deleted, purge-Deleted}
use commoncpp.Linked.Ordered
use commoncpp.Linked.Ordered.{Index, empty}
use commoncpp.Linked.Ordered.Order.{IsIndex, delist-IsIndex}
use commoncpp.Linked.Ordered.Queue.{Call, add, take, run, queue, Allowed, run-queue}

-- Nine objects without links, and the first three of them in a list.
abbrev pub bare : Heap
bare = record {
  live = λ p. ltb p 10;
  next = λ p. null;
  prev = λ p. null;
  root = λ p. null;
  ident = λ p. none;
}

abbrev three : Heap
three = record bare { next = put (put bare.next 1 2) 2 3 }

three-Chain : Chain three 1 (1 ∷ 2 ∷ 3 ∷ [])
three-Chain =
    (refl, ground arith, refl, (refl, ground arith, refl, (refl, ground arith, refl, refl)))

three-Distinct : Distinct (1 ∷ 2 ∷ 3 ∷ [])
three-Distinct = (refl, (refl, (refl, tt)))

abbrev whole : Index
whole = record { head = 1; tail = 3 }

whole-IsIndex : IsIndex three whole (1 ∷ 2 ∷ 3 ∷ [])
whole-IsIndex = record { chain = three-Chain; distinct = three-Distinct; tail_is = refl }

purge-Deleted_example : (g : Heap) × (purge 4 three 1 ≡ some g) × Deleted three (1 ∷ 2 ∷ 3 ∷ []) g
purge-Deleted_example =
    purge-Deleted 4 three 1 (1 ∷ 2 ∷ 3 ∷ []) (three-Chain, three-Distinct) (omega arith)

delist-IsIndex_example :
    (g : Heap) × (root : Index) × (Ordered.delist 4 three 3 whole ≡ some (g, root))
    × IsIndex g root (1 ∷ 2 ∷ [])
    × Relinked three (1 ∷ 2 ∷ 3 ∷ []) g
delist-IsIndex_example =
    delist-IsIndex 4 three 3 whole (1 ∷ 2 ∷ 3 ∷ []) (ground arith) whole-IsIndex (omega arith)

-- Two objects are added, three are asked for, and one more is added.
abbrev calls : List Call
calls = add 5 ∷ add 7 ∷ take ∷ take ∷ take ∷ add 5 ∷ []

empty-IsIndex : IsIndex bare empty []
empty-IsIndex = record { chain = refl; distinct = tt; tail_is = refl }

calls-Allowed : Allowed bare.live [] calls
unfolding Allowed
calls-Allowed =
    (ground arith, refl, refl, (ground arith, refl, refl, (ground arith, refl, refl, tt)))

calls-queue : queue [] calls ≡ (5 ∷ 7 ∷ null ∷ [], 5 ∷ [])
unfolding queue
calls-queue = refl

run-queue_example :
    (g : Heap) × (j : Index) × (run bare empty calls ≡ some ((queue [] calls).0, g, j))
    × IsIndex g j (queue [] calls).1
run-queue_example = run-queue bare empty [] calls empty-IsIndex calls-Allowed

delist_middle : (delist 4 three 2 1 >>= λ x. some (x.0.next 1 ∷ x.1 ∷ [])) ≡ some (3 ∷ 1 ∷ [])
unfolding delist seek
delist_middle = refl

delist_absent : (delist 4 three 8 1 >>= λ x. some (x.0.next 1 ∷ x.1 ∷ [])) ≡ some (2 ∷ 1 ∷ [])
unfolding delist seek
delist_absent = refl

-- A loop has no end for `count`, at any fuel tried.
count_loop : count 50 (record three { next = put three.next 3 1 }) 1 ≡ none
unfolding count count_from
count_loop = refl

-- A retained object is not deleted.
release_retained :
    (release (record three { next = put three.next 2 2 }) 2 >>= λ x. some (x.live 2)) ≡ some true
unfolding release
release_retained = refl
