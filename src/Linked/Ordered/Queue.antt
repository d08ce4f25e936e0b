-- ===== src/Linked/Ordered/Queue.antt =====
-- An OrderedIndex as a queue: `add` (which is `enlist`) and `get` in any order.
use commoncpp.Common.{
  ◌≡◌, ◌≢◌, refl, ◌∙◌, Bool, true, false, List, [], ◌∷◌, ◌++◌, Option, some, ◌>>=◌,
}
use commoncpp.Linked.{Ptr, null, Heap}
use commoncpp.Linked.Chain.{has}
use commoncpp.Linked.Ordered.{Index, enlist, get}
use commoncpp.Linked.Ordered.Order.{IsIndex, enlist-IsIndex, get-IsIndex, get-empty}

pub data Call : Type 0 where
  add : Ptr → Call
  take : Call

-- The calls on the index: what the `get` calls give, one after the other, and what is left.
unfoldable pub run : Heap → Index → List Call → Option (List Ptr × Heap × Index)
run h i [] = some ([], h, i)
run h i (add p ∷ cs) = do (h', i') ← enlist h p i; run h' i' cs
run h i (take ∷ cs) = do (p, i') ← get h i; (out, h', i'') ← run h i' cs; some (p ∷ out, h', i'')

-- The calls on a queue: null where it is empty.
unfoldable pub queue : List Ptr → List Call → List Ptr × List Ptr
queue xs [] = ([], xs)
queue xs (add p ∷ cs) = queue (xs ++ (p ∷ [])) cs
queue [] (take ∷ cs) = let (out, ys) = queue [] cs in (null ∷ out, ys)
queue (x ∷ xs) (take ∷ cs) = let (out, ys) = queue xs cs in (x ∷ out, ys)

-- Only objects are added, and none that is in the queue.
unfoldable pub Allowed : (Ptr → Bool) → List Ptr → List Call → Type 0
Allowed live xs [] = Unit {0}
Allowed live xs (add p ∷ cs) =
    (p ≢ null) × (live p ≡ true) × (has p xs ≡ false) × Allowed live (xs ++ (p ∷ [])) cs
Allowed live [] (take ∷ cs) = Allowed live [] cs
Allowed live (x ∷ xs) (take ∷ cs) = Allowed live xs cs

Allowed-live :
    (f g : Ptr → Bool) (xs : List Ptr) (cs : List Call)
    → ((a : Ptr) → g a ≡ f a)
    → Allowed f xs cs
    → Allowed g xs cs
unfolding Allowed
Allowed-live f g xs [] e v = tt
Allowed-live f g xs (add p ∷ cs) e (n, l, o, v) =
    (n, e p ∙ l, o, Allowed-live f g (xs ++ (p ∷ [])) cs e v)
Allowed-live f g [] (take ∷ cs) e v = Allowed-live f g [] cs e v
Allowed-live f g (x ∷ xs) (take ∷ cs) e v = Allowed-live f g xs cs e v

-- An OrderedIndex is a queue: from an index whose objects are a list on, whatever the order of the
-- calls of `add`, with an object that is not in the queue, and of `get`, they go through, the `get`
-- calls give what a queue gives, null where it is empty, and the index holds what the queue holds
-- then, its tail being the last.
pub run-queue :
    (h : Heap) (i : Index) (xs : List Ptr) (cs : List Call)
    → IsIndex h i xs
    → Allowed h.live xs cs
    → (g : Heap) × (j : Index) × (run h i cs ≡ some ((queue xs cs).0, g, j))
      × IsIndex g j (queue xs cs).1
unfolding run queue Allowed
run-queue h i xs [] w v = (h, i, refl, w)
run-queue h i xs (add p ∷ cs) w (n, l, o, v) =
    let (h', i', e, w', same) = enlist-IsIndex h p i xs n l w o in
    let (g, j, r, k) =
      run-queue h' i' (xs ++ (p ∷ [])) cs w' (Allowed-live h.live h'.live _ cs same v) in
    (g, j, rw (e, r) refl, k)
run-queue h i [] (take ∷ cs) w v =
    let (g, j, r, k) = run-queue h i [] cs w v in (g, j, rw (get-empty h i w, r) refl, k)
run-queue h i (x ∷ xs) (take ∷ cs) w v =
    let (i', e, w') = get-IsIndex h i x xs w in
    let (g, j, r, k) = run-queue h i' xs cs w' v in (g, j, rw (e, r) refl, k)
