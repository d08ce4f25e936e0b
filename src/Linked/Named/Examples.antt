-- ===== src/Linked/Named/Examples.antt =====
-- A table of four lists: "a" and "e" under the key 1, "b" under 2.
use commoncpp.Common.{
  ℕ, zero, suc, ◌<◌, ◌≡◌, ◌≢◌, refl, arith, Bool, true, false, ◌&&◌, List, [], ◌∷◌, none, some,
  ◌==◌, if◌then◌else◌, ◌>>=◌, ltb,
}
use commoncpp.Linked.{Ptr, null, Heap, put}
use commoncpp.Linked.Chain.{has, Chain, IsChain}
use commoncpp.Linked.Ordered.{empty}
use commoncpp.Linked.Named.{Text, Slots, key_from, keyindex, slot, find, seek_id, add, construct}
use commoncpp.Linked.Named.Lookup.{HasIds}
use commoncpp.Linked.Named.Add.{add-lost}
use commoncpp.Linked.Named.Table.{map, count, index}
use commoncpp.Linked.Named.Table.Walk.{InSlot, index-count}
use commoncpp.Linked.Named.Table.Keys.{map-add}

abbrev same : Text → Text → Bool
same [] [] = true
same [] (d ∷ ds) = false
same (c ∷ cs) [] = false
same (c ∷ cs) (d ∷ ds) = (c == d) && same cs ds

abbrev start : Heap
start = record {
  live = λ p. ltb p 10;
  next = put (λ p. null) 1 2;
  prev = λ p. null;
  root = λ p. null;
  ident = λ p.
      if p == 1
      then some (0x61 ∷ [])
      else if p == 2
      then some (0x65 ∷ [])
      else if p == 3
      then some (0x62 ∷ [])
      else none;
}

abbrev table : Slots
table = put (put (λ k. null) 1 1) 2 3

abbrev lists : ℕ → List Ptr
lists k = if k == 1 then 1 ∷ 2 ∷ [] else if k == 2 then 3 ∷ [] else []

ae-IsChain : IsChain start 1 (1 ∷ 2 ∷ [])
ae-IsChain = ((refl, ground arith, refl, (refl, ground arith, refl, refl)), (refl, (refl, tt)))

ae-HasIds : HasIds start (1 ∷ 2 ∷ [])
ae-HasIds = ((0x61 ∷ [], refl), ((0x65 ∷ [], refl), tt))

keys :
    (slot (0x61 ∷ []) 4 ≡ 1)
    × (slot (0x65 ∷ []) 4 ≡ 1)
    × (slot (0x69 ∷ []) 4 ≡ 1)
    × (slot (0x62 ∷ []) 4 ≡ 2)
    × (keyindex (0x61 ∷ 0x62 ∷ 0x63 ∷ []) 100 ≡ 3)
unfolding keyindex key_from
keys = (refl, refl, refl, refl, refl)

add-lost_example :
    (g : Heap) × (root : Slots) × (add same 3 start table 4 (0x61 ∷ []) 4 ≡ some (g, root))
    × IsChain g (root (slot (0x61 ∷ []) 4)) (2 ∷ [])
    × (find same 3 g (root (slot (0x61 ∷ []) 4)) (0x61 ∷ []) ≡ some null)
unfolding keyindex key_from
add-lost_example =
    add-lost same 3 start table 4 (0x61 ∷ []) 4 1 (2 ∷ []) ae-IsChain ae-HasIds (omega arith)
      (ground arith) refl refl refl refl

map-add_example :
    (g : Heap) × (root : Slots) × (add same 3 start table 4 (0x69 ∷ []) 4 ≡ some (g, root))
    × (map same 4 g root (0x69 ∷ []) 4 ≡ some 4)
    × IsChain g (root (slot (0x69 ∷ []) 4)) (4 ∷ 1 ∷ 2 ∷ [])
    × ((k : ℕ) (ys : List Ptr)
        → k ≢ slot (0x69 ∷ []) 4
        → IsChain start (table k) ys
        → has 4 ys ≡ false
        → IsChain g (root k) ys)
unfolding keyindex key_from
map-add_example =
    map-add same 3 start table 4 (0x69 ∷ []) 4 (1 ∷ 2 ∷ []) ae-IsChain ae-HasIds (omega arith)
      (ground arith) refl refl refl refl

chains : (k : ℕ) → k < 4 → Chain start (table k) (lists k)
chains zero l = refl
chains (suc zero) l = ae-IsChain.0
chains (suc (suc zero)) l = (refl, ground arith, refl, refl)
chains (suc (suc (suc zero))) l = refl
chains (suc (suc (suc (suc k)))) l = absurd (omega arith)

list_keys : (k : ℕ) → k < 4 → InSlot start 4 k (lists k)
unfolding keyindex key_from
list_keys zero l = tt
list_keys (suc zero) l = ((0x61 ∷ [], refl, refl), ((0x65 ∷ [], refl, refl), tt))
list_keys (suc (suc zero)) l = ((0x62 ∷ [], refl, refl), tt)
list_keys (suc (suc (suc zero))) l = tt
list_keys (suc (suc (suc (suc k)))) l = absurd (omega arith)

index-count_example :
    (index 4 start table 4 ≡ some (1 ∷ 2 ∷ 3 ∷ [])) × (count 4 start table 4 ≡ some 3)
index-count_example =
    index-count 4 start table 4 lists (omega arith) (record { chain = chains; keys = list_keys })
      (omega arith)

-- Of three attributes that are put into a list the second is not linked any more.
attributes :
    (construct same 3 start empty 4 (0x63 ∷ []) >>= λ (h, i).
    construct same 3 h i 5 (0x64 ∷ []) >>= λ (h1, j).
    construct same 3 h1 j 6 (0x65 ∷ []) >>= λ (g, k). some (k.head ∷ g.next 4 ∷ g.next 6 ∷ []))
    ≡ some (4 ∷ 6 ∷ null ∷ [])
unfolding construct seek_id
attributes = refl
