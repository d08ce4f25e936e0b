-- ===== src/Memory/Examples.antt =====
-- Pages of 64 and of 100 bytes.
use commoncpp.Common.{◌+◌, ◌%◌, ◌≤◌, ◌<◌, ◌≡◌, inl, inr, refl, arith, [], ◌∷◌, none, some, ◌>>=◌}
use commoncpp.Memory.{
  word, header, Pager, Place, memalloc, used_of, utilization, pager, rounded, place, alloc,
}
use commoncpp.Memory.Blocks.{IsPager, memalloc-IsPager, alloc-IsPager, alloc-past_end}

alloc-IsPager_example :
    (b : Place) × (m : Pager) × (alloc (memalloc 4096 64) (some 0x1000) 20 ≡ some (b, m))
    × IsPager m (record { base = b.base; offset = b.offset; size = 20 } ∷ [])
    × (header ≤ b.offset)
    × (b.offset + 20 ≤ 64)
    × (b.offset % word ≡ 0)
unfolding memalloc
alloc-IsPager_example =
    alloc-IsPager (memalloc 4096 64) 0x1000 20 []
      (memalloc-IsPager 4096 64 refl (omega arith) (omega arith) (omega arith) refl
        (inr (omega arith)))
      refl refl (inl refl) (omega arith)

alloc-past_end_example :
    (b : Place) × (m : Pager) × (c : Place) × (m' : Pager) × (alloc
        (memalloc 4096 100)
        (some 0x1000)
        84
      ≡ some (b, m))
    × (alloc m none 50 ≡ some (c, m'))
    × (100 < c.offset)
alloc-past_end_example =
    alloc-past_end 4096 100 0x1000 50 (omega arith) (omega arith) (omega arith) (λ e. cc) refl
      (omega arith) (omega arith)

-- Three blocks in two pages.
three_blocks :
    (alloc (memalloc 4096 64) (some 0x1000) 20 >>= λ (a, m). alloc m (some 0x2000) 30 >>= λ (b, n).
    alloc n none 8 >>= λ (c, o).
    some (a.offset ∷ b.base ∷ b.offset ∷ c.base ∷ c.offset ∷ o.count ∷ []))
    ≡ some (16 ∷ 0x2000 ∷ 16 ∷ 0x2000 ∷ 48 ∷ 2 ∷ [])
unfolding alloc pager memalloc place rounded
three_blocks = refl

-- Too large a block, and a division by zero at a page of less than 100 bytes.
refused :
    (alloc (memalloc 4096 64) (some 0x1000) 49 ≡ none)
    × ((alloc (memalloc 4096 64) (some 0x1000) 20 >>= λ (a, m). utilization m) ≡ none)
unfolding alloc pager memalloc place rounded utilization used_of
refused = (refl, refl)
