-- ===== src/Memory.antt =====
-- corelib/memory.cpp, class memalloc: memory that is handed out from pages and freed all at once. A
-- page is its address and what is used of it, its header included; of a `void *` and of a `page_t`
-- the sizes are those of a system of 64 bits. `none` is an exception, or the call of `abort`.
pub mod Pages
pub mod Blocks
mod Examples
use commoncpp.Common.{
  ℕ, zero, suc, ◌+◌, ◌-◌, ◌*◌, ◌/◌, ◌%◌, ◌^◌, Bool, true, false, not, ◌&&◌, ◌||◌, List, [], ◌∷◌,
  Option, none, some, ltb, leb, ◌==◌, if◌then◌else◌, ◌>>=◌, length,
}

abbrev pub word : ℕ
word = 8

abbrev pub header : ℕ
header = 16

pub record Page : Type 0 where
  pub addr : ℕ
  pub used : ℕ

pub record Pager : Type 0 where
  pub pagesize : ℕ
  pub align : ℕ
  pub count : ℕ
  pub limit : ℕ
  pub page : List Page

-- Memory within a page.
pub record Place : Type 0 where
  pub base : ℕ
  pub offset : ℕ

-- The constructor, given what the system says the size of its pages is.
unfoldable pub memalloc : ℕ → ℕ → Pager
memalloc paging ps =
    let size : ℕ =
      if ps == 0
      then paging
      else if ltb paging ps
      then (ps + paging - 1) / paging * paging
      else ps in
    record {
      pagesize = size;
      align = if leb paging size then word else 0;
      count = 0;
      limit = 0;
      page = [];
    }

unfoldable pub memalloc_copy : Pager → Pager
memalloc_copy copy = record copy { count = 0; limit = 0; page = [] }

unfoldable pub addresses : List Page → List ℕ
addresses [] = []
addresses (p ∷ ps) = p.addr ∷ addresses ps

-- What is left, and the pages that are freed.
unfoldable pub purge : Pager → Pager × List ℕ
unfolding addresses
purge m = (record m { count = 0; page = [] }, addresses m.page)

-- `this`, the source, and the pages that are freed.
unfoldable pub assign : Pager → Pager → Pager × Pager × List ℕ
unfolding purge
assign m source = (source, record source { count = 0; page = [] }, (purge m).1)

unfoldable pub used_of : List Page → ℕ
used_of [] = 0
used_of (p ∷ ps) = p.used + used_of ps

-- `none` is a division by zero.
unfoldable pub utilization : Pager → Option ℕ
unfolding used_of
utilization m =
    let alloc : ℕ = m.pagesize * length m.page / 100 in
    if used_of m.page == 0
    then some 0
    else if alloc == 0
    then none
    else some (used_of m.page / alloc % 2 ^ 32)

abbrev pub new_page : ℕ → Page
new_page addr = record {
  addr = addr;
  used = if addr % word == 0 then header else header + (word - addr % word);
}

-- `got` is what posix_memalign or malloc gives.
unfoldable pub pager : Pager → Option ℕ → Option (Page × Pager)
pager m got =
    let full = not (m.limit == 0) && leb m.limit m.count in
    if full
    then none
    else got >>= λ addr.
        some (
          new_page addr,
          record m { count = (m.count + 1) % 2 ^ 32; page = new_page addr ∷ m.page },
        )

-- `while(size % sizeof(void *)) ++size`, of which seven rounds are enough.
unfoldable pub rounded : ℕ → ℕ → ℕ
rounded zero size = size
rounded (suc fuel) size =
    let rest = rounded fuel (size + 1) in if size % word == 0 then size else rest

-- The differences of `size_t`.
abbrev pub minus : ℕ → ℕ → ℕ
minus a b = (a + 2 ^ 64 - b) % 2 ^ 64

abbrev pub grow : Page → ℕ → Page
grow p size = record p { used = (p.used + size % 2 ^ 32) % 2 ^ 32 }

-- The first page with room, and the pages when it is taken there.
unfoldable pub place : ℕ → ℕ → List Page → Option (Place × List Page)
place pagesize size [] = none
place pagesize size (p ∷ ps) =
    let rest = place pagesize size ps >>= λ (b, qs). some (b, p ∷ qs) in
    if leb size (minus pagesize p.used)
    then some (record { base = p.addr; offset = p.used }, grow p size ∷ ps)
    else rest

-- The memory in a new page, which is in front.
abbrev pub in_new : Pager → Option ℕ → ℕ → Option (Place × Pager)
in_new m got size = do
  (p, n) ← pager m got
  some (record { base = p.addr; offset = p.used }, record n { page = grow p size ∷ m.page })

abbrev pub or_new : Pager → Option ℕ → ℕ → Option (Place × List Page) → Option (Place × Pager)
or_new m got size none = in_new m got size
or_new m got size (some (b, ps)) = some (b, record m { page = ps })

unfoldable pub alloc : Pager → Option ℕ → ℕ → Option (Place × Pager)
alloc m got size =
    if ltb (minus m.pagesize header) size
    then none
    else or_new m got (rounded 7 size) (place m.pagesize (rounded 7 size) m.page)
