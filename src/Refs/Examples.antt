-- ===== src/Refs/Examples.antt =====
-- Two objects, the first of which two references are held to.
use commoncpp.Common.{
  ℕ, ◌+◌, ◌≡◌, ◌≢◌, refl, arith, ◌&&◌, true, false, none, some, ltb, ◌==◌, if◌then◌else◌, ◌>>=◌,
}
use commoncpp.Linked.{Ptr, null}
use commoncpp.Refs.{
  Objects, retain, release, retain_any, release_any, type_ref, clear, References, set_object,
  set_ref,
}
use commoncpp.Refs.Counts.{
  one, IsCounted, Freed, set_object-IsCounted, set_ref-IsCounted, set_ref_self,
}

abbrev two_refs : Ptr → ℕ
two_refs p = if p == 1 then 2 else if p == 2 then 1 else 0

abbrev objects : Objects
objects = record { live = λ p. ltb 0 p && ltb p 3; refs = two_refs }

abbrev others : Ptr → ℕ
others p = if p == 1 then 2 else 0

objects-IsCounted : IsCounted objects (λ p. others p + one 2 p)
objects-IsCounted = record {
  counts = λ p n l. ground (arith, l, n);
  lives = λ p n h. ground (arith, h, n);
}

set_object-IsCounted_run :
    (o : Objects) × (set_object objects 2 1 ≡ some (o, 1))
    × IsCounted o (λ p. others p + one 1 p)
    × Freed objects 2 (λ p. others p + one 1 p) o
set_object-IsCounted_run = set_object-IsCounted objects 2 1 others objects-IsCounted (λ n. refl)

-- References 0 and 1 hold object 1, reference 2 the other one.
abbrev references : References
references k = if k == 2 then 2 else 1

set_ref-IsCounted_example :
    (o : Objects) × (r : References) × (set_ref objects references 2 0 ≡ some (o, r))
    × (r 2 ≡ 1)
    × ((k : ℕ) → k ≢ 2 → r k ≡ references k)
    × IsCounted o (λ p. others p + one 1 p)
    × Freed objects 2 (λ p. others p + one 1 p) o
set_ref-IsCounted_example =
    set_ref-IsCounted objects references 2 0 others (λ e. cc) objects-IsCounted (λ n. refl)

set_ref_self_example :
    (o : Objects) × (r : References) × (set_ref objects references 2 2 ≡ some (o, r))
    × (r 2 ≡ null)
    × (o.live 2 ≡ true)
    × (o.refs 2 ≡ 1)
set_ref_self_example = set_ref_self objects references 2 others (λ e. cc) objects-IsCounted

-- A third reference to 1, the last one to 2 gone, and a use of 2 after that.
lives :
    ((type_ref objects 1 >>= λ (o, r). some (o.refs 1)) ≡ some 3)
    × ((clear objects 2 >>= λ (o, r). some (o.live 2)) ≡ some false)
    × ((clear objects 2 >>= λ (o, r). set_object o null 2) ≡ none)
    × ((set_object objects 2 2 >>= λ (o, r). some (o.live r)) ≡ some true)
    × ((set_ref objects references 2 2 >>= λ (o, r). some (o.refs 2 + r 2)) ≡ some 1)
unfolding type_ref clear set_object set_ref retain_any release_any retain release
lives = (refl, refl, refl, refl, refl)
