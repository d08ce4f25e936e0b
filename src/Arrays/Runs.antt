-- ===== src/Arrays/Runs.antt =====
-- Calls of `push` and of `pull` on a queue, each of them one turn.
use commoncpp.Common.{
  ℕ, ◌+◌, ◌-◌, ◌<◌, ◌≡◌, ◌≢◌, refl, sym, ap, ◌∙◌, arith, List, [], ◌∷◌, ◌++◌, Option, some, leb,
  if◌then◌else◌, ◌>>=◌, length, inl, inr, Bool-cases, true, false,
}
use commoncpp.Linked.{Ptr, null}
use commoncpp.Refs.{Objects}
use commoncpp.Refs.Counts.{one, IsCounted-eq}
use commoncpp.Arrays.{queue, Array, Turn, waits, done, is_plain, count, push, pull}
use commoncpp.Arrays.Slots.{refs_in}
use commoncpp.Arrays.Ring.{
  IsRing, contents, length-contents, AllCounted, push-full, pushed, push-done, pushed-IsRing,
  contents-pushed, pull-empty, pulled, pulled-IsRing, contents-pulled, pulled-AllCounted, pull-done,
}

pub data Call : Type 0 where
  put : Ptr → Call
  take : Call

-- What the calls come to, one after the other, and what they leave.
unfoldable pub run : Objects → Array → List Call → Option (List (Turn × Ptr) × Objects × Array)
run o a [] = some ([], o, a)
run o a (put p ∷ cs) = do
  (o', a', t) ← push o a p
  (out, o'', a'') ← run o' a' cs
  some ((t, null) ∷ out, o'', a'')
run o a (take ∷ cs) =
    let (a', t, v) = pull a in run o a' cs >>= λ (out, o'', a''). some ((t, v) ∷ out, o'', a'')

-- The same calls on a queue with room for `room` objects.
unfoldable pub bounded : ℕ → List Ptr → List Call → List (Turn × Ptr) × List Ptr
bounded room xs [] = ([], xs)
bounded room xs (put p ∷ cs) =
    let full = leb room (length xs) in
    let (out, ys) = bounded room (if full then xs else xs ++ (p ∷ [])) cs in
    ((if full then waits else done, null) ∷ out, ys)
bounded room [] (take ∷ cs) = let (out, ys) = bounded room [] cs in ((waits, null) ∷ out, ys)
bounded room (x ∷ xs) (take ∷ cs) = let (out, ys) = bounded room xs cs in ((done, x) ∷ out, ys)

-- The references that the calls hand out.
abbrev pub gained : List (Turn × Ptr) → Ptr → ℕ
gained [] p = 0
gained ((t, v) ∷ out) p = one v p + gained out p

-- The objects that are pushed are held outside the array, and are no null.
abbrev pub AreHeld : (Ptr → ℕ) → List Call → Type 0
AreHeld held [] = Unit {0}
AreHeld held (put p ∷ cs) = (p ≢ null) × (held p ≢ 0) × AreHeld held cs
AreHeld held (take ∷ cs) = AreHeld held cs

AreHeld-more :
    (held : Ptr → ℕ) (x : Ptr) (cs : List Call)
    → AreHeld held cs
    → AreHeld (λ p. held p + one x p) cs
AreHeld-more held x [] h = tt
AreHeld-more held x (put p ∷ cs) (n, m, h) =
    (n, λ z. m (omega (arith, z)), AreHeld-more held x cs h)
AreHeld-more held x (take ∷ cs) h = AreHeld-more held x cs h

abbrev pub NoNull : List Ptr → Type 0
NoNull [] = Unit {0}
NoNull (x ∷ xs) = (x ≢ null) × NoNull xs

NoNull-append : (xs : List Ptr) (p : Ptr) → NoNull xs → p ≢ null → NoNull (xs ++ (p ∷ []))
NoNull-append [] p n m = (m, tt)
NoNull-append (x ∷ xs) p (k, n) m = (k, NoNull-append xs p n m)

-- A queue of objects, and the references to them.
pub record IsQueue (o : Objects) (a : Array) (held : Ptr → ℕ) (xs : List Ptr) : Type 0 where
  pub mode_is : a.mode ≡ queue
  pub ring : IsRing a
  pub contents_are : contents a ≡ xs
  pub no_null : NoNull xs
  pub counted : AllCounted o a held

IsQueue-eq :
    (o : Objects) (a : Array) (f g : Ptr → ℕ) (xs : List Ptr)
    → IsQueue o a f xs
    → ((p : Ptr) → f p ≡ g p)
    → IsQueue o a g xs
IsQueue-eq o a f g xs q e = record {
  mode_is = q.mode_is;
  ring = q.ring;
  contents_are = q.contents_are;
  no_null = q.no_null;
  counted =
      IsCounted-eq o (λ p. f p + refs_in a.slots p) (λ p. g p + refs_in a.slots p) q.counted
        (λ p n. ap (λ k. k + refs_in a.slots p) (e p));
}

pulled-IsQueue :
    (o : Objects) (a : Array) (held : Ptr → ℕ) (x : Ptr) (xs : List Ptr)
    → IsQueue o a held (x ∷ xs)
    → IsQueue o (pulled a) (λ p. held p + one x p) xs
pulled-IsQueue o a held x xs q =
    let (h, w) = contents-pulled a x xs q.ring q.contents_are in
    record {
      mode_is = q.mode_is;
      ring = pulled-IsRing a q.ring;
      contents_are = w;
      no_null = q.no_null.1;
      counted = pulled-AllCounted o a x held q.ring h q.counted;
    }

pushed-IsQueue :
    (o o' : Objects) (a : Array) (held : Ptr → ℕ) (p : Ptr) (xs : List Ptr)
    → IsQueue o a held xs
    → p ≢ null
    → length xs + 1 < a.size
    → AllCounted o' (pushed a p) held
    → IsQueue o' (pushed a p) held (xs ++ (p ∷ []))
pushed-IsQueue o o' a held p xs q n l c =
    let k : count a ≡ length xs = sym (length-contents a) ∙ ap length q.contents_are in
    record {
      mode_is = q.mode_is;
      ring = pushed-IsRing a p q.ring;
      contents_are =
          contents-pushed a p q.ring (omega (arith, k)) ∙ ap (λ w. w ++ (p ∷ [])) q.contents_are;
      no_null = NoNull-append xs p q.no_null n;
      counted = c;
    }

-- A queue of `size` slots is a bounded queue with room for `size` - 1 objects: whatever the order
-- of the calls of `push`, with objects that references outside are held to, and of `pull`, they use
-- no object that is deallocated, wait and are done where the bounded queue does, and hand out the
-- objects that it does; the counts are those of the references held, those that `pull` hands out
-- included.
pub run-bounded :
    (o : Objects) (a : Array) (held : Ptr → ℕ) (xs : List Ptr) (cs : List Call)
    → IsQueue o a held xs
    → AreHeld held cs
    → (o' : Objects) × (a' : Array) × (run o a cs ≡ some ((bounded (a.size - 1) xs cs).0, o', a'))
      × IsQueue o' a'
          (λ p. held p + gained (bounded (a.size - 1) xs cs).0 p)
          (bounded (a.size - 1) xs cs).1
unfolding run bounded
run-bounded o a held xs [] q h =
    (o, a, refl, IsQueue-eq o a held (λ p. held p + 0) xs q (λ p. omega arith))
run-bounded o a held xs (put p ∷ cs) q (n, m, h) =
    let k : count a ≡ length xs = sym (length-contents a) ∙ ap length q.contents_are in
    let t : is_plain a.mode ≡ false = ap is_plain q.mode_is in
    elim (Bool-cases (leb (a.size - 1) (length xs))) [
      | inl f ↦
          let e = push-full o a p t (ground (arith, f, k)) in
          let (o', a', r, v) = run-bounded o a held xs cs q h in
          let out = (bounded (a.size - 1) xs cs).0 in
          rw f (
            o',
            a',
            rw (e, r) refl,
            IsQueue-eq o' a' (λ b. held b + gained out b) (λ b. held b + (0 + gained out b))
                (bounded (a.size - 1) xs cs).1 v (λ b. omega arith),
          )
      | inr f ↦
          let l : length xs + 1 < a.size = ground (arith, f, q.ring.head_in) in
          let live : p ≢ null → o.live p ≡ true =
            λ _. q.counted.lives p n (λ z. m (omega (arith, z))) in
          let (o1, e, c) = push-done o a p held t q.ring (omega (arith, k)) q.counted live in
          let ys : List Ptr = xs ++ (p ∷ []) in
          let (o', a', r, v) =
            run-bounded o1 (pushed a p) held ys cs (pushed-IsQueue o o1 a held p xs q n l c) h in
          let out = (bounded (a.size - 1) ys cs).0 in
          rw f (
            o',
            a',
            rw (e, r) refl,
            IsQueue-eq o' a' (λ b. held b + gained out b) (λ b. held b + (0 + gained out b))
                (bounded (a.size - 1) ys cs).1 v (λ b. omega arith),
          )
    ]
run-bounded o a held [] (take ∷ cs) q h =
    let t : is_plain a.mode ≡ false = ap is_plain q.mode_is in
    let e = pull-empty a t q.ring (sym (length-contents a) ∙ ap length q.contents_are) in
    let (o', a', r, v) = run-bounded o a held [] cs q h in
    let out = (bounded (a.size - 1) [] cs).0 in
    (
      o',
      a',
      rw (e, r) refl,
      IsQueue-eq o' a' (λ b. held b + gained out b) (λ b. held b + (0 + gained out b))
          (bounded (a.size - 1) [] cs).1 v (λ b. omega arith),
    )
run-bounded o a held (x ∷ xs) (take ∷ cs) q h =
    let e = pull-done a x xs q.mode_is q.ring q.contents_are q.no_null.0 in
    let more : Ptr → ℕ = λ p. held p + one x p in
    let (o', a', r, v) =
      run-bounded o (pulled a) more xs cs (pulled-IsQueue o a held x xs q)
        (AreHeld-more held x cs h) in
    let out = (bounded (a.size - 1) xs cs).0 in
    (
      o',
      a',
      rw (e, r) refl,
      IsQueue-eq o' a' (λ b. more b + gained out b) (λ b. held b + (one x b + gained out b))
          (bounded (a.size - 1) xs cs).1 v (λ b. omega arith),
    )
