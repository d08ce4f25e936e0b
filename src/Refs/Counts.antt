-- ===== src/Refs/Counts.antt =====
-- The counts of the objects are those of the references to them.
use commoncpp.Common.{
  ℕ, ◌+◌, ◌-◌, ◌≡◌, ◌≢◌, refl, sym, ap, ◌∙◌, arith, true, false, not, ◌&&◌, some, ltb, ◌==◌,
  if◌then◌else◌, ◌>>=◌, inl, inr, Bool-cases,
}
use commoncpp.Linked.{Ptr, null, put}
use commoncpp.Refs.{
  Objects, retain, release, retain_any, release_any, clear, References, set_object, set_ref,
}

-- One reference to an object, if it is that object and no null.
abbrev pub one : Ptr → Ptr → ℕ
one a p = if a == null then 0 else if a == p then 1 else 0

-- `held p` references are held to each object p: its count says so, and it is not deallocated.
pub record IsCounted (o : Objects) (held : Ptr → ℕ) : Type 0 where
  pub counts : (p : Ptr) → p ≢ null → o.live p ≡ true → o.refs p ≡ held p
  pub lives : (p : Ptr) → p ≢ null → held p ≢ 0 → o.live p ≡ true

pub IsCounted-eq :
    (o : Objects) (f g : Ptr → ℕ)
    → IsCounted o f
    → ((p : Ptr) → p ≢ null → f p ≡ g p)
    → IsCounted o g
IsCounted-eq o f g c e = record {
  counts = λ p n l. c.counts p n l ∙ e p n;
  lives = λ p n h. c.lives p n (λ z. h (sym (e p n) ∙ z));
}

pub retain_any-IsCounted :
    (o : Objects) (a : Ptr) (held : Ptr → ℕ)
    → IsCounted o held
    → (a ≢ null → o.live a ≡ true)
    → (o' : Objects) × (retain_any o a ≡ some o')
      × IsCounted o' (λ p. held p + one a p)
      × (o'.live ≡ o.live)
unfolding retain_any retain
retain_any-IsCounted o a held c l = elim (Bool-cases (a == null)) [
  | inl z ↦
      (o, rw z refl, IsCounted-eq o held (λ p. held p + one a p) c (λ p n. ground (arith, z)), refl)
  | inr z ↦
      let la : o.live a ≡ true = l (ground (arith, z)) in
      (
        record o { refs = put o.refs a (o.refs a + 1) },
        rw (z, la) refl,
        record {
          counts = λ p n k. ground (arith, c.counts p n k, z);
          lives = λ p n h. elim (Bool-cases (a == p)) [
            | inl e ↦ ground (arith, e, la, ap o.live)
            | inr e ↦ c.lives p n (ground (arith, e, z, h))
          ];
        },
        refl,
      )
]

-- What the release of `a` deallocates: that object, if no reference is left.
abbrev pub Freed : Objects → Ptr → (Ptr → ℕ) → Objects → Type 0
Freed o a held o' = (p : Ptr) → p ≢ null → o'.live p ≡ (o.live p && not ((p == a) && (held p == 0)))

pub release_any-IsCounted :
    (o : Objects) (a : Ptr) (held : Ptr → ℕ)
    → IsCounted o (λ p. held p + one a p)
    → (o' : Objects) × (release_any o a ≡ some o') × IsCounted o' held × Freed o a held o'
unfolding release_any release
release_any-IsCounted o a held c = elim (Bool-cases (a == null)) [
  | inl z ↦ (
    o,
    rw z refl,
    IsCounted-eq o (λ p. held p + one a p) held c (λ p n. ground (arith, z)),
    λ p n. ground (arith, z),
  )
  | inr z ↦
      let na : a ≢ null = ground (arith, z) in
      let la : o.live a ≡ true = c.lives a na (ground (arith, z)) in
      let ra : o.refs a ≡ held a + 1 = ground (arith, c.counts a na la, z) in
      elim (Bool-cases (ltb (o.refs a) 2)) [
        | inl y ↦ (
          record { refs = put o.refs a (o.refs a - 1); live = put o.live a false },
          rw (z, la, y) refl,
          record {
            counts = λ p n k. ground (arith, c.counts p n, k, z);
            lives = λ p n h. elim (Bool-cases (p == a)) [
              | inl e ↦ absurd (ground (arith, e, h, y, ra, ap held))
              | inr e ↦ ground (arith, e, c.lives p n, h)
            ];
          },
          λ p n. elim (Bool-cases (p == a)) [
            | inl e ↦ ground (arith, e, y, ra, la, ap held, ap o.live)
            | inr e ↦ ground (arith, e)
          ],
        )
        | inr y ↦ (
          record o { refs = put o.refs a (o.refs a - 1) },
          rw (z, la, y) refl,
          record {
            counts = λ p n k. elim (Bool-cases (p == a)) [
              | inl e ↦ ground (arith, e, ra, ap held)
              | inr e ↦ ground (arith, e, c.counts p n k, z)
            ];
            lives = λ p n h. c.lives p n (ground (arith, h));
          },
          λ p n. elim (Bool-cases (p == a)) [
            | inl e ↦ ground (arith, e, y, ra, ap held)
            | inr e ↦ ground (arith, e)
          ],
        )
      ]
]

-- An object that is taken before the old one is given up.
record Exchange (o : Objects) (this object : Ptr) (held : Ptr → ℕ) : Type 0 where
  taken : Objects
  after : Objects
  takes : retain_any o object ≡ some taken
  gives_up : release_any taken this ≡ some after
  counted : IsCounted after (λ p. held p + one object p)
  freed : Freed o this (λ p. held p + one object p) after

exchange :
    (o : Objects) (this object : Ptr) (held : Ptr → ℕ)
    → IsCounted o (λ p. held p + one this p)
    → (object ≢ null → o.live object ≡ true)
    → Exchange o this object held
exchange o this object held c l =
    let (o1, e1, c1, l1) = retain_any-IsCounted o object (λ p. held p + one this p) c l in
    let now : Ptr → ℕ = λ p. held p + one object p in
    let c2 =
      IsCounted-eq o1 (λ p. held p + one this p + one object p) (λ p. now p + one this p) c1
        (λ p n. omega arith) in
    let (o2, e2, c3, f) = release_any-IsCounted o1 this now c2 in
    record {
      taken = o1;
      after = o2;
      takes = e1;
      gives_up = e2;
      counted = c3;
      freed = λ p n. f p n ∙ ap (λ g. g p && not ((p == this) && (now p == 0))) l1;
    }

-- Where the counts of the objects are those of the references held, `TypeRef::set` to an object
-- that is live, or to null, uses no object that is deallocated, and the counts are those of the
-- references held afterwards; the old object is deallocated if no reference to it is left, and no
-- other object is, so that a reference that is set to its own object keeps it.
pub set_object-IsCounted :
    (o : Objects) (this object : Ptr) (held : Ptr → ℕ)
    → IsCounted o (λ p. held p + one this p)
    → (object ≢ null → o.live object ≡ true)
    → (o' : Objects) × (set_object o this object ≡ some (o', object))
      × IsCounted o' (λ p. held p + one object p)
      × Freed o this (λ p. held p + one object p) o'
unfolding set_object clear
set_object-IsCounted o this object held c l =
    let x = exchange o this object held c l in
    (x.after, rw (x.takes, ◌>>=◌, x.gives_up) refl, x.counted, x.freed)

-- Where the counts of the objects are those of the references held, `TypeRef::set` of a reference
-- from another one, whose object is live or null, uses no object that is deallocated and makes the
-- reference hold that object and no other reference a different one; the counts are those of the
-- references held afterwards, and the old object is deallocated just when no reference to it is
-- left, and no other object is.
pub set_ref-IsCounted :
    (o : Objects) (r : References) (this ptr : ℕ) (held : Ptr → ℕ)
    → ptr ≢ this
    → IsCounted o (λ p. held p + one (r this) p)
    → (r ptr ≢ null → o.live (r ptr) ≡ true)
    → (o' : Objects) × (r' : References) × (set_ref o r this ptr ≡ some (o', r'))
      × (r' this ≡ r ptr)
      × ((k : ℕ) → k ≢ this → r' k ≡ r k)
      × IsCounted o' (λ p. held p + one (r ptr) p)
      × Freed o (r this) (λ p. held p + one (r ptr) p) o'
unfolding set_ref clear
set_ref-IsCounted o r this ptr held ne c l =
    let x = exchange o (r this) (r ptr) held c l in
    (
      x.after,
      put (put r this null) this (put r this null ptr),
      rw (x.takes, ◌>>=◌, x.gives_up) refl,
      ground arith,
      λ k h. ground arith,
      x.counted,
      x.freed,
    )

-- Where the counts of the objects are those of the references held, `TypeRef::set` of a reference
-- that is not null from itself makes it null, while its object is not deallocated and its count
-- still has the reference that is gone.
pub set_ref_self :
    (o : Objects) (r : References) (this : ℕ) (held : Ptr → ℕ)
    → r this ≢ null
    → IsCounted o (λ p. held p + one (r this) p)
    → (o' : Objects) × (r' : References) × (set_ref o r this this ≡ some (o', r'))
      × (r' this ≡ null)
      × (o'.live (r this) ≡ true)
      × (o'.refs (r this) ≡ held (r this) + 1)
unfolding set_ref clear
set_ref_self o r this held n c =
    let live : o.live (r this) ≡ true = c.lives (r this) n (ground arith) in
    let x = exchange o (r this) (r this) held c (λ h. live) in
    let alive : x.after.live (r this) ≡ true = x.freed (r this) n ∙ ground (arith, live) in
    (
      x.after,
      put (put r this null) this (put r this null this),
      rw (x.takes, ◌>>=◌, x.gives_up) refl,
      ground arith,
      alive,
      x.counted.counts (r this) n alive ∙ ground arith,
    )
