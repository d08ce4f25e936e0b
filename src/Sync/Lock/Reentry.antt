-- ===== src/Sync/Lock/Reentry.antt =====
-- What the shares that a thread holds already do for its next call.
use commoncpp.Common.{
  ℕ, suc, ◌+◌, ◌-◌, ◌%◌, ◌^◌, ◌≤◌, ◌<◌, ◌≡◌, ◌↔◌, ◌⊎◌, inl, inr, refl, sym, ap, ◌∙◌, arith, false,
  List, [], ◌∷◌, ◌++◌, length, Option, none, some, ltb, ◌==◌, if◌then◌else◌, get_or-set_self,
  length-set, length-append, Bool-cases,
}
use commoncpp.Sync.{inc32}
use commoncpp.Sync.Access
use commoncpp.Sync.Access.{Access, Outcome, sleeps, returns}
use commoncpp.Sync.Lock.{
  Context, Lock, Found, own, slot, met, scan, claim, get_context, context_at, set_count, modify,
  access,
}

-- The shares of a thread: those of the newest context that it uses.
unfoldable pub held : ℕ → List Context → ℕ
held tid [] = 0
held tid (c ∷ cs) =
    if held tid cs == 0 then (if c.thread == tid then c.count else 0) else held tid cs

IsFound : ℕ → List Context → ℕ → Found → Type 0
IsFound tid cs at (own i) =
    (j : ℕ) × (i ≡ at + j)
    × (j < length cs)
    × ((context_at cs j).count ≡ held tid cs)
    × (0 < held tid cs)
IsFound tid cs at (slot none) = held tid cs ≡ 0
IsFound tid cs at (slot (some i)) =
    (j : ℕ) × (i ≡ at + j) × (j < length cs) × ((context_at cs j).count ≡ 0) × (held tid cs ≡ 0)

slot-held :
    (tid : ℕ) (cs : List Context) (at : ℕ) (u : Option ℕ)
    → IsFound tid cs at (slot u)
    → held tid cs ≡ 0
unfolding IsFound
slot-held tid cs at none v = v
slot-held tid cs at (some i) (j, e, l, h, p) = p

still_slot :
    (tid : ℕ) (c : Context) (cs : List Context) (at : ℕ) (u : Option ℕ)
    → (c.thread == tid) ≡ false
    → IsFound tid cs (at + 1) (slot u)
    → IsFound tid (c ∷ cs) at (slot u)
unfolding IsFound held
still_slot tid c cs at none t v = ground (arith, t, v)
still_slot tid c cs at (some i) t (j, e, l, h, p) =
    (suc j, omega arith, omega arith, h, ground (arith, t, p))

met-IsFound :
    (tid : ℕ) (c : Context) (cs : List Context) (at : ℕ) (f : Found)
    → IsFound tid cs (at + 1) f
    → IsFound tid (c ∷ cs) at (met tid c at f)
unfolding IsFound held
met-IsFound tid c cs at (own i) (j, e, l, h, p) =
    let n : (held tid cs == 0) ≡ false = ground arith in
    (suc j, omega arith, omega arith, rw n h, rw n p)
met-IsFound tid c cs at (slot u) v =
    let none_held = slot-held tid cs (at + 1) u v in
    elim (Bool-cases (c.count == 0)) [
      | inl z ↦ rw z (0, omega arith, omega arith, ground (arith, z), ground (arith, z, none_held))
      | inr z ↦ elim (Bool-cases (c.thread == tid)) [
        | inl t ↦
            rw (z, t)
              (
                0,
                omega arith,
                omega arith,
                ground (arith, t, none_held),
                ground (arith, z, t, none_held),
              )
        | inr t ↦ rw (z, t) (still_slot tid c cs at u t v)
      ]
    ]

scan-IsFound : (tid : ℕ) (cs : List Context) (at : ℕ) → IsFound tid cs at (scan tid cs at)
unfolding scan IsFound held
scan-IsFound tid [] at = refl
scan-IsFound tid (c ∷ cs) at =
    met-IsFound tid c cs at (scan tid cs (at + 1)) (scan-IsFound tid cs (at + 1))

last_context : (cs : List Context) (c : Context) → context_at (cs ++ (c ∷ [])) (length cs) ≡ c
last_context [] c = refl
last_context (d ∷ cs) c = last_context cs c

claim-held :
    (tid : ℕ) (cs : List Context) (f : Found)
    → IsFound tid cs 0 f
    → let (cs', i) = claim tid cs f in (context_at cs' i).count ≡ held tid cs
unfolding claim IsFound
claim-held tid cs (own i) (j, e, l, h, p) =
    let q : i ≡ j = omega arith in rw q (ap (λ c. c.count) (get_or-set_self cs j _ _ l) ∙ h)
claim-held tid cs (slot none) v = ap (λ c. c.count) (last_context cs _) ∙ sym v
claim-held tid cs (slot (some i)) (j, e, l, h, p) =
    let q : i ≡ j = omega arith in
    rw q (ap (λ c. c.count) (get_or-set_self cs j _ _ l) ∙ (h ∙ sym p))

claim-place :
    (tid : ℕ) (cs : List Context) (f : Found)
    → IsFound tid cs 0 f
    → let (cs', i) = claim tid cs f in i < length cs'
unfolding claim IsFound
claim-place tid cs (own i) (j, e, l, h, p) =
    rw (length-set cs i (record (context_at cs i) { thread = tid })) (omega arith)
claim-place tid cs (slot none) v =
    rw (length-append cs (record { thread = tid; count = 0 } ∷ [])) (omega arith)
claim-place tid cs (slot (some i)) (j, e, l, h, p) =
    rw (length-set cs i (record (context_at cs i) { thread = tid })) (omega arith)

get_context-held :
    (tid : ℕ) (cs : List Context)
    → let (cs', i) = get_context tid cs in (context_at cs' i).count ≡ held tid cs
unfolding get_context
get_context-held tid cs = claim-held tid cs (scan tid cs 0) (scan-IsFound tid cs 0)

get_context-counted :
    (tid : ℕ) (cs : List Context)
    → let (cs', i) = get_context tid cs in
      (context_at (set_count cs' i (inc32 (context_at cs' i).count)) i).count ≡ inc32 (held tid cs)
unfolding get_context
get_context-counted tid cs =
    ap (λ c. c.count)
      (get_or-set_self _ _ _ _ (claim-place tid cs (scan tid cs 0) (scan-IsFound tid cs 0)))
    ∙ ap inc32 (get_context-held tid cs)

-- `access` of a ConditionalLock by a thread that holds fewer than 2 ^ 32 - 1 shares goes in at once
-- just when the thread shares already or no thread waits to modify; else it goes to sleep.
pub access-returns :
    (tid : ℕ) (l : Lock)
    → held tid l.contexts + 1 < 2 ^ 32
    → ((access tid l).1 ≡ returns) ↔ ((0 < held tid l.contexts) ⊎ (l.state.pending ≡ 0))
unfolding access
access-returns tid l small = rw (get_context-counted tid l.contexts) (ground arith)

-- `modify` of a ConditionalLock, whose count of shares is at least that of the thread, goes in at
-- once just when no more is shared than the thread itself shares; else it goes to sleep.
pub modify-returns :
    (tid : ℕ) (l : Lock)
    → held tid l.contexts ≤ l.state.sharing
    → l.state.sharing < 2 ^ 32
    → ((modify tid l).1 ≡ returns) ↔ (l.state.sharing ≡ held tid l.contexts)
unfolding modify Access.modify
modify-returns tid l le small =
    rw (get_context-held tid l.contexts)
      (elim (Bool-cases (ltb 0 ((l.state.sharing + 2 ^ 32 - held tid l.contexts) % 2 ^ 32))) [
        | inl e ↦ rw e (ground (arith, e))
        | inr e ↦ rw e (ground (arith, e))
      ])
