-- ===== src/Refs.antt =====
-- corelib/typeref.cpp, class TypeRef: references to objects that count them. An object is a number, 0
-- is null. `none` is the use of an object that was deallocated.
pub mod Counts
mod Examples
use commoncpp.Common.{
  ℕ, ◌+◌, ◌-◌, Bool, true, false, not, ◌&&◌, Option, none, some, ltb, ◌==◌, if◌then◌else◌, ◌>>=◌,
}
use commoncpp.Linked.{Ptr, null, put}

-- The objects that are allocated, and their counts.
pub record Objects : Type 0 where
  pub live : Ptr → Bool
  pub refs : Ptr → ℕ

unfoldable pub retain : Objects → Ptr → Option Objects
retain o p = if o.live p then some (record o { refs = put o.refs p (o.refs p + 1) }) else none

-- `fetch_release` gives the count before it is lowered.
unfoldable pub release : Objects → Ptr → Option Objects
release o p =
    let counted : Objects = record o { refs = put o.refs p (o.refs p - 1) } in
    let freed : Objects = record counted { live = put o.live p false } in
    if o.live p then some (if ltb (o.refs p) 2 then freed else counted) else none

-- The two under the test for null that stands before each call of them.
unfoldable pub retain_any : Objects → Ptr → Option Objects
retain_any o p = if p == null then some o else retain o p

unfoldable pub release_any : Objects → Ptr → Option Objects
release_any o p = if p == null then some o else release o p

-- The constructor from an object, and that from a reference: what the reference holds then.
unfoldable pub type_ref : Objects → Ptr → Option (Objects × Ptr)
type_ref o object = retain_any o object >>= λ o'. some (o', object)

unfoldable pub clear : Objects → Ptr → Option (Objects × Ptr)
clear o this = release_any o this >>= λ o'. some (o', null)

-- `set` of an object.
unfoldable pub set_object : Objects → Ptr → Ptr → Option (Objects × Ptr)
set_object o this object = do
  o1 ← retain_any o object
  (o2, cleared) ← clear o1 this
  some (o2, object)

-- What each reference holds, by its number.
abbrev pub References : Type 0
References = ℕ → Ptr

-- `set` of reference `this` to what reference `ptr` holds, and `assign` between the lock and the
-- unlock of its guard. The other reference is read again after `clear`.
unfoldable pub set_ref : Objects → References → ℕ → ℕ → Option (Objects × References)
set_ref o r this ptr = do
  o1 ← retain_any o (r ptr)
  (o2, cleared) ← clear o1 (r this)
  let r' = put r this cleared
  some (o2, put r' this (r' ptr))
