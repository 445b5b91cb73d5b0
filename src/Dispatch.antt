-- ===== src/Dispatch.antt =====
-- src/dispatch.c: the command registry, generic in the type `F` of a handler with its context.
pub mod Find
use openps3ftp.Base.{
  ℕ, ◌||◌, Option, none, some, List, [], ◌∷◌, map, leb, ◌==◌, if◌then◌else◌, Bytes, str_eq, length,
  to_upper, replicate,
}
use openps3ftp.Session.{Errno, einval, enospc}

-- struct opftp_cmd_entry
pub record Slot {ℓ} (F : Type ℓ) : Type ℓ where
  pub name : Bytes
  pub fn : F

-- an entry with `used` false is `none`
abbrev pub Table {ℓ} : Type ℓ → Type ℓ
Table F = List (Option (Slot F))

-- DISPATCH_CAP
abbrev pub dispatch_cap : ℕ
dispatch_cap = 64

module _ {ℓ} {F : Type ℓ} where
  unfoldable pub dispatch_init : Table F
  dispatch_init = replicate dispatch_cap none

  abbrev pub keep : Option (Slot F) → Option (Table F) → Option (Table F)
  keep e none = none
  keep e (some t) = some (e ∷ t)

  -- The scan for a slot of this name: the table with its handler replaced, or `none` if there is none.
  unfoldable pub replace : Bytes → F → Table F → Option (Table F)
  replace up fn [] = none
  replace up fn (none ∷ t) = keep none (replace up fn t)
  replace up fn (some e ∷ t) =
      if str_eq e.name up
      then some (some (record e { fn = fn }) ∷ t)
      else keep (some e) (replace up fn t)

  -- The write to `first_unused`; `none` if every slot is used.
  unfoldable pub fill : Bytes → F → Table F → Option (Table F)
  fill up fn [] = none
  fill up fn (none ∷ t) = some (some (record { name = up; fn = fn }) ∷ t)
  fill up fn (some e ∷ t) = keep (some e) (fill up fn t)

  abbrev or_full : Option (Table F) → Table F → Table F × Option Errno
  or_full none t = (t, some enospc)
  or_full (some t') t = (t', none)

  -- the new table, and the error returned
  unfoldable pub dispatch_register : Bytes → F → Table F → Table F × Option Errno
  unfolding replace fill to_upper
  dispatch_register name fn t =
      if length name == 0 || leb 8 (length name)
      then (t, some einval)
      else (let up = map to_upper name in
          elim (replace up fn t) [ some t' ↦ (t', none) | none ↦ or_full (fill up fn t) t ])

  -- The handler that `opftp_dispatch_call` calls; `none` is its return of 1.
  unfoldable pub dispatch_find : Bytes → Table F → Option F
  dispatch_find name [] = none
  dispatch_find name (none ∷ t) = dispatch_find name t
  dispatch_find name (some e ∷ t) = if str_eq e.name name then some e.fn else dispatch_find name t
