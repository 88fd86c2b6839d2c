-- ===== src/Lock/Lockfile/Refine.antt =====
-- A lockfile against what its callers may think it is: a table of packages by provider and name.
-- The code keys its map by the text `provider:name`, which tells two packages apart as long as no
-- provider has a colon in its name.
use preflight.Lock.Machine.{MachineInfo}
use preflight.GoMap.Laws.{lookup-put, lookup-remove}
use preflight.Lock.Package.Laws.{key_of-injective}
use preflight.GoMap.{put, lookup}
use preflight.GoMap.{is_some}
use preflight.Base.{
  String, Bool, Bool-iff, List, Option, [], arith, contains_char, eq_iff, false, if◌then◌else◌,
  none, some, str_eq, ◌&&◌, ◌∷◌, ◌≡◌, All, Bool-cases, ap, inl, inr, refl,
}
use preflight.GoMap.{remove}
use preflight.Lock.Package.{PackageLock, key_of, package_is_zero, package_key}
use preflight.Lock.Lockfile.{
  Lockfile, LockError, add_package, clear, get_package, invalid_package_lock, package_exists,
  package_not_found, remove_package, set_package, update_package, new_lockfile_v2,
}

pub data Command : Type 0 where
  add update upsert : PackageLock → Command
  delete find : String → String → Command
  wipe : Command

pub data Reply : Type 0 where
  outcome : Option LockError → Reply
  removed : Bool → Reply
  found : Option PackageLock → Reply
  silent : Reply

-- The lockfile after a command, and what the command answers.
unfoldable pub exec : Command → Lockfile → Lockfile × Reply
exec (add p) l = let (after, e) = add_package l p in (after, outcome e)
exec (update p) l = let (after, e) = update_package l p in (after, outcome e)
exec (upsert p) l = let (after, e) = set_package l p in (after, outcome e)
exec (delete provider name) l =
    let (after, gone) = remove_package l provider name in (after, removed gone)
exec (find provider name) l = (l, found (get_package l provider name))
exec wipe l = (clear l, silent)

-- The replies to a list of commands.
unfoldable pub replies : List Command → Lockfile → List Reply
replies [] l = []
replies (c ∷ cs) l = let (after, r) = exec c l in r ∷ replies cs after

-- The specification: a table, with no keys.
abbrev pub Table : Type 0
Table = String → String → Option PackageLock

abbrev pub empty_table : Table
empty_table provider name = none

-- The table where the entry of one package is replaced.
unfoldable pub replace : String → String → Option PackageLock → Table → Table
replace provider name entry t q n = if str_eq provider q && str_eq name n then entry else t q n

unfoldable pub spec : Command → Table → Table × Reply
spec (add p) t =
    if package_is_zero p
    then (t, outcome (some invalid_package_lock))
    else if is_some (t p.provider p.name)
    then (t, outcome (some (package_exists (package_key p))))
    else (replace p.provider p.name (some p) t, outcome none)
spec (update p) t =
    if package_is_zero p
    then (t, outcome (some invalid_package_lock))
    else if is_some (t p.provider p.name)
    then (replace p.provider p.name (some p) t, outcome none)
    else (t, outcome (some (package_not_found (package_key p))))
spec (upsert p) t =
    if package_is_zero p
    then (t, outcome (some invalid_package_lock))
    else (replace p.provider p.name (some p) t, outcome none)
spec (delete provider name) t = (replace provider name none t, removed (is_some (t provider name)))
spec (find provider name) t = (t, found (t provider name))
spec wipe t = (empty_table, silent)

unfoldable pub spec_replies : List Command → Table → List Reply
spec_replies [] t = []
spec_replies (c ∷ cs) t = let (after, r) = spec c t in r ∷ spec_replies cs after

-- No colon in the name of a provider.
abbrev pub IsPlain : String → Type 0
IsPlain provider = contains_char b':' provider ≡ false

abbrev pub IsPlainCommand : Command → Type 0
IsPlainCommand (add p) = IsPlain p.provider
IsPlainCommand (update p) = IsPlain p.provider
IsPlainCommand (upsert p) = IsPlain p.provider
IsPlainCommand (delete provider name) = IsPlain provider
IsPlainCommand (find provider name) = IsPlain provider
IsPlainCommand wipe = Unit

-- The lockfile answers every lookup as the table does.
abbrev pub Implements : Lockfile → Table → Type 0
Implements l t =
    (provider name : String) → IsPlain provider → get_package l provider name ≡ t provider name

-- Keys are told apart exactly as the pairs are.
key_eq :
    (p q m n : String)
    → IsPlain p
    → IsPlain q
    → str_eq (key_of p m) (key_of q n) ≡ (str_eq p q && str_eq m n)
key_eq p q m n hp hq =
    Bool-iff _ _
      (λ e.
        let (same_provider, same_name) =
          key_of-injective p q m n hp hq ((eq_iff (key_of p m) (key_of q n)).0 e) in
        ground (arith, eq_iff p q, eq_iff m n))
      (λ e. ground (arith, eq_iff p q, eq_iff m n, eq_iff (key_of p m) (key_of q n)))

module _ (l : Lockfile) (t : Table) (h : Implements l t) (p : PackageLock)
    (plain : IsPlain p.provider) where
  put_lem :
      Implements
        (record l { packages = put (package_key p) p l.packages })
        (replace p.provider p.name (some p) t)
  unfolding get_package replace
  put_lem q n hq = ground (
    arith,
    h q n hq,
    lookup-put (key_of q n) (package_key p) p l.packages,
    key_eq p.provider q p.name n plain hq,
  )

remove_lem :
    (l : Lockfile) (t : Table) (h : Implements l t) (provider name : String)
    → IsPlain provider
    → Implements
        (record l { packages = remove (key_of provider name) l.packages })
        (replace provider name none t)
unfolding get_package replace
remove_lem l t h provider name plain q n hq = ground (
  arith,
  h q n hq,
  lookup-remove (key_of q n) (key_of provider name) l.packages,
  key_eq provider q name n plain hq,
)

-- Taking out a package that is not there changes nothing.
absent_lem :
    (l : Lockfile) (t : Table) (h : Implements l t) (provider name : String)
    → is_some (t provider name) ≡ false
    → Implements l (replace provider name none t)
unfolding get_package replace
absent_lem l t h provider name gone q n hq =
    elim (Bool-cases (str_eq provider q && str_eq name n)) [
      | inl e ↦ ground (arith, h q n hq, eq_iff provider q, eq_iff name n)
      | inr e ↦ rw e (h q n hq)
    ]

exec_lem :
    (c : Command) (l : Lockfile) (t : Table)
    → Implements l t
    → IsPlainCommand c
    → ((exec c l).1 ≡ (spec c t).1) × Implements (exec c l).0 (spec c t).0
unfolding exec spec add_package update_package set_package remove_package clear get_package lookup
exec_lem (add p) l t h plain =
    let e = h p.provider p.name plain in
    elim (Bool-cases (package_is_zero p)) [
      | inl zero_package ↦ rw zero_package (refl, h)
      | inr filled ↦ elim (Bool-cases (is_some (t p.provider p.name))) [
        | inl there ↦ rw (filled, e, there) (refl, h)
        | inr free ↦ rw (filled, e, free) (refl, put_lem l t h p plain)
      ]
    ]
exec_lem (update p) l t h plain =
    let e = h p.provider p.name plain in
    elim (Bool-cases (package_is_zero p)) [
      | inl zero_package ↦ rw zero_package (refl, h)
      | inr filled ↦ elim (Bool-cases (is_some (t p.provider p.name))) [
        | inl there ↦ rw (filled, e, there) (refl, put_lem l t h p plain)
        | inr free ↦ rw (filled, e, free) (refl, h)
      ]
    ]
exec_lem (upsert p) l t h plain = elim (Bool-cases (package_is_zero p)) [
  | inl zero_package ↦ rw zero_package (refl, h)
  | inr filled ↦ rw filled (refl, put_lem l t h p plain)
]
exec_lem (delete provider name) l t h plain =
    let e = h provider name plain in
    elim (Bool-cases (is_some (t provider name))) [
      | inl there ↦ rw (e, there) (refl, remove_lem l t h provider name plain)
      | inr free ↦ rw (e, free) (refl, absent_lem l t h provider name free)
    ]
exec_lem (find provider name) l t h plain = (ap found (h provider name plain), h)
exec_lem wipe l t h plain = (refl, λ q n hq. refl)

replies_run :
    (cs : List Command) (l : Lockfile) (t : Table)
    → Implements l t
    → All IsPlainCommand cs
    → replies cs l ≡ spec_replies cs t
unfolding replies spec_replies
replies_run [] l t h plain = refl
replies_run (c ∷ cs) l t h plain =
    let (same, next) = exec_lem c l t h plain.0 in
    rw (same, replies_run cs (exec c l).0 (spec c t).0 next plain.1) refl

-- If no provider in a list of commands has a colon in its name, a new lockfile gives the replies
-- that a table of packages by provider and name gives: to additions, updates, upserts, removals,
-- lookups and a clearing, in any order.
pub replies_lem :
    (mode : String) (info : MachineInfo) (cs : List Command)
    → All IsPlainCommand cs
    → replies cs (new_lockfile_v2 mode info) ≡ spec_replies cs empty_table
unfolding new_lockfile_v2 get_package lookup
replies_lem mode info cs plain =
    replies_run cs (new_lockfile_v2 mode info) empty_table (λ q n hq. refl) plain
