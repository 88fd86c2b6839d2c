-- ===== src/Lock/Resolver/Modes.antt =====
-- What the modes promise.
use preflight.GoMap.Laws.{lookup-put}
use preflight.GoMap.{put, lookup}
use preflight.Lock.Integrity.{Integrity}
use preflight.Base.{
  String, Option, false, none, some, ℕ, ◌↔◌, ◌≡◌, ◌≢◌, ◌⊎◌, Fallible, arith, eq_iff, fails, inl,
  inr, refl, returns, subst, sym, true, ap,
}
use preflight.Lock.Package.{PackageLock, PackageError, key_of, new_package_lock, package_key}
use preflight.Lock.Resolver.{
  resolve, failed, lock, resolve_frozen, set_checked, start_resolution, resolve_by, Resolution,
  check_drift, use_locked,
}
use preflight.Lock.Lockfile.{Lockfile, get_package, set_package}

-- The version that is written in the lockfile is known, and is not the one that is offered.
abbrev pub HasDrifted : Option PackageLock → String → Type 0
HasDrifted none latest = ⊥
HasDrifted (some p) latest = (latest ≢ "") × (latest ≢ "latest") × (p.version ≢ latest)

frozen_lem :
    (provider name latest : String) (found : Option PackageLock)
    → (failed
          (resolve_frozen provider name latest found (start_resolution provider name latest found))
        ≡ false)
      ↔ ((p : PackageLock) × (found ≡ some p) × ¬ HasDrifted (some p) latest)
frozen_lem provider name latest none = (λ e. cc, λ (p, e, _). cc)
frozen_lem provider name latest (some p) = (
  λ e. (
    p,
    refl,
    λ d. ground (arith, d, eq_iff latest "", eq_iff latest "latest", eq_iff p.version latest),
  ),
  λ (q, e, d).
      ground (arith, d, e, eq_iff latest "", eq_iff latest "latest", eq_iff p.version latest),
)

-- In frozen mode a resolution fails unless the package is in the lockfile, and what is available is
-- not a named version other than the locked one.
resolve-frozen :
    (l : Lockfile) (provider name latest : String)
    → l.mode ≡ "frozen"
    → (failed (resolve l provider name latest) ≡ false)
      ↔ ((p : PackageLock) × (get_package l provider name ≡ some p) × ¬ HasDrifted (some p) latest)
unfolding resolve
resolve-frozen l provider name latest frozen =
    subst
      (λ mode.
        (failed (resolve_by mode provider name latest (get_package l provider name)) ≡ false) ↔ (
          (p : PackageLock) × (get_package l provider name ≡ some p)
          × ¬ HasDrifted (some p) latest))
      (sym frozen) (frozen_lem provider name latest (get_package l provider name))

stored_lem :
    (l : Lockfile) (r : Fallible PackageError PackageLock)
    → (set_checked l r).1 ≡ none
    → (p : PackageLock) × (r ≡ returns p)
      × ((set_checked l r).0 ≡ record l { packages = put (package_key p) p l.packages })
unfolding set_package
stored_lem l (returns p) fine = (p, refl, ground (arith, fine))
stored_lem l (fails e) fine = cc

made_lem :
    (provider name version : String) (i : Integrity) (now : ℕ) (p : PackageLock)
    → new_package_lock provider name version i now ≡ returns p
    → (p.provider ≡ provider) × (p.name ≡ name) × (p.version ≡ version)
unfolding new_package_lock
made_lem provider name version i now p e = ground arith

-- What `Lock` has stored where it returns no error.
lock_lem :
    (l : Lockfile) (provider name version : String) (i : Integrity) (now : ℕ)
    → (lock l provider name version i now).1 ≡ none
    → let after = (lock l provider name version i now).0 in
      (p : PackageLock) × (p.version ≡ version)
      × (after.mode ≡ l.mode)
      × (get_package after provider name ≡ some p)
unfolding lock get_package
lock_lem l provider name version i now fine =
    let (p, made, e) = stored_lem l (new_package_lock provider name version i now) fine in
    let (q, n, v) = made_lem provider name version i now p made in
    (
      p,
      v,
      ap (λ k. k.mode) e,
      ground (
        arith,
        ap (λ k. lookup (key_of provider name) k.packages) e,
        ap (λ q. key_of q p.name) q,
        ap (λ n. key_of provider n) n,
        lookup-put (key_of provider name) (package_key p) p l.packages,
        eq_iff (package_key p) (key_of provider name),
      ),
    )

-- The modes that read the lockfile.
abbrev pub IsStrict : String → Type 0
IsStrict mode = (mode ≡ "locked") ⊎ (mode ≡ "frozen")

-- A resolution that keeps to a version, and fails exactly where a frozen lockfile is offered another
-- one by name.
abbrev pub Honours : String → String → String → Resolution → Type 0
Honours mode version latest r =
    (r.version ≡ version)
    × ((failed r ≡ true)
        ↔ ((mode ≡ "frozen") × (latest ≢ "") × (latest ≢ "latest") × (version ≢ latest)))

drift_lem :
    (provider name latest : String) (p : PackageLock) (r : Resolution)
    → r.error ≡ none
    → r.version ≡ p.version
    → Honours "frozen" p.version latest (check_drift provider name latest p r)
drift_lem provider name latest p r fine e = (
  ground (arith, e),
  (
    λ f. (
      refl,
      λ e. ground (arith, f, fine, eq_iff latest ""),
      λ e. ground (arith, f, fine, eq_iff latest "latest"),
      λ e. ground (arith, f, fine, eq_iff p.version latest),
    ),
    λ (_, a, b, c).
        ground (arith, a, b, c, eq_iff latest "", eq_iff latest "latest", eq_iff p.version latest),
  ),
)

honours_lem :
    (mode provider name latest : String) (p : PackageLock)
    → IsStrict mode
    → Honours mode p.version latest (resolve_by mode provider name latest (some p))
honours_lem mode provider name latest p (inl e) = rw e (refl, (λ f. cc, λ (f, _, _, _). cc))
honours_lem mode provider name latest p (inr e) = rw e (
    drift_lem provider name latest p (use_locked p (start_resolution provider name latest (some p)))
      refl refl)

-- In a mode that reads the lockfile, a version that has been locked is what is then resolved,
-- whatever is available; and the resolution fails exactly if the mode is frozen and another version
-- is offered by name.
pub resolve-lock :
    (l : Lockfile) (provider name version latest : String) (i : Integrity) (now : ℕ)
    → IsStrict l.mode
    → (lock l provider name version i now).1 ≡ none
    → Honours l.mode version latest
        (resolve (lock l provider name version i now).0 provider name latest)
unfolding resolve
resolve-lock l provider name version latest i now strict fine =
    let after = (lock l provider name version i now).0 in
    let (p, v, m, e) = lock_lem l provider name version i now fine in
    subst
      (λ k.
        Honours l.mode k latest
          (resolve_by after.mode provider name latest (get_package after provider name)))
      v
      (subst
        (λ mode.
          Honours l.mode p.version latest
            (resolve_by mode provider name latest (get_package after provider name)))
        (sym m)
        (subst (λ o. Honours l.mode p.version latest (resolve_by l.mode provider name latest o))
          (sym e) (honours_lem l.mode provider name latest p strict)))
