-- ===== src/Deployment/Staging/Named.antt =====
-- The two names that `lock_deployment` creates, beside the names of Quadlets.
use mathlib.Core.List.{reverse-append}
use pod_installer.Base.{
  ℕ, true, false, ◌++◌, ◌≡◌, refl, ap, Bytes, text, equal, equal_iff, starts_with, ends_with,
  Bool-cases, inl, inr,
}
use pod_installer.System.{Files}
use pod_installer.Deployment.Staging.{FilesAt, lock_name}

-- a text with this end is none with that end
ends_with-apart :
    (s name suffix : Bytes)
    → ends_with s suffix ≡ false
    → ends_with name suffix ≡ true
    → equal s name ≡ false
ends_with-apart s name suffix h k = elim (Bool-cases (equal s name)) [
  | inl same ↦
      let e : s ≡ name = (equal_iff s name).0 same in
      let both : ends_with s suffix ≡ ends_with name suffix = ap (λ t. ends_with t suffix) e in cc
  | inr other ↦ other
]

lock-end : (front : Bytes) → ends_with (front ++ text ".lock") (text ".container") ≡ false
unfolding ends_with starts_with text
lock-end front = rw reverse-append refl

-- the name of the directory
pub locks-apart :
    (name : Bytes) → ends_with name (text ".container") ≡ true → equal (text ".locks") name ≡ false
unfolding ends_with starts_with text
locks-apart name h = ends_with-apart (text ".locks") name (text ".container") refl h

-- the name of the lock file
pub lock_name-apart :
    {S : Type 0} (os : Files S) (at : FilesAt S) (uid : ℕ) (unit name : Bytes)
    → ends_with name (text ".container") ≡ true
    → equal (lock_name os at uid unit) name ≡ false
unfolding lock_name
lock_name-apart os at uid unit name h =
    ends_with-apart (lock_name os at uid unit) name (text ".container") (lock-end _) h
