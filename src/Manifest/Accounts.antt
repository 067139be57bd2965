-- ===== src/Manifest/Accounts.antt =====
-- crates/artzain-core/src/manifest.rs: `lookup_user` and `lookup_group`. `getpwnam_r` and `getgrnam_r`
-- are given, as what they answer for a name and the length of the buffer they may use. The loop runs
-- on fuel.
pub mod Found
use artzain.Prelude.{
  ℕ, zero, suc, ◌*◌, Bool, true, String, Option, none, some, Bytes, codes, contains, nat_eq, map_or,
  if◌then◌else◌, ◌>>=◌,
}

-- The return code 0 with a result, or with a null result; `ERANGE`; another code.
pub data Answer {ℓ} (A : Type ℓ) : Type ℓ where
  found : A → Answer A
  missing erange failed : Answer A

module _ {ℓ} {A : Type ℓ} where
  abbrev pub to_option : Answer A → Option A
  to_option (found a) = some a
  to_option _ = none

  -- The loop, from a length of the buffer. The outer `none` is a lack of fuel.
  unfoldable pub lookup_loop : (fuel : ℕ) → (call : ℕ → Answer A) → (len : ℕ) → Option (Option A)
  lookup_loop zero call len = none
  lookup_loop (suc fuel) call len =
      let again = lookup_loop fuel call (len * 2) in
      elim (call len) [
        | found a ↦ some (some a)
        | missing ↦ some none
        | erange ↦ again
        | failed ↦ some none
      ]

  -- `CString::new(name).ok()?`: a name with a NUL is no user.
  abbrev pub lookup_from : (len fuel : ℕ) → (String → ℕ → Answer A) → String → Option (Option A)
  lookup_from len fuel call name =
      if contains (codes name) 0 then some none else lookup_loop fuel (call name) len

-- A user id and the user's primary group.
unfoldable pub lookup_user :
    (fuel : ℕ) → (getpwnam_r : String → ℕ → Answer (ℕ × ℕ)) → String → Option (Option (ℕ × ℕ))
unfolding lookup_loop
lookup_user fuel getpwnam_r name = lookup_from 2048 fuel getpwnam_r name

unfoldable pub lookup_group :
    (fuel : ℕ) → (getgrnam_r : String → ℕ → Answer ℕ) → String → Option (Option ℕ)
unfolding lookup_loop
lookup_group fuel getgrnam_r name = lookup_from 1024 fuel getgrnam_r name
