-- ===== src/Manifest/Accounts/Found.antt =====
-- crates/artzain-core/src/manifest.rs: the loops of `lookup_user` and `lookup_group` end with the
-- database's answer.
use artzain.Prelude.{
  ℕ, zero, suc, ◌+◌, ◌*◌, ◌≡◌, ◌≢◌, ◌≤◌, refl, false, String, Option, none, some, codes, contains,
  nat_eq, if◌then◌else◌, ltb, ap, ◌∙◌, Bool-cases, inl, inr, arith,
}
use artzain.Manifest.Accounts.{
  Answer, found, missing, erange, failed, to_option, lookup_loop, lookup_user, lookup_group,
}

-- What the manual says: `ERANGE` while the buffer is shorter than the entry needs, and then the
-- answer, which does not depend on the buffer.
abbrev pub Buffered {ℓ} :
    {A : Type ℓ} → (call : ℕ → Answer A) (needed : ℕ) (answer : Answer A) → Type ℓ
Buffered call needed answer = (len : ℕ) → call len ≡ (if ltb len needed then erange else answer)

module _ {ℓ} {A : Type ℓ} where
  abbrev settled : Answer A → Option (Option A) → Option (Option A)
  settled (found a) o = some (some a)
  settled missing o = some none
  settled erange o = o
  settled failed o = some none

  loop_step :
      (fuel : ℕ) (call : ℕ → Answer A) (len : ℕ)
      → lookup_loop (suc fuel) call len ≡ settled (call len) (lookup_loop fuel call (len * 2))
  unfolding lookup_loop
  loop_step fuel call len = same (call len)
    where
      same :
          (x : Answer A)
          → elim x as (λ _. Option (Option A)) [
            | found a ↦ some (some a)
            | missing ↦ some none
            | erange ↦ lookup_loop fuel call (len * 2)
            | failed ↦ some none
          ]
            ≡ settled x (lookup_loop fuel call (len * 2))
      same (found a) = refl
      same missing = refl
      same erange = refl
      same failed = refl

  settled_answer :
      (answer : Answer A) (o : Option (Option A))
      → (answer ≡ erange → o ≡ some none)
      → settled answer o ≡ some (to_option answer)
  settled_answer (found a) o h = refl
  settled_answer missing o h = refl
  settled_answer erange o h = h refl
  settled_answer failed o h = refl

  lookup_loop-answered :
      (fuel : ℕ) (call : ℕ → Answer A) (len needed : ℕ) (answer : Answer A)
      → answer ≢ erange
      → Buffered call needed answer
      → 1 ≤ len
      → suc needed ≤ len + fuel
      → lookup_loop (suc fuel) call len ≡ some (to_option answer)
  lookup_loop-answered zero call len needed answer no_erange buffered some_room enough =
      let enough_buffer : ltb len needed ≡ false = ground arith in
      let rest = lookup_loop zero call (len * 2) in
      loop_step zero call len
      ∙ (ap (λ x. settled x rest)
            (buffered len ∙ ap (λ b. if b then erange else answer) enough_buffer)
          ∙ settled_answer answer rest (λ e. absurd (no_erange e)))
  lookup_loop-answered (suc fuel) call len needed answer no_erange buffered some_room enough =
      let rest = lookup_loop (suc fuel) call (len * 2) in
      loop_step (suc fuel) call len
      ∙ (ap (λ x. settled x rest) (buffered len) ∙ (elim (Bool-cases (ltb len needed)) [
        | inl short ↦
            ap (λ b. settled (if b then erange else answer) rest) short
            ∙ lookup_loop-answered fuel call (len * 2) needed answer no_erange buffered
                (ground arith) (ground arith)
        | inr long ↦
            ap (λ b. settled (if b then erange else answer) rest) long
            ∙ settled_answer answer rest (λ e. absurd (no_erange e))
      ]))

-- For a name without a NUL, whose entry the database finds, or does not find, once the buffer is as
-- long as the entry needs, the loops of `lookup_user` and `lookup_group` end with that answer: one more
-- round of fuel than that length is enough.
pub lookup_user-answered :
    (fuel : ℕ) (getpwnam_r : String → ℕ → Answer (ℕ × ℕ)) (getgrnam_r : String → ℕ → Answer ℕ)
    (name : String) (needed : ℕ) (user : Answer (ℕ × ℕ)) (group : Answer ℕ)
    → contains (codes name) 0 ≡ false
    → user ≢ erange
    → group ≢ erange
    → Buffered (getpwnam_r name) needed user
    → Buffered (getgrnam_r name) needed group
    → needed ≤ fuel
    → (lookup_user (suc fuel) getpwnam_r name ≡ some (to_option user))
      × (lookup_group (suc fuel) getgrnam_r name ≡ some (to_option group))
unfolding lookup_user lookup_group
lookup_user-answered fuel getpwnam_r getgrnam_r name needed user group no_nul u g user_there
      group_there enough =
    (
      ap (λ b. if b then some none else lookup_loop (suc fuel) (getpwnam_r name) 2048) no_nul
          ∙ lookup_loop-answered fuel (getpwnam_r name) 2048 needed user u user_there (ground arith)
              (ground arith),
      ap (λ b. if b then some none else lookup_loop (suc fuel) (getgrnam_r name) 1024) no_nul
          ∙ lookup_loop-answered fuel (getgrnam_r name) 1024 needed group g group_there
              (ground arith) (ground arith),
    )
