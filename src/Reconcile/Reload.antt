-- ===== src/Reconcile/Reload.antt =====
-- crates/artzain-core/src/reconcile.rs: `Reconciler::new`, `maybe_reload` and `only_names`. `current`
-- is the manifest's modification time now, `loaded` what `Manifest::load` returns if it is called.
pub mod Debounce
use artzain.Prelude.{
  ℕ, ◌+◌, ◌≡◌, ◌≢◌, ◌⊎◌, inl, inr, refl, Bool, true, false, String, Option, none, some, List, [],
  ◌∷◌, length, map_or, if◌then◌else◌, nat_beq, arith, ◌↔◌,
}
use artzain.Manifest.{Manifest}
use artzain.Manifest.Load.{Loaded, ok}
use artzain.Reconcile.Select.{select_apps}
use artzain.Reconcile.Select
use artzain.Reconcile.Reconciler.{Reconciler}
use artzain.Reconcile.Probes.{check_verify_period}

unfoldable pub new :
    (now : ℕ) → (mtime : Option ℕ) → Manifest → List String → List (String × Bool) → Reconciler
new now mtime m selected checks_ok = record {
  manifest = m;
  manifest_mtime = mtime;
  pending_mtime = none;
  selected = selected;
  instances = [];
  slot_ports = [];
  checks_ok = checks_ok;
  next_check_verify = now + check_verify_period;
}

-- `==` on modification times.
abbrev pub same_time : Option ℕ → Option ℕ → Bool
same_time none none = true
same_time (some a) (some b) = nat_beq a b
same_time _ _ = false

abbrev pub only_names : Reconciler → Option (List String)
only_names r =
    if nat_beq (length r.selected) (length r.manifest.apps) then none else some r.selected

abbrev pub is_empty {ℓ} : {A : Type ℓ} → List A → Bool
is_empty [] = true
is_empty (x ∷ l) = false

abbrev pub accept_selection :
    Manifest → Select.Result (List String) → Option (Manifest × List String)
accept_selection m (Select.ok []) = none
accept_selection m (Select.ok (n ∷ l)) = some (m, n ∷ l)
accept_selection m _ = none

-- The closure of `and_then`: an empty manifest and an empty selection are refused too.
abbrev pub reloaded : Reconciler → Loaded → Option (Manifest × List String)
reloaded r (ok m) =
    if is_empty m.apps then none else accept_selection m (select_apps m (only_names r))
reloaded r _ = none

abbrev pub install : Reconciler → Option (Manifest × List String) → Reconciler
install r none = r
install r (some (m, selected)) = record r { manifest = m; selected = selected }

unfoldable pub maybe_reload : (current : Option ℕ) → Loaded → Reconciler → Reconciler
unfolding select_apps
maybe_reload current loaded r =
    if same_time current r.manifest_mtime
    then record r { pending_mtime = none }
    else (if same_time r.pending_mtime current
        then install (record r { pending_mtime = none; manifest_mtime = current })
            (reloaded r loaded)
        else record r { pending_mtime = current })

pub same_time_iff : (a b : Option ℕ) → (same_time a b ≡ true) ↔ (a ≡ b)
same_time_iff a b = ground arith
