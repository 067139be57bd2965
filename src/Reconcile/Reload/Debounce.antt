-- ===== src/Reconcile/Reload/Debounce.antt =====
-- crates/artzain-core/src/reconcile.rs: when `maybe_reload` takes over a new manifest.
use artzain.Prelude.{ℕ, ◌≡◌, ◌≢◌, ◌⊎◌, String, Option, none, some, List, [], length}
use artzain.Manifest.{Manifest}
use artzain.Manifest.Load.{Loaded, ok}
use artzain.Reconcile.Select.{select_apps}
use artzain.Reconcile.Select
use artzain.Reconcile.Reconciler.{Reconciler}
use artzain.Reconcile.Reload.{only_names}

-- With all apps selected, all of the new manifest are taken; else the names of before are asked for.
abbrev pub ReSelected : Reconciler → Manifest → List String → Type 0
ReSelected r m selected =
    ((length r.selected ≡ length r.manifest.apps) × (select_apps m none ≡ Select.ok selected))
    ⊎ ((length r.selected ≢ length r.manifest.apps)
        × (select_apps m (some r.selected) ≡ Select.ok selected))

-- What a call may leave of the manifest and the selection.
abbrev pub KeptOrReloaded : Option ℕ → Loaded → Reconciler → Reconciler → Type 0
KeptOrReloaded current loaded r s =
    ((s.manifest ≡ r.manifest) × (s.selected ≡ r.selected))
    ⊎ ((r.pending_mtime ≡ current)
        × ((current ≢ r.manifest_mtime)
            × ((loaded ≡ ok s.manifest)
                × (ReSelected r s.manifest s.selected
                    × ((s.manifest.apps ≢ []) × (s.selected ≢ []))))))

-- An accepted file: what it says, and that neither it nor its selection is empty.
abbrev Accepted : Reconciler → Loaded → Manifest × List String → Type 0
Accepted r loaded x =
    (loaded ≡ ok x.0)
    × ((select_apps x.0 (only_names r) ≡ Select.ok x.1) × ((x.0.apps ≢ []) × (x.1 ≢ [])))
