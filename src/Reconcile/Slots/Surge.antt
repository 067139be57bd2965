-- ===== src/Reconcile/Slots/Surge.antt =====
-- crates/artzain-core/src/reconcile.rs: the port that `surge_port_for` chooses.
use artzain.Prelude.{
  ℕ, zero, suc, ◌+◌, ◌-◌, ◌≡◌, ◌≤◌, ◌<◌, refl, Bool, true, false, Option, none, some, List,
  contains, arith, if◌then◌else◌, unwrap_or, ◌⊎◌, inl, inr, nat_eq,
}
use artzain.Words.{u16_max, as_u16, add_u32}
use artzain.Manifest.{Manifest, App}
use artzain.Reconcile.Slots.{claimed, first_free, surge_port_for}

-- What a search of `left` ports from `candidate` on may give.
abbrev SearchResult : List ℕ → (left candidate : ℕ) → Option ℕ → Type 0
SearchResult taken left candidate none =
    (p : ℕ) → candidate ≤ p → p < candidate + left → contains taken p ≡ true
SearchResult taken left candidate (some p) =
    (candidate ≤ p) × ((p < candidate + left) × (contains taken p ≡ false))

first_free-SearchResult :
    (taken : List ℕ) (left candidate : ℕ)
    → SearchResult taken left candidate (first_free taken left candidate)
unfolding first_free
first_free-SearchResult taken zero candidate = λ p a b. ground arith
first_free-SearchResult taken (suc left) candidate =
    by (contains taken candidate) refl (first_free taken left (suc candidate))
      (first_free-SearchResult taken left (suc candidate))
  where
    by :
        (b : Bool)
        → contains taken candidate ≡ b
        → (o : Option ℕ) → SearchResult taken left (suc candidate) o
        → SearchResult taken (suc left) candidate (if b then o else some candidate)
    by true e none h = λ p a b. ground (arith, h p, e, nat_eq.equal_iff candidate p)
    by true e (some q) h = (omega arith, (omega arith, h.1.1))
    by false e o h = (omega arith, (omega arith, e))

-- The surge port lies after the app's own window, and no app of the manifest claims it, unless each
-- port from the end of the window to 65535 is claimed.
pub surge_port_for-is_free :
    (m : Manifest) (a : App)
    → a.port + a.replicas ≤ u16_max
    → ((a.port + a.replicas ≤ surge_port_for m a)
        × ((surge_port_for m a ≤ u16_max)
            × (contains (claimed m.apps) (surge_port_for m a) ≡ false)))
      ⊎ ((p : ℕ) → a.port + a.replicas ≤ p → p ≤ u16_max → contains (claimed m.apps) p ≡ true)
unfolding surge_port_for
surge_port_for-is_free m a h =
    by (add_u32 a.port a.replicas) (omega arith)
      (first_free (claimed m.apps) (suc u16_max - add_u32 a.port a.replicas)
        (add_u32 a.port a.replicas))
      (first_free-SearchResult (claimed m.apps) (suc u16_max - add_u32 a.port a.replicas)
        (add_u32 a.port a.replicas))
  where
    by :
        (base : ℕ)
        → base ≡ a.port + a.replicas
        → (o : Option ℕ) → SearchResult (claimed m.apps) (suc u16_max - base) base o
        → ((a.port + a.replicas ≤ unwrap_or o (as_u16 base))
            × ((unwrap_or o (as_u16 base) ≤ u16_max)
                × (contains (claimed m.apps) (unwrap_or o (as_u16 base)) ≡ false)))
          ⊎ ((p : ℕ) → a.port + a.replicas ≤ p → p ≤ u16_max → contains (claimed m.apps) p ≡ true)
    by base e none s = inr (λ p lo hi. s p (omega arith) (omega arith))
    by base e (some q) s = inl (omega arith, (omega arith, s.1.1))
