-- ===== src/Reconcile/Run/Loop.antt =====
-- crates/artzain-core/src/reconcile.rs: `run_until` over any number of turns.
use artzain.Prelude.{
  ℕ, zero, suc, ◌≡◌, ◌<◌, ◌⊎◌, inl, inr, refl, Bool, true, false, Option, List, [], ◌∷◌, ◌++◌,
  if◌then◌else◌, arith,
}
use artzain.State.{ClusterState}
use artzain.Reconcile.Spec.{Hasher}
use artzain.Reconcile.Launch.{Paths}
use artzain.Reconcile.Reconciler.{Reconciler}
use artzain.Manifest.Load.{Loaded}
use artzain.Reconcile.Reload.{maybe_reload}
use artzain.Reconcile.Snapshot.{snapshot}
use artzain.Process.{Effect}
use artzain.Reconcile.Tick.{reconcile}
use artzain.Reconcile.Run.{Turn, Run, turn, run_until}
use artzain.Reconcile.Sound.{AllSound}
use artzain.Reconcile.Sound.Whole.{reconcile-AllSound}

maybe_reload-instances :
    (current : Option ℕ) (loaded : Loaded) (r : Reconciler)
    → (maybe_reload current loaded r).instances ≡ r.instances
unfolding maybe_reload
maybe_reload-instances current loaded r = ground arith

module _ (hasher : Hasher) (paths : Paths) (pid : ℕ) (watch_manifest : Bool) where
  turn-AllSound :
      (t : Turn) (r : Reconciler)
      → AllSound r
      → AllSound (turn hasher paths pid watch_manifest t r).0
  unfolding turn
  turn-AllSound t r v = by watch_manifest (reconcile-AllSound hasher paths t.world)
    where
      by :
          (b : Bool)
          → ((s : Reconciler) → AllSound s → AllSound (reconcile hasher paths t.world s).0)
          → AllSound
              (reconcile hasher paths t.world (if b then maybe_reload t.mtime t.loaded r else r)).0
      by true f =
          f (maybe_reload t.mtime t.loaded r) (rw (maybe_reload-instances t.mtime t.loaded r) v)
      by false f = f r v

  -- However many turns the loop takes, with reloads between them, instances that are sound at first stay so.
  pub run_until-AllSound :
      (predicate : ClusterState → Bool) (max_steps : ℕ) (turns : ℕ → Turn) (r : Reconciler)
      → AllSound r
      → AllSound (run_until hasher paths pid watch_manifest predicate max_steps turns r).reconciler
  unfolding run_until
  run_until-AllSound predicate zero turns r v = v
  run_until-AllSound predicate (suc steps) turns r v =
      let next = turn-AllSound (turns 0) r v in
      by
        (predicate (
          snapshot (turns 0).seen_now (turns 0).seen_at pid
            (turn hasher paths pid watch_manifest (turns 0) r).0))
        next
        (run_until-AllSound predicate steps (λ n. turns (suc n))
          (turn hasher paths pid watch_manifest (turns 0) r).0 next)
    where
      one : Reconciler
      one = (turn hasher paths pid watch_manifest (turns 0) r).0

      rest : Run
      rest = run_until hasher paths pid watch_manifest predicate steps (λ n. turns (suc n)) one

      written : List ClusterState
      written =
          if (turns 0).is_written
          then snapshot (turns 0).now (turns 0).updated_at pid one ∷ []
          else []

      e : List Effect
      e = (turn hasher paths pid watch_manifest (turns 0) r).1

      RunSound : Run → Type 0
      RunSound x = AllSound x.reconciler

      by :
          (b : Bool)
          → AllSound one
          → RunSound rest
          → RunSound (
              if b
              then record { reconciler = one; effects = e; written = written; satisfied = true }
              else record rest { effects = e ++ rest.effects; written = written ++ rest.written })
      by true p q = p
      by false p q = q

  abbrev written_in : (ℕ → Turn) → Reconciler → List ClusterState
  written_in turns r =
      if (turns 0).is_written
      then snapshot (turns 0).now (turns 0).updated_at pid
          (turn hasher paths pid watch_manifest (turns 0) r).0
        ∷ []
      else []

  abbrev pub after_turns : ℕ → (ℕ → Turn) → Reconciler → Reconciler
  after_turns zero turns r = r
  after_turns (suc n) turns r =
      after_turns n (λ k. turns (suc k)) (turn hasher paths pid watch_manifest (turns 0) r).0

  -- What the predicate is asked about in the turn with the index `n`.
  abbrev pub seen : ℕ → (ℕ → Turn) → Reconciler → ClusterState
  seen n turns r = snapshot (turns n).seen_now (turns n).seen_at pid (after_turns (suc n) turns r)

  abbrev pub NotBefore : (ClusterState → Bool) → ℕ → (ℕ → Turn) → Reconciler → Type 0
  NotBefore predicate n turns r = (k : ℕ) → k < n → predicate (seen k turns r) ≡ false

  -- The loop ends with the first turn whose state satisfies the predicate, or after all turns.
  abbrev pub Stops : (ClusterState → Bool) → ℕ → (ℕ → Turn) → Reconciler → Run → Type 0
  Stops predicate max_steps turns r x =
      ((x.satisfied ≡ true)
        × ((n : ℕ) × ((n < max_steps)
              × ((predicate (seen n turns r) ≡ true)
                  × (NotBefore predicate n turns r
                      × (x.reconciler ≡ after_turns (suc n) turns r))))))
      ⊎ ((x.satisfied ≡ false)
          × (NotBefore predicate max_steps turns r
              × (x.reconciler ≡ after_turns max_steps turns r)))

  -- `run_until` answers `true` after the first turn, of `max_steps` at most, whose second snapshot
  -- satisfies the predicate, and leaves what the turns up to that one make; it answers `false` if there
  -- is none, after all `max_steps` turns.
  pub run_until-Stops :
      (predicate : ClusterState → Bool) (max_steps : ℕ) (turns : ℕ → Turn) (r : Reconciler)
      → Stops predicate max_steps turns r
          (run_until hasher paths pid watch_manifest predicate max_steps turns r)
  unfolding run_until
  run_until-Stops predicate zero turns r = inr (refl, ((λ k lt. absurd (omega arith)), refl))
  run_until-Stops predicate (suc steps) turns r =
      by (predicate (seen 0 turns r)) refl
        (run_until-Stops predicate steps (λ n. turns (suc n)) (after_turns 1 turns r))
    where
      rest : Run
      rest =
          run_until hasher paths pid watch_manifest predicate steps (λ n. turns (suc n))
            (after_turns 1 turns r)

      later :
          (n : ℕ)
          → predicate (seen 0 turns r) ≡ false
          → NotBefore predicate n (λ k. turns (suc k)) (after_turns 1 turns r)
          → NotBefore predicate (suc n) turns r
      later n first f zero lt = first
      later n first f (suc k) lt = f k (omega arith)

      by :
          (b : Bool)
          → predicate (seen 0 turns r) ≡ b
          → Stops predicate steps (λ n. turns (suc n)) (after_turns 1 turns r) rest
          → Stops predicate (suc steps) turns r (
              if b
              then record {
                reconciler = after_turns 1 turns r;
                effects = (turn hasher paths pid watch_manifest (turns 0) r).1;
                written = written_in turns r;
                satisfied = true;
              }
              else record rest {
                effects = (turn hasher paths pid watch_manifest (turns 0) r).1 ++ rest.effects;
                written = written_in turns r ++ rest.written;
              })
      by true e x = inl (refl, (0, (omega arith, (e, ((λ k lt. absurd (omega arith)), refl)))))
      by false e (inl (sat, (n, (lt, (hit, (none_before, same)))))) =
          inl (sat, (suc n, (omega arith, (hit, (later n e none_before, same)))))
      by false e (inr (unsat, (none_before, same))) = inr (unsat, (later steps e none_before, same))
