-- ===== src/Reconcile/Probes.antt =====
-- crates/artzain-core/src/reconcile.rs: `Reconciler::probe`, which drives readiness and liveness,
-- and `reverify_checks`.
use artzain.Prelude.{
  ℕ, suc, ◌+◌, ◌*◌, Bool, true, false, ◌&&◌, ◌||◌, not, String, Option, none, some, List, [], ◌∷◌,
  ◌++◌, if◌then◌else◌, insert, map_or, leb, ltb, ◌==◌, string_eq, to_string, ◌<>◌,
}
use Prim.Native.String.{find, slice, len}
use artzain.Words.{add_u32}
use artzain.Manifest.{App, Check, app, string_key}
use artzain.State.{Phase, phase_eq}
use artzain.Process.{Effect}
use artzain.Reconcile.Instance.{Instance, is_running, begin_stop}
use artzain.Reconcile.Reconciler.{Reconciler, World}

abbrev pub ready_period : ℕ
ready_period = 1000

abbrev pub check_verify_period : ℕ
check_verify_period = 10000

abbrev pub address : Instance → String
address i = "127.0.0.1:" <> to_string i.port

-- An instance after a probe, what was signalled, and whether the `continue` was taken.
pub record Probed : Type 0 where
  pub instance : Instance
  pub effects : List Effect
  pub skip : Bool

abbrev pub stopped : ℕ → Instance → Probed
stopped now i =
    let (j, e) = begin_stop now true i in record { instance = j; effects = e; skip = true }

abbrev pub unchanged : Instance → Probed
unchanged i = record { instance = i; effects = []; skip = false }

-- The readiness answer `ok`, received at `now`.
unfoldable pub ready_result : ℕ → Bool → Instance → Probed
unfolding begin_stop
ready_result now ok i =
    let j = record i { next_ready_probe = now + ready_period } in
    if ok
    then unchanged (record j { phase = Phase.ready; ever_ready = true })
    else (if i.phase == Phase.ready
        then unchanged (record j { phase = Phase.unready })
        else (if (i.phase == Phase.starting) && map_or i.ready_deadline false (λ dl. leb dl now)
            then stopped now j
            else unchanged j))

-- The liveness answer `ok`, received at `now`.
unfoldable pub live_result : App → ℕ → Bool → Instance → Probed
unfolding begin_stop
live_result a now ok i =
    let next = now + a.live_period * 1000 in
    let fails = add_u32 i.consecutive_live_fail 1 in
    if ok
    then unchanged (record i { next_live_probe = next; consecutive_live_fail = 0 })
    else (if leb a.live_failures fails
        then stopped now (record i { next_live_probe = next; consecutive_live_fail = fails })
        else unchanged (record i { next_live_probe = next; consecutive_live_fail = fails }))

abbrev pub ready_step : World → App → ℕ → Instance → Probed
ready_step w a at i =
    if leb i.next_ready_probe w.probe_at && not (a.ready_path == "")
    then ready_result (w.ready_answered_at at) (w.ready_answer at (address i) a.ready_path) i
    else unchanged i

-- `live_due` is read before the readiness probe, from `i`; the rest from `j`, after it.
abbrev pub live_step : World → App → ℕ → Instance → Instance → Probed
live_step w a at i j =
    if leb i.next_live_probe w.probe_at && (not (a.live_path == "") && j.ever_ready)
    then live_result a (w.live_answered_at at) (w.live_answer at (address i) a.live_path) j
    else unchanged j

unfoldable pub probe_app : World → App → ℕ → Instance → Instance × List Effect
unfolding ready_result live_result
probe_app w a at i =
    let first = ready_step w a at i in
    let second = live_step w a at i first.instance in
    if first.skip
    then (first.instance, first.effects)
    else (second.instance, first.effects ++ second.effects)

unfoldable pub probe_one : World → Reconciler → ℕ → Instance → Instance × List Effect
unfolding probe_app
probe_one w r at i =
    if not (is_running i) || (i.phase == Phase.terminating)
    then (i, [])
    else map_or (app r.manifest i.app) (i, []) (λ a. probe_app w a at i)

unfoldable pub probe_all : World → Reconciler → ℕ → List Instance → List Instance × List Effect
unfolding probe_one
probe_all w r at [] = ([], [])
probe_all w r at (i ∷ l) =
    let (j, e) = probe_one w r at i in
    let (rest, effects) = probe_all w r (suc at) l in (j ∷ rest, e ++ effects)

unfoldable pub probe : World → Reconciler → Reconciler × List Effect
unfolding probe_all
probe w r = let (l, e) = probe_all w r 0 r.instances in (record r { instances = l }, e)

-- `split_host_path`: the text in front of the first slash, and the rest with the slash.
unfoldable pub split_host_path : String → String × String
split_host_path s =
    let at = find s "/" in if leb at (len s) then (slice s 0 at, slice s at (len s)) else (s, "/")

abbrev pub check_http : World → String → Bool
check_http w hostpath = let (addr, path) = split_host_path hostpath in w.http_once addr path

-- The answer of a check; `none` for one that names no target.
unfoldable pub check_answer : World → Check → Option Bool
unfolding split_host_path
check_answer w c =
    map_or c.tcp (map_or c.http none (λ hostpath. some (check_http w hostpath)))
      (λ addr. some (w.tcp_once addr))

unfoldable pub verify_all : World → List Check → List (String × Bool) → List (String × Bool)
unfolding check_answer
verify_all w [] oks = oks
verify_all w (c ∷ l) oks =
    verify_all w l (map_or (check_answer w c) oks (λ ok. insert c.name ok oks))

unfoldable pub reverify_checks : World → Reconciler → Reconciler
unfolding verify_all
reverify_checks w r = if ltb w.verify_at r.next_check_verify then r else record r {
  next_check_verify = w.verify_at + check_verify_period;
  checks_ok = verify_all w r.manifest.checks r.checks_ok;
}
