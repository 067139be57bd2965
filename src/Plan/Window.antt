-- ===== src/Plan/Window.antt =====
-- crates/artzain-core/src/lib.rs: the port window that `plan` prints.
use artzain.Prelude.{
  ℕ, ◌+◌, ◌-◌, ◌≡◌, ◌≤◌, ◌↔◌, ◌⊎◌, true, false, Option, none, some, map_or, if◌then◌else◌, nat_eq,
  ◌==◌, ap, ◌∙◌, arith,
}
use artzain.Words.{as_u16, add_u16}
use artzain.Manifest.{App}
use artzain.Plan.{Ports, one, window, last_port, ports}

-- The wrapping sum of a port and a number of replicas whose window ends within the 16-bit ports.
add_u16_window :
    (port replicas : ℕ)
    → 1 ≤ port
    → 1 ≤ replicas
    → port + replicas ≤ 65536
    → ((port + replicas ≡ 65536) × (add_u16 port (as_u16 replicas) ≡ 0))
      ⊎ ((port + replicas ≤ 65535) × (add_u16 port (as_u16 replicas) ≡ port + replicas))
add_u16_window port replicas p r w = ground arith

last_port_lem :
    (port replicas : ℕ)
    → 1 ≤ port
    → 1 ≤ replicas
    → port + replicas ≤ 65536
    → (last_port false port replicas ≡ some (port + replicas - 1))
      × (last_port true port replicas
          ≡ (if port + replicas == 65536 then none else some (port + replicas - 1)))
unfolding last_port
last_port_lem port replicas p r w =
    let small : as_u16 replicas ≡ replicas = omega arith in
    (
      ground (
        arith,
        add_u16_window port replicas p r w,
        nat_eq.equal_iff (add_u16 port (as_u16 replicas)) 0,
      ),
      ground (
        arith,
        small,
        add_u16_window port replicas p r w,
        nat_eq.equal_iff (port + replicas) 65536,
        nat_eq.equal_iff (add_u16 port (as_u16 replicas)) 0,
      ),
    )

-- For an app with more than one replica, whose window of ports begins after 0 and ends within the
-- 16-bit ports, a build without overflow checks prints the window, and a build with them panics exactly
-- when the window ends at the last port.
pub ports-window :
    (a : App)
    → 1 ≤ a.port
    → 2 ≤ a.replicas
    → a.port + a.replicas ≤ 65536
    → (ports false a ≡ some (window a.port (a.port + a.replicas - 1)))
      × ((ports true a ≡ none) ↔ (a.port + a.replicas ≡ 65536))
unfolding ports
ports-window a p r w =
    let several : (a.replicas == 1) ≡ false = ground (arith, nat_eq.equal_iff a.replicas 1) in
    let (wraps, checks) = last_port_lem a.port a.replicas p (omega arith) w in
    let shown : Option ℕ → Option Ports = λ o. map_or o none (λ last. some (window a.port last)) in
    let later : (o : Option ℕ)
        → (if a.replicas == 1 then some (one a.port) else shown o) ≡ shown o =
      λ o. ap (λ b. if b then some (one a.port) else shown o) several in
    let panics : ports true a
        ≡ shown (if a.port + a.replicas == 65536 then none else some (a.port + a.replicas - 1)) =
      later (last_port true a.port a.replicas) ∙ ap shown checks in
    (
      later (last_port false a.port a.replicas) ∙ ap shown wraps,
      (
        ground (arith, panics, nat_eq.equal_iff (a.port + a.replicas) 65536),
        ground (arith, panics, nat_eq.equal_iff (a.port + a.replicas) 65536),
      ),
    )
