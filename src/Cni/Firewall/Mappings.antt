-- ===== src/Cni/Firewall/Mappings.antt =====
-- Which port mappings `validate_mappings` lets through.
use barenetes.Base.{ℕ, List, [], ◌∷◌, ◌≡◌, ◌↔◌, ◌⊎◌, refl, true, false, ok, arith, ◌≤◌, ◌&&◌}
use barenetes.Shared.{Port}
use barenetes.Cni.Firewall.{has_port, validate_from, validate_mappings, port_ok, known_protocol}

-- Ports that exist and a protocol that has a name.
pub IsMapping : Port → Type 0
IsMapping m =
    ((1 ≤ m.external) × (m.external ≤ 65535))
    × ((1 ≤ m.internal) × (m.internal ≤ 65535))
    × ((m.protocol ≡ 0) ⊎ (m.protocol ≡ 1))

-- No later mapping has the protocol and the host port of this one.
abbrev pub Apart : Port → List Port → Type 0
Apart m [] = Unit
Apart m (n ∷ ns) = (((m.protocol ≡ n.protocol) × (m.external ≡ n.external)) → ⊥) × Apart m ns

pub AreMappings : List Port → Type 0
AreMappings [] = Unit
AreMappings (m ∷ ms) = IsMapping m × Apart m ms × AreMappings ms

-- None of the mappings takes a port of the set.
abbrev Clear : List (ℕ × ℕ) → List Port → Type 0
Clear ports [] = Unit
Clear ports (m ∷ ms) = (has_port (m.protocol, m.external) ports ≡ false) × Clear ports ms

Clear-cons :
    (m : Port) (ports : List (ℕ × ℕ)) (ms : List Port)
    → Clear ((m.protocol, m.external) ∷ ports) ms ↔ (Apart m ms × Clear ports ms)
Clear-cons m ports [] = ((λ c. (tt, tt)), (λ c. tt))
Clear-cons m ports (n ∷ ns) = ground (arith, Clear-cons m ports ns)

tests :
    (m : Port)
    → ((port_ok m.external && port_ok m.internal) && known_protocol m.protocol ≡ true) ↔ IsMapping m
unfolding IsMapping
tests m = ground arith

validate_from_lem :
    (ports : List (ℕ × ℕ)) (ms : List Port)
    → (validate_from ports ms ≡ ok tt) ↔ (AreMappings ms × Clear ports ms)
unfolding AreMappings
validate_from_lem ports [] = ((λ e. (tt, tt)), (λ c. refl))
validate_from_lem ports (m ∷ ms) =
    ground (
      arith,
      tests m,
      validate_from_lem ((m.protocol, m.external) ∷ ports) ms,
      Clear-cons m ports ms,
    )

Clear-none : (ms : List Port) → Clear [] ms
Clear-none [] = tt
Clear-none (m ∷ ms) = (refl, Clear-none ms)

-- The check of the port mappings passes exactly the lists in which every port is between 1 and
-- 65535, every protocol is TCP or UDP, and no two mappings have the same protocol and host
-- port.
pub validate_mappings_lem : (ms : List Port) → (validate_mappings ms ≡ ok tt) ↔ AreMappings ms
unfolding validate_mappings
validate_mappings_lem ms = (
  (λ e. ((validate_from_lem [] ms).0 e).0),
  (λ a. (validate_from_lem [] ms).1 (a, Clear-none ms)),
)
