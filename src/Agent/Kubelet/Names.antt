-- ===== src/Agent/Kubelet/Names.antt =====
-- The namespace in a pod's id.
use barenetes.Base.{String, true, some, ◌≡◌, refl, ap, ◌∙◌, arith}
use Prim.Native.String.{◌++◌}
use Prim.Native.Char.{Char, code}
use text.Mathlib.TextLemmas.{cons-append, nil-append}
use barenetes.Base.Decimal.{lacks}
use barenetes.Agent.Kubelet.{before_dot, pod_id, resolve_pod_id, namespace_of, or_default}

before_dot-append :
    (s : String) (c : Char) (r : String)
    → lacks 46 s ≡ true
    → code c ≡ 46
    → before_dot (s ++ String.◌∷◌ c r) ≡ some s
before_dot-append String.[] c r h e = rw (nil-append (String.◌∷◌ c r)) (ground (arith, e))
before_dot-append (String.◌∷◌ d s) c r h e =
    rw (cons-append d s (String.◌∷◌ c r)) (ground (arith, before_dot-append s c r, h, e))

namespace_of-pod_id :
    (namespace pod_name : String)
    → lacks 46 namespace ≡ true
    → namespace_of (pod_id namespace pod_name) ≡ namespace
namespace_of-pod_id namespace pod_name h =
    ap (λ t. namespace_of (namespace ++ t))
      (cons-append "." "" (pod_name ++ "")
        ∙ ap (λ t. String.◌∷◌ "." t) (nil-append (pod_name ++ "")))
    ∙ ground (arith, before_dot-append namespace "." (pod_name ++ "") h refl)

-- The namespace is read back from a pod's id, an empty one as `default`, when the namespace has
-- no dot.
pub namespace_of-resolve_pod_id :
    (namespace pod_name : String)
    → lacks 46 namespace ≡ true
    → namespace_of (resolve_pod_id namespace pod_name) ≡ or_default namespace
namespace_of-resolve_pod_id String.[] pod_name h = namespace_of-pod_id "default" pod_name refl
namespace_of-resolve_pod_id (String.◌∷◌ c s) pod_name h =
    namespace_of-pod_id (String.◌∷◌ c s) pod_name h
