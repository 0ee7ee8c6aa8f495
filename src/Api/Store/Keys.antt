-- ===== src/Api/Store/Keys.antt =====
-- api/src/store.rs and validation.rs: the keys of etcd.
use Prim.Native.Char.{Char, code}
use Prim.Native.String.{◌++◌ as str_append}
use text.Mathlib.TextLemmas.{nil-append, cons-append, append_cancel_left}
use barenetes.Base.{ℕ, String, ◌≡◌, refl, sym, ap, ◌∙◌, true, arith, ok, string_eq}
use barenetes.Api.Store.{PodKey, pods_prefix, pod_etcd_key}
use barenetes.Api.Validation.{validate_dns1123_subdomain, chars_ok}

accepted-chars_ok :
    (value field : String) → validate_dns1123_subdomain value field ≡ ok tt → chars_ok value ≡ true
unfolding validate_dns1123_subdomain
accepted-chars_ok value field h = ground (arith, h)

-- The number of the first character.
abbrev first_code : String → ℕ
first_code String.[] = 0
first_code (String.◌∷◌ c s) = code c

abbrev rest_of : String → String
rest_of String.[] = ""
rest_of (String.◌∷◌ c s) = s

first-slash : (x : String) → first_code (str_append "/" x) ≡ 47
first-slash x = ap first_code (cons-append _ _ x)

Cons-eq :
    {c d : Char} {a b s t : String}
    → String.◌∷◌ c s ≡ String.◌∷◌ d t
    → a ≡ b
    → String.◌∷◌ c a ≡ String.◌∷◌ d b
Cons-eq k e = cc

-- A name has no slash, so what stands before the first one is the name.
split-slash :
    (a b x y : String)
    → chars_ok a ≡ true
    → chars_ok b ≡ true
    → str_append a (str_append "/" x) ≡ str_append b (str_append "/" y)
    → (a ≡ b) × (x ≡ y)
split-slash String.[] String.[] x y ha hb h =
    (refl, append_cancel_left "/" x y (sym (nil-append _) ∙ (h ∙ nil-append _)))
split-slash String.[] (String.◌∷◌ c b) x y ha hb h =
    let k = sym (first-slash x) ∙ ap first_code (sym (nil-append _) ∙ (h ∙ cons-append c b _)) in
    ground (arith, k, hb)
split-slash (String.◌∷◌ c a) String.[] x y ha hb h =
    let k =
      sym (first-slash y) ∙ ap first_code (sym (nil-append _) ∙ (sym h ∙ cons-append c a _)) in
    ground (arith, k, ha)
split-slash (String.◌∷◌ c a) (String.◌∷◌ d b) x y ha hb h =
    let k = sym (cons-append c a _) ∙ (h ∙ cons-append d b _) in
    let (names, rests) =
      split-slash a b x y (ground (arith, ha)) (ground (arith, hb)) (ap rest_of k) in
    (Cons-eq k names, rests)

-- Two pods whose namespaces pass the check of names have different keys in etcd unless their
-- namespaces and their names are equal.
pub pod_etcd_key-injective :
    (a b : PodKey)
    → validate_dns1123_subdomain a.0 "namespace" ≡ ok tt
    → validate_dns1123_subdomain b.0 "namespace" ≡ ok tt
    → pod_etcd_key a ≡ pod_etcd_key b
    → a ≡ b
pod_etcd_key-injective (n, a) (m, b) hn hm h =
    let (same_ns, same) =
      split-slash n m a b (accepted-chars_ok n "namespace" hn) (accepted-chars_ok m "namespace" hm)
        (append_cancel_left pods_prefix _ _ h) in
    cc
