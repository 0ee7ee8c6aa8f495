-- ===== src/Cni/Addressing.antt =====
-- cni/src/addressing.rs, with `Ipv4Addr` of the standard library: an address is its 32-bit number.
pub mod RoundTrip
use barenetes.Base.{
  ℕ, String, Bool, true, false, Option, none, some, List, [], ◌∷◌, ◌+◌, ◌*◌, ◌/◌, ◌%◌, ◌<◌, ◌≤◌,
  ◌≡◌, ◌≢◌, refl, ◌&&◌, ◌||◌, not, if◌then◌else◌, eqb, ltb, format, arith,
}
use barenetes.Base.Decimal.{show, parse_number, max_u8, split}
use Prim.Native.String.{len, ◌++◌}
use Prim.Native.Char.{code}

abbrev pub ipv4 : ℕ → ℕ → ℕ → ℕ → ℕ
ipv4 a b c d = ((a * 256 + b) * 256 + c) * 256 + d

-- `Display`: the octets with dots between.
abbrev pub print_ipv4 : ℕ → String
print_ipv4 n =
    show (n / 16777216 % 256)
    ++ ("."
        ++ (show (n / 65536 % 256) ++ ("." ++ (show (n / 256 % 256) ++ ("." ++ show (n % 256))))))

-- `FromStr`: four octets of one to three digits without a leading zero.
abbrev pub octet : String → Option ℕ
octet s = if zero_led s || ltb 3 (len s) then none else unsigned s
  where
    zero_led : String → Bool
    zero_led (String.◌∷◌ c (String.◌∷◌ d s)) = eqb (code c) 48
    zero_led _ = false

    unsigned : String → Option ℕ
    unsigned String.[] = none
    unsigned (String.◌∷◌ c s) =
        if eqb (code c) 43 then none else parse_number max_u8 (String.◌∷◌ c s)

abbrev pub from_octets : List (Option ℕ) → Option ℕ
from_octets (some a ∷ some b ∷ some c ∷ some d ∷ []) = some (ipv4 a b c d)
from_octets _ = none

abbrev pub octet_list : List String → List (Option ℕ)
octet_list [] = []
octet_list (s ∷ ss) = octet s ∷ octet_list ss

abbrev pub parse_ipv4 : String → Option ℕ
parse_ipv4 s = from_octets (octet_list (split 46 s))

abbrev pub gateway : ℕ → ℕ → ℕ
gateway vlan node = ipv4 10 vlan node 1

abbrev pub pool_range : ℕ → ℕ → ℕ × ℕ
pool_range vlan node = (ipv4 10 vlan node 2, ipv4 10 vlan node 254)
