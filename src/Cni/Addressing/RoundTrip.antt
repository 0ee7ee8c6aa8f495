-- ===== src/Cni/Addressing/RoundTrip.antt =====
-- An address that is printed is read back.
use barenetes.Base.{
  ℕ, String, ◌≡◌, refl, ap, ◌∙◌, Bool, true, false, none, some, ◌∷◌, ◌<◌, ◌/◌, ◌%◌, arith, eqb,
}
use Prim.Native.String.{◌++◌}
use text.Mathlib.TextLemmas.{cons-append, nil-append}
use barenetes.Base.Decimal.{
  show, split, split_lem, split-append, all_below, all_below_lem, show-lacks_dot,
}
use barenetes.Cni.Addressing.{print_ipv4, octet, parse_ipv4}

abbrev octet_read_back : ℕ → Bool
octet_read_back n = elim (octet (show n)) [ none ↦ false | some m ↦ eqb m n ]

octets_read_back : all_below octet_read_back 256 ≡ true
octets_read_back = refl

octet-show : (n : ℕ) → n < 256 → octet (show n) ≡ some n
octet-show n lt = ground (arith, all_below_lem octet_read_back 256 n octets_read_back lt)

split_dot : (n : ℕ) (r : String) → n < 256 → split 46 (show n ++ ("." ++ r)) ≡ show n ∷ split 46 r
split_dot n r lt =
    ap (λ t. split 46 (show n ++ t))
      (cons-append "." "" r ∙ ap (λ t. String.◌∷◌ "." t) (nil-append r))
    ∙ split-append 46 (show n) "." r (show-lacks_dot n lt) refl

byte : (n : ℕ) → n % 256 < 256
byte n = omega arith

-- The text of an IPv4 address is read back as that address, for every address below 2^32.
pub parse_ipv4-print_ipv4 : (n : ℕ) → n < 4294967296 → parse_ipv4 (print_ipv4 n) ≡ some n
parse_ipv4-print_ipv4 n lt =
    rw
      (
        split_dot (n / 16777216 % 256) _ (byte (n / 16777216)),
        split_dot (n / 65536 % 256) _ (byte (n / 65536)),
        split_dot (n / 256 % 256) _ (byte (n / 256)),
        split_lem 46 (show (n % 256)) (show-lacks_dot (n % 256) (byte n)),
        octet-show (n / 16777216 % 256) (byte (n / 16777216)),
        octet-show (n / 65536 % 256) (byte (n / 65536)),
        octet-show (n / 256 % 256) (byte (n / 256)),
        octet-show (n % 256) (byte n),
      )
      (ap some (omega (arith, lt)))
