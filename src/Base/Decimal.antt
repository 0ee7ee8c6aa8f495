-- ===== src/Base/Decimal.antt =====
-- `to_string` of an unsigned integer, `parse::<u8>` and `parse::<u32>`, and `split` at a character.
use Prim.Native.Nat.{ℕ, zero, suc, ◌+◌, ◌-◌, ◌*◌, ◌/◌, ◌%◌, ◌<◌}
use Prim.Native.Char.{Char, code}
use Prim.Native.String.{String, ◌++◌}
use mathlib.Core.Path.{◌≡◌, refl}
use mathlib.Core.Bool.{Bool, true, false, ◌&&◌, not}
use mathlib.Core.Option.{Option, none, some}
use mathlib.Core.List.{List, [], ◌∷◌}
use native.Mathlib.Omega.{arith}
use text.Mathlib.TextLemmas.{nil-append, cons-append}
use barenetes.Base.Tests.{if◌then◌else◌, eqb, ltb, leb, Some-eq}

abbrev digit : ℕ → String
digit n =
    if eqb n 0
    then "0"
    else if eqb n 1
    then "1"
    else if eqb n 2
    then "2"
    else if eqb n 3
    then "3"
    else if eqb n 4
    then "4"
    else if eqb n 5
    then "5"
    else if eqb n 6
    then "6"
    else if eqb n 7
    then "7"
    else if eqb n 8
    then "8"
    else "9"

-- A number has at most as many digits as it counts, and one.
abbrev digits : ℕ → ℕ → String → String
digits zero n out = out
digits (suc fuel) n out =
    if ltb n 10 then digit n ++ out else digits fuel (n / 10) (digit (n % 10) ++ out)

abbrev pub show : ℕ → String
show n = digits (suc n) n ""

abbrev pub is_digit : Char → Bool
is_digit c = leb 48 (code c) && leb (code c) 57

-- The number that a run of digits stands for.
abbrev scan : ℕ → String → Option ℕ
scan n String.[] = some n
scan n (String.◌∷◌ c s) = if is_digit c then scan (10 * n + (code c - 48)) s else none

abbrev bounded : ℕ → Option ℕ → Option ℕ
bounded max none = none
bounded max (some n) = if leb n max then some n else none

abbrev number : String → Option ℕ
number String.[] = none
number (String.◌∷◌ c s) = scan 0 (String.◌∷◌ c s)

-- `parse`, for the unsigned type with this greatest value: a sign `+` may come first.
abbrev pub parse_number : ℕ → String → Option ℕ
parse_number max String.[] = none
parse_number max (String.◌∷◌ c s) =
    bounded max (if eqb (code c) 43 then number s else number (String.◌∷◌ c s))

abbrev pub max_u8 : ℕ
max_u8 = 255

abbrev pub max_u32 : ℕ
max_u32 = 4294967295

-- `split`: the parts between the occurrences of a character.
abbrev add_char : Char → List String → List String
add_char c [] = String.◌∷◌ c String.[] ∷ []
add_char c (s ∷ ss) = String.◌∷◌ c s ∷ ss

abbrev pub split : ℕ → String → List String
split sep String.[] = String.[] ∷ []
split sep (String.◌∷◌ c s) =
    let rest = split sep s in if eqb (code c) sep then String.[] ∷ rest else add_char c rest

abbrev pub lacks : ℕ → String → Bool
lacks sep String.[] = true
lacks sep (String.◌∷◌ c s) = not (eqb (code c) sep) && lacks sep s

-- Text without the separator is one part, and comes off in front of a separator as one.
pub split_lem : (sep : ℕ) (s : String) → lacks sep s ≡ true → split sep s ≡ s ∷ []
split_lem sep String.[] h = refl
split_lem sep (String.◌∷◌ c s) h = ground (arith, split_lem sep s)

pub split-append :
    (sep : ℕ) (s : String) (c : Char) (r : String)
    → lacks sep s ≡ true
    → code c ≡ sep
    → split sep (s ++ String.◌∷◌ c r) ≡ s ∷ split sep r
split-append sep String.[] c r h e = rw (nil-append (String.◌∷◌ c r)) (ground arith)
split-append sep (String.◌∷◌ d s) c r h e =
    rw (cons-append d s (String.◌∷◌ c r)) (ground (arith, split-append sep s c r))

-- A test that holds of the numbers below a bound, checked one by one.
abbrev pub all_below : (ℕ → Bool) → ℕ → Bool
all_below p zero = true
all_below p (suc n) = p n && all_below p n

pub all_below_lem : (p : ℕ → Bool) (n m : ℕ) → all_below p n ≡ true → m < n → p m ≡ true
all_below_lem p zero m h lt = ground arith
all_below_lem p (suc n) m h lt = ground (arith, all_below_lem p n m)

-- What a byte is printed as is read back, and has no dot.
abbrev reads_back : ℕ → Bool
reads_back n = elim (parse_number max_u8 (show n)) [ none ↦ false | some m ↦ eqb m n ]

bytes_read_back : all_below reads_back 256 ≡ true
bytes_read_back = refl

bytes_lack_dot : all_below (λ n. lacks 46 (show n)) 256 ≡ true
bytes_lack_dot = refl

pub parse_number-show : (n : ℕ) → n < 256 → parse_number max_u8 (show n) ≡ some n
parse_number-show n lt = ground (arith, all_below_lem reads_back 256 n bytes_read_back lt)

pub show-lacks_dot : (n : ℕ) → n < 256 → lacks 46 (show n) ≡ true
show-lacks_dot n lt = all_below_lem (λ m. lacks 46 (show m)) 256 n bytes_lack_dot lt

pub show-injective : (m n : ℕ) → m < 256 → n < 256 → show m ≡ show n → m ≡ n
show-injective m n lm ln e = Some-eq (cc (e, parse_number-show m lm, parse_number-show n ln))

pub lacks-append :
    (sep : ℕ) (s t : String) → lacks sep s ≡ true → lacks sep t ≡ true → lacks sep (s ++ t) ≡ true
lacks-append sep String.[] t h g = rw (nil-append t) g
lacks-append sep (String.◌∷◌ c s) t h g =
    rw (cons-append c s t) (ground (arith, lacks-append sep s t))
