-- ===== src/Api/Validation.antt =====
-- api/src/validation.rs: names of pods, namespaces and nodes.
use Prim.Native.Char.{Char, code}
use Prim.Native.String.{len}
use barenetes.Base.{
  String, Bool, true, false, ◌&&◌, ◌||◌, not, [], ◌∷◌, if◌then◌else◌, ltb, leb, eqb, Result, ok,
  err, format,
}
use barenetes.Api.Status.{Status, invalid_argument}

-- `is_ascii_lowercase() || is_ascii_digit()`.
abbrev pub is_alnum : Char → Bool
is_alnum c = (leb 97 (code c) && leb (code c) 122) || (leb 48 (code c) && leb (code c) 57)

abbrev pub is_name_char : Char → Bool
is_name_char c = is_alnum c || eqb (code c) 45

abbrev pub chars_ok : String → Bool
chars_ok String.[] = true
chars_ok (String.◌∷◌ c s) = is_name_char c && chars_ok s

abbrev pub starts_ok : String → Bool
starts_ok String.[] = false
starts_ok (String.◌∷◌ c s) = is_alnum c

abbrev pub ends_ok : String → Bool
ends_ok String.[] = false
ends_ok (String.◌∷◌ c String.[]) = is_alnum c
ends_ok (String.◌∷◌ c (String.◌∷◌ d s)) = ends_ok (String.◌∷◌ d s)

abbrev pub is_empty : String → Bool
is_empty String.[] = true
is_empty (String.◌∷◌ c s) = false

unfoldable pub validate_dns1123_subdomain : String → String → Result Status (Unit {0})
validate_dns1123_subdomain value field =
    if is_empty value
    then err (invalid_argument (format (field ∷ " must not be empty" ∷ [])))
    else if ltb 253 (len value)
    then err (invalid_argument (format (field ∷ " must be 253 characters or fewer" ∷ [])))
    else if not (starts_ok value) || (not (ends_ok value) || not (chars_ok value))
    then err (
        invalid_argument (
          format (
            field
            ∷ " is invalid: must be lowercase alphanumeric characters or '-', and must start and end with an alphanumeric character"
            ∷ [])))
    else ok tt
