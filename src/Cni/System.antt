-- ===== src/Cni/System.antt =====
-- cni/src/network/system.rs: the programs that the daemon starts, found through the environment
-- or in the system's directories.
use barenetes.Base.{
  ℕ, String, Bool, Option, none, some, List, [], ◌∷◌, if◌then◌else◌, ltb, eqb, ◌||◌, ◌==◌,
  string_eq, Result, ok, err, format, join,
}
use Prim.Native.Char.{Char, code}
use Prim.Native.String.{◌++◌ as str_append}
use barenetes.Base.Decimal.{parse_number, max_u32}
use barenetes.Base.Action.{◌>>=◌, ◌>>◌, pure, lift}
use barenetes.Cni.{Host, Command, IoError, input_error, data_error, missing_error, other_error}

abbrev tool_directories : List String
tool_directories = "/usr/sbin" ∷ "/sbin" ∷ "/usr/bin" ∷ "/bin" ∷ []

-- Leaves room for the 50 bytes of VXLAN encapsulation.
abbrev default_mtu : ℕ
default_mtu = 1450

-- The variable, where it is set and not empty.
abbrev pub non_empty : Option String → Option String
non_empty (some (String.◌∷◌ c s)) = some (String.◌∷◌ c s)
non_empty _ = none

-- `to_uppercase`, on the letters that the names of the programs have.
abbrev upper_letters : List (ℕ × String)
upper_letters =
    (97, "A")
    ∷ (98, "B")
    ∷ (99, "C")
    ∷ (100, "D")
    ∷ (101, "E")
    ∷ (102, "F")
    ∷ (103, "G")
    ∷ (104, "H")
    ∷ (105, "I")
    ∷ (106, "J")
    ∷ (107, "K")
    ∷ (108, "L")
    ∷ (109, "M")
    ∷ (110, "N")
    ∷ (111, "O")
    ∷ (112, "P")
    ∷ (113, "Q")
    ∷ (114, "R")
    ∷ (115, "S")
    ∷ (116, "T")
    ∷ (117, "U")
    ∷ (118, "V")
    ∷ (119, "W")
    ∷ (120, "X")
    ∷ (121, "Y")
    ∷ (122, "Z")
    ∷ []

abbrev upper : Char → List (ℕ × String) → String
upper c [] = String.◌∷◌ c String.[]
upper c ((n, s) ∷ rest) = let t = upper c rest in if eqb (code c) n then s else t

abbrev to_uppercase : String → String
to_uppercase String.[] = ""
to_uppercase (String.◌∷◌ c s) = str_append (upper c upper_letters) (to_uppercase s)

abbrev variable_of : String → String
variable_of program = format ("BARENETES_" ∷ to_uppercase program ∷ "_BIN" ∷ [])

abbrev failed : {A : Type 0} → String → List String → Result IoError A
failed program arguments =
    err
      (other_error (format ("network command failed: " ∷ program ∷ " " ∷ join " " arguments ∷ [])))

abbrev not_a_file : String → IoError
not_a_file variable = missing_error (format (variable ∷ " does not point to an existing file" ∷ []))

abbrev no_tool : String → IoError
no_tool program = missing_error (
    format (
      program
      ∷ " not found in "
      ∷ join ", " tool_directories
      ∷ "; set "
      ∷ variable_of program
      ∷ " to its absolute path"
      ∷ []))

abbrev in_range : Option ℕ → Option ℕ
in_range none = none
in_range (some mtu) = if ltb mtu 576 || ltb 9000 mtu then none else some mtu

module _ (H : Host) where
  unfoldable pub mtu : Result IoError ℕ
  mtu = elim (non_empty (H.env "BARENETES_MTU")) [
    | none ↦ ok default_mtu
    | some text ↦ elim (in_range (parse_number max_u32 text)) [
      | none ↦ err (input_error "BARENETES_MTU must be between 576 and 9000")
      | some value ↦ ok value
    ]
  ]

  abbrev find_tool : String → List String → H.Machine → Result IoError String
  find_tool program [] machine = err (no_tool program)
  find_tool program (directory ∷ directories) machine =
      let rest = find_tool program directories machine in
      if H.is_file (format (directory ∷ "/" ∷ program ∷ [])) machine
      then ok (format (directory ∷ "/" ∷ program ∷ []))
      else rest

  unfoldable pub resolve : String → Command H String
  resolve program machine = (
    machine,
    elim (H.env (variable_of program)) [
      | some path ↦
          if H.is_file path machine then ok path else err (not_a_file (variable_of program))
      | none ↦ find_tool program tool_directories machine
    ],
  )

  unfoldable pub succeeds : String → List String → Command H Bool
  succeeds program arguments = do
    path ← resolve program
    H.status path (if program == "iptables" then "-w" ∷ "5" ∷ arguments else arguments)

  unfoldable pub run : String → List String → Command H (Unit {0})
  run program arguments = do
    success ← succeeds program arguments
    lift (if success then ok tt else failed program arguments)

  abbrev pub output : String → List String → Command H String
  output program arguments = do
    path ← resolve program
    (success, text) ← H.stdout path arguments
    if success then pure tt else lift (failed program arguments)
    lift (elim text [
      | none ↦ err (data_error "network command output is invalid UTF-8")
      | some s ↦ ok s
    ])
