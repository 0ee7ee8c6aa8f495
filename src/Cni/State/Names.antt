-- ===== src/Cni/State/Names.antt =====
-- A record's file is never a pool's: the names of records have no dash.
use barenetes.Base.{
  ℕ, zero, suc, String, List, [], ◌∷◌, ◌≡◌, ◌≢◌, refl, sym, ap, ◌∙◌, true, false, Bool, arith,
  if◌then◌else◌, eqb, ltb, format, ◌/◌, ◌%◌,
}
use barenetes.Base.Decimal.{lacks, lacks-append, all_below, all_below_lem, show}
use barenetes.Cni.{Host, FilePath}
use barenetes.Cni.Pool.{IpPool, pool_file}
use barenetes.Cni.State.{StateStore, path, hex, hex_digit, feed, stable_id}

digits_lack_dash : all_below (λ n. lacks 45 (show n)) 10 ≡ true
digits_lack_dash = refl

if-lacks_dash :
    (b : Bool) (s t : String)
    → (b ≡ true → lacks 45 s ≡ true)
    → lacks 45 t ≡ true
    → lacks 45 (if b then s else t) ≡ true
if-lacks_dash true s t h g = h refl
if-lacks_dash false s t h g = g

hex_digit-lacks_dash : (n : ℕ) → lacks 45 (hex_digit n) ≡ true
hex_digit-lacks_dash n =
    if-lacks_dash (ltb n 10) (show n) _
      (λ small.
        all_below_lem (λ m. lacks 45 (show m)) 10 n digits_lack_dash (ground (arith, small)))
      (letter (eqb n 10) "a" _ refl (
        letter (eqb n 11) "b" _ refl (
          letter (eqb n 12) "c" _ refl
            (letter (eqb n 13) "d" _ refl (letter (eqb n 14) "e" "f" refl refl)))))
  where
    letter :
        (b : Bool) (s t : String)
        → lacks 45 s ≡ true
        → lacks 45 t ≡ true
        → lacks 45 (if b then s else t) ≡ true
    letter b s t h g = if-lacks_dash b s t (λ _. h) g

hex-lacks_dash : (count : ℕ) (bytes : List ℕ) → lacks 45 (format (hex count bytes)) ≡ true
hex-lacks_dash zero bytes = refl
hex-lacks_dash (suc count) [] = refl
hex-lacks_dash (suc count) (b ∷ bytes) =
    lacks-append 45 (hex_digit (b / 16)) _ (hex_digit-lacks_dash (b / 16)) (
      lacks-append 45 (hex_digit (b % 16)) (format (hex count bytes))
        (hex_digit-lacks_dash (b % 16)) (hex-lacks_dash count bytes))

stable_id-lacks_dash : (H : Host) (parts : List String) → lacks 45 (stable_id H parts) ≡ true
stable_id-lacks_dash H parts = hex-lacks_dash 12 (H.finalize (feed H parts H.new_hash))

head : FilePath → String
head [] = ""
head (name ∷ _) = name

pub path≢pool_file :
    (H : Host) (store : StateStore) (workload name network : String) (p : IpPool)
    → path H store workload name network ≢ pool_file p
unfolding head
path≢pool_file H store workload name network p e = cc (
    sym (
      lacks-append 45 (stable_id H (workload ∷ name ∷ network ∷ [])) ".json"
        (stable_id-lacks_dash H (workload ∷ name ∷ network ∷ [])) refl)
    ∙ ap (λ q. lacks 45 (head q)) e)
