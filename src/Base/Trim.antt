-- ===== src/Base/Trim.antt =====
-- strings.TrimSpace, HasSuffix and TrimPrefix, and the decimals that fmt prints.
use Prim.Native.Nat.{ℕ, zero, suc, ◌/◌, ◌%◌}
use Prim.Native.Char.{code}
use Prim.Native.String.{String, [] as nil, ◌∷◌ as ◌⊳◌, ◌++◌ as ◌⧺◌}
use text.Mathlib.Text.{◌==◌}
use mathlib.Core.Bool.{Bool, true, false, ◌&&◌, ◌||◌}
use mathlib.Core.List.{List, [], ◌∷◌}
use mathlib.Core.Option.{Option, none, some}
use mathlib.Core.Path.{◌≡◌, refl}
use chaosblade_operator.Base.Lists.{get_elem?}
use chaosblade_operator.Base.Int.{ℤ, pos, negsuc}
use chaosblade_operator.Base.Tests.{ltb, leb, beq, if◌then◌else◌}

-- unicode.IsSpace on ASCII.
abbrev is_space : ℕ → Bool
is_space c = beq c 32 || (leb 9 c && leb c 13)

unfoldable pub trim_left : String → String
trim_left nil = nil
trim_left (c ⊳ s) = let rest = trim_left s in if is_space (code c) then rest else c ⊳ s

unfoldable pub trim_right : String → String
trim_right nil = nil
trim_right (c ⊳ s) =
    let rest = trim_right s in if rest == "" && is_space (code c) then nil else c ⊳ rest

unfoldable pub trim_space : String → String
unfolding trim_left trim_right
trim_space s = trim_right (trim_left s)

unfoldable pub has_suffix : String → String → Bool
has_suffix nil p = p == ""
has_suffix (c ⊳ s) p = (c ⊳ s) == p || has_suffix s p

-- What follows the prefix.
unfoldable pub behind : String → String → Option String
behind s nil = some s
behind nil (d ⊳ p) = none
behind (c ⊳ s) (d ⊳ p) = let rest = behind s p in if beq (code c) (code d) then rest else none

unfoldable pub trim_prefix : String → String → String
unfolding behind
trim_prefix s p = elim (behind s p) [ none ↦ s | some rest ↦ rest ]

abbrev digits_texts : List String
digits_texts = "0" ∷ "1" ∷ "2" ∷ "3" ∷ "4" ∷ "5" ∷ "6" ∷ "7" ∷ "8" ∷ "9" ∷ []

abbrev digit : ℕ → String
digit n = elim (get_elem? digits_texts n) [ none ↦ "" | some t ↦ t ]

-- The digits of a number in front of a text; the first argument bounds how many there are.
unfoldable pub decimal_of : ℕ → ℕ → String → String
decimal_of zero n rest = rest
decimal_of (suc k) n rest =
    let more = decimal_of k (n / 10) (digit (n % 10) ⧺ rest) in
    if ltb n 10 then digit n ⧺ rest else more

-- A number has at most as many digits as one more than its value.
unfoldable pub decimal : ℕ → String
unfolding decimal_of
decimal n = decimal_of (suc n) n ""

unfoldable pub decimal_ℤ : ℤ → String
unfolding decimal
decimal_ℤ (pos n) = decimal n
decimal_ℤ (negsuc n) = "-" ⧺ decimal (suc n)

trim_examples :
    (trim_space " 200\n" ≡ "200")
    × (trim_space " \t" ≡ "")
    × (has_suffix "a/yaml.tar.gz" "tar.gz" ≡ true)
    × (has_suffix "blade" "tar.gz" ≡ false)
    × (trim_prefix "/opt/chaosblade/bin/x" "/opt/chaosblade/" ≡ "bin/x")
    × (decimal 404 ≡ "404")
    × (decimal_ℤ (negsuc 9) ≡ "-10")
unfolding trim_space has_suffix trim_prefix decimal decimal_ℤ
trim_examples = (refl, refl, refl, refl, refl, refl, refl)
