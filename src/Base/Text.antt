-- ===== src/Base/Text.antt =====
-- Text: the native `String`, and the functions of Go's `strings` that the program calls.
-- A byte of a Go string is a character here, so the model is of ASCII text.
pub use Prim.Native.String.{String, ◌++◌ as ◌⧺◌}
pub use text.Mathlib.Text.{◌==◌}
pub use text.Mathlib.TextEquality.{eq_iff}
use Prim.Native.Nat.{ℕ, zero, suc, ◌<◌}
use Prim.Native.Char.{Char, code}
use Prim.Native.String.{[] as nil, ◌∷◌ as ◌⊳◌}
use text.Mathlib.TextLemmas.{nil-append, cons-append}
use mathlib.Core.Bool.{Bool, true, false, ◌&&◌}
use mathlib.Core.List.{List, [], ◌∷◌}
use mathlib.Core.Logic.{◌≢◌, inl, inr}
use mathlib.Core.Option.{Option, none, some}
use mathlib.Core.Path.{◌≡◌, refl}
use native.Mathlib.Omega.{arith}
use chaosblade_operator.Base.Lists.{length}
use chaosblade_operator.Base.Tests.{ltb, beq, if◌then◌else◌, Bool-cases}

-- No character of the text is `sep`.
abbrev pub Lacks : ℕ → String → Type 0
Lacks sep nil = Unit
Lacks sep (c ⊳ s) = (code c ≢ sep) × Lacks sep s

abbrev push : Char → Option (String × String) → Option (String × String)
push c none = none
push c (some (a, b)) = some (c ⊳ a, b)

-- strings.Cut(s, sep) for a separator of one character.
unfoldable pub cut : ℕ → String → Option (String × String)
cut sep nil = none
cut sep (c ⊳ s) = if beq (code c) sep then some (nil, s) else push c (cut sep s)

abbrev join_head : Char → List String → List String
join_head c [] = (c ⊳ nil) ∷ []
join_head c (p ∷ ps) = (c ⊳ p) ∷ ps

-- strings.Split(s, sep).
unfoldable pub split : ℕ → String → List String
split sep nil = nil ∷ []
split sep (c ⊳ s) = if beq (code c) sep then nil ∷ split sep s else join_head c (split sep s)

-- strings.SplitN(s, sep, n): at most n parts, the last one with what is left.
unfoldable pub split_n : ℕ → ℕ → String → List String
unfolding cut
split_n sep zero s = []
split_n sep (suc zero) s = s ∷ []
split_n sep (suc (suc k)) s = elim (cut sep s) [
  | none ↦ s ∷ []
  | some (a, b) ↦ a ∷ split_n sep (suc k) b
]

-- strings.HasPrefix(s, p).
unfoldable pub has_prefix : String → String → Bool
has_prefix s nil = true
has_prefix nil (d ⊳ p) = false
has_prefix (c ⊳ s) (d ⊳ p) = beq (code c) (code d) && has_prefix s p

-- strings.Join(parts, sep).
unfoldable pub join : String → List String → String
join sep [] = nil
join sep (p ∷ []) = p
join sep (p ∷ q ∷ ps) = p ⧺ (sep ⧺ join sep (q ∷ ps))

abbrev pub slash : ℕ
slash = b'/'

abbrev pub comma : ℕ
comma = b','

-- Cutting at the first separator undoes the concatenation, if the first part holds none.
pub cut-append :
    (sep : ℕ) (a : String) (d : Char) (b : String)
    → Lacks sep a
    → code d ≡ sep
    → cut sep (a ⧺ (d ⊳ b)) ≡ some (a, b)
unfolding cut
cut-append sep nil d b h e = rw nil-append (ground arith)
cut-append sep (c ⊳ a) d b h e = rw cons-append (ground (arith, cut-append sep a d b h.1 e))

pub cut-slash : (a b : String) → Lacks slash a → cut slash (a ⧺ ("/" ⧺ b)) ≡ some (a, b)
cut-slash a b h = rw cons-append (rw nil-append (cut-append slash a "/" b h refl))

pub cut-Lacks : (sep : ℕ) (a : String) → Lacks sep a → cut sep a ≡ none
unfolding cut
cut-Lacks sep nil h = refl
cut-Lacks sep (c ⊳ a) h = ground (arith, cut-Lacks sep a h.1)

unfoldable pub String_discrete : Discrete String
String_discrete s t = elim (Bool-cases (s == t)) [
  | inl same ↦ yes ((eq_iff s t).0 same)
  | inr differ ↦ no (λ e. cc ((eq_iff s t).1 e, differ))
]

-- m[k] on a Go map from texts to texts: the empty text where the key is missing.
abbrev pub index : List (String × String) → String → String
index [] k = nil
index ((j, v) ∷ m) k = if j == k then v else index m k

-- m[k] = v.
unfoldable pub assign : List (String × String) → String → String → List (String × String)
assign [] k v = (k, v) ∷ []
assign ((j, w) ∷ m) k v = if j == k then (k, v) ∷ m else (j, w) ∷ assign m k v

pub index-assign :
    (m : List (String × String)) (k v j : String)
    → index (assign m k v) j ≡ (if k == j then v else index m j)
unfolding assign
index-assign [] k v j = refl
index-assign ((i, w) ∷ m) k v j =
    ground (arith, eq_iff k j, eq_iff i k, eq_iff i j, index-assign m k v j)

length-split-pos : (sep : ℕ) (s : String) → 0 < length (split sep s)
unfolding split
length-split-pos sep nil = omega arith
length-split-pos sep (c ⊳ s) = ground (arith, length-join_head c (split sep s))
  where
    length-join_head : (c : Char) (l : List String) → 0 < length (join_head c l)
    length-join_head c [] = omega arith
    length-join_head c (p ∷ ps) = omega arith

length-join_head : (c : Char) (l : List String) → 0 < length l → length (join_head c l) ≡ length l
length-join_head c [] h = absurd (omega arith)
length-join_head c (p ∷ ps) h = refl

-- `Split` gives one part exactly if the separator does not occur.
pub Lacks-of_split : (sep : ℕ) (s : String) → ltb 1 (length (split sep s)) ≡ false → Lacks sep s
unfolding split
Lacks-of_split sep nil h = tt
Lacks-of_split sep (c ⊳ s) h =
    ground (arith, Lacks-of_split sep s, length-join_head c (split sep s), length-split-pos sep s)

pub split-Lacks : (sep : ℕ) (s : String) → Lacks sep s → split sep s ≡ s ∷ []
unfolding split
split-Lacks sep nil h = refl
split-Lacks sep (c ⊳ s) h = ground (arith, split-Lacks sep s h.1)
