-- ===== src/Base/Int.antt =====
-- Signed integers over the native numbers (the library's ℤ stands on the unary ℕ), and strconv.Atoi.
use Prim.Native.Nat.{ℕ, suc, ◌+◌, ◌-◌, ◌*◌, ◌^◌, ◌≤◌}
use Prim.Native.Char.{code}
use Prim.Native.String.{String, [] as nil, ◌∷◌ as ◌⊳◌}
use mathlib.Core.Bool.{Bool, ◌||◌}
use mathlib.Core.Option.{Option, none, some}
use mathlib.Core.Path.{◌≡◌, refl}
use chaosblade_operator.Base.Tests.{ltb, leb, beq, if◌then◌else◌}

-- `negsuc n` is -(n + 1).
pub data ℤ : Type 0 where
  pos : ℕ → ℤ
  negsuc : ℕ → ℤ

abbrev pub pos_part : ℤ → ℕ
pos_part (pos n) = n
pos_part (negsuc n) = 0

abbrev pub neg_part : ℤ → ℕ
neg_part (pos n) = 0
neg_part (negsuc n) = suc n

infix 50 ◌≤ℤ◌
abbrev pub ◌≤ℤ◌ : ℤ → ℤ → Type 0
a ≤ℤ b = pos_part a + neg_part b ≤ pos_part b + neg_part a

abbrev pub ltb_ℤ : ℤ → ℤ → Bool
ltb_ℤ a b = ltb (pos_part a + neg_part b) (pos_part b + neg_part a)

abbrev pub is_zero : ℤ → Bool
is_zero a = beq (pos_part a + neg_part a) 0

abbrev pub min_ℤ : ℤ → ℤ → ℤ
min_ℤ a b = if ltb_ℤ b a then b else a

abbrev pub max_int64 : ℕ
max_int64 = 2 ^ 63 - 1

-- The decimal digits of a text, most significant first.
unfoldable pub digits : ℕ → String → Option ℕ
digits n nil = some n
digits n (c ⊳ s) =
    if ltb (code c) 48 || ltb 57 (code c) then none else digits (n * 10 + (code c - 48)) s

-- The value of a text of at least one digit.
unfoldable pub magnitude : String → Option ℕ
unfolding digits
magnitude nil = none
magnitude (c ⊳ s) = digits 0 (c ⊳ s)

abbrev positive : Option ℕ → Option ℤ
positive none = none
positive (some n) = if leb n max_int64 then some (pos n) else none

abbrev pub negate : ℕ → ℤ
negate n = if beq n 0 then pos 0 else negsuc (n - 1)

-- The range of int64 goes one further below zero.
abbrev negative : Option ℕ → Option ℤ
negative none = none
negative (some n) = if leb n (max_int64 + 1) then some (negate n) else none

-- strconv.Atoi on a 64-bit platform; `none` is the error.
unfoldable pub atoi : String → Option ℤ
unfolding magnitude
atoi nil = none
atoi (c ⊳ s) =
    if beq (code c) b'-'
    then negative (magnitude s)
    else if beq (code c) b'+'
    then positive (magnitude s)
    else positive (magnitude (c ⊳ s))

atoi_examples :
    (atoi "15" ≡ some (pos 15))
    × (atoi "-3" ≡ some (negsuc 2))
    × (atoi "+07" ≡ some (pos 7))
    × (atoi "" ≡ none)
    × (atoi "-" ≡ none)
    × (atoi "1a" ≡ none)
    × (atoi "9223372036854775808" ≡ none)
unfolding atoi
atoi_examples = (refl, refl, refl, refl, refl, refl, refl)
