-- ===== src/Model/Count.antt =====
-- GetResourceCount of exec/model/controller.go: how many of the matched resources an experiment is
-- injected into. float64 is a parameter.
use Prim.Native.Nat.{min}
use chaosblade_operator.Base.{
  ℕ, suc, zero, ◌^◌, ◌≤◌, ◌<◌, String, ◌==◌, ◌≡◌, ◌⊎◌, ◌↔◌, false, none, some, [], ◌∷◌, arith,
  if◌then◌else◌, index, ℤ, pos, ◌≤ℤ◌, ltb_ℤ, is_zero, atoi,
}
use chaosblade_operator.Api.{Response, response_success, response_fail, parameter_illegal}
use chaosblade_operator.Model.Flags.{Flags, resource_count_flag, resource_percent_flag}

-- The operations on float64 that the function uses. `round` is math.Round and `to_int` the conversion.
pub record Float64 : Type 1 where
  pub F : Type 0
  pub of_int : ℤ → F
  pub div : F → F → F
  pub mul : F → F → F
  pub round : F → F
  pub to_int : F → ℤ

-- What a flag that holds an integer other than zero gives: nothing where it is empty, an error where
-- it is no integer or zero.
pub data FlagValue : Type 0 where
  missing illegal : FlagValue
  given : ℤ → FlagValue

unfoldable pub flag_value : Flags → String → FlagValue
unfolding atoi
flag_value flags name = if index flags name == "" then missing else elim (atoi (index flags name)) [
  | none ↦ illegal
  | some n ↦ if is_zero n then illegal else given n
]

abbrev pub max_int32 : ℤ
max_int32 = pos 2147483647

abbrev value_or : FlagValue → ℤ → ℤ
value_or (given n) d = n
value_or _ d = d

module _ (float : Float64) where
  open float use {of_int, div, mul, round, to_int}

  -- int(math.Round(float64(percent) / 100.0 * float64(n)))
  unfoldable pub percent_count : ℤ → ℕ → ℤ
  percent_count percent n =
      to_int (round (mul (div (of_int percent) (of_int (pos 100))) (of_int (pos n))))

  -- The three comparisons at the end.
  unfoldable pub clamp_count : ℤ → ℤ → ℕ → ℤ
  clamp_count count limit n =
      let least = if ltb_ℤ limit count then limit else count in
      if ltb_ℤ (pos n) least then pos n else least

  -- What follows the reading of the two flags, for at least one resource.
  unfoldable pub count_of : FlagValue → FlagValue → ℕ → ℤ × Response
  unfolding clamp_count
  count_of illegal percent n = (pos 0, response_fail parameter_illegal (resource_count_flag ∷ []))
  count_of count illegal n = (pos 0, response_fail parameter_illegal (resource_percent_flag ∷ []))
  count_of count percent n = (
    clamp_count (value_or count max_int32) (percent_count (value_or percent (pos 100)) n) n,
    response_success,
  )

  unfoldable pub get_resource_count : ℕ → Flags → ℤ × Response
  unfolding count_of
  get_resource_count zero flags = (pos 0, response_success)
  get_resource_count (suc n) flags =
      count_of (flag_value flags resource_count_flag) (flag_value flags resource_percent_flag)
        (suc n)

-- The documented behaviour of IEEE 754 arithmetic and of math.Round on the values in question.
pub record IsIeee (float : Float64) : Type 1 where
  pub ◌≤F◌ : float.F → float.F → Type 0
  pub div_mono :
      (a b : ℕ)
      → a ≤ b
      → ◌≤F◌
          (float.div (float.of_int (pos a)) (float.of_int (pos 100)))
          (float.div (float.of_int (pos b)) (float.of_int (pos 100)))
  pub mul_mono :
      (x y : float.F) (n : ℕ)
      → ◌≤F◌ x y
      → ◌≤F◌ (float.mul x (float.of_int (pos n))) (float.mul y (float.of_int (pos n)))
  pub round_mono : (x y : float.F) → ◌≤F◌ x y → ◌≤F◌ (float.round x) (float.round y)
  pub to_int_mono : (x y : float.F) → ◌≤F◌ x y → float.to_int x ≤ℤ float.to_int y
  pub zero_div : float.div (float.of_int (pos 0)) (float.of_int (pos 100)) ≡ float.of_int (pos 0)
  pub hundred_div :
      float.div (float.of_int (pos 100)) (float.of_int (pos 100)) ≡ float.of_int (pos 1)
  pub zero_mul :
      (n : ℕ) → float.mul (float.of_int (pos 0)) (float.of_int (pos n)) ≡ float.of_int (pos 0)
  pub one_mul :
      (n : ℕ) → float.mul (float.of_int (pos 1)) (float.of_int (pos n)) ≡ float.of_int (pos n)
  pub round_int : (n : ℕ) → float.round (float.of_int (pos n)) ≡ float.of_int (pos n)
  pub to_int_of_int : (n : ℕ) → n < 2 ^ 53 → float.to_int (float.of_int (pos n)) ≡ pos n

module _ (float : Float64) where
  -- At most all resources are counted, whatever the flags, and a failure counts none.
  pub count_bounded :
      (n : ℕ) (flags : Flags)
      → ((get_resource_count float n flags).0 ≤ℤ pos n)
        × ((get_resource_count float n flags).1.success ≡ false
            → (get_resource_count float n flags).0 ≡ pos 0)
  unfolding get_resource_count
  count_bounded zero flags = ground arith
  count_bounded (suc n) flags = ground arith

  -- With resources the function fails exactly if the count flag or the percentage flag is given and
  -- is not an integer, or is zero.
  pub count_fails_iff :
      (n : ℕ) (flags : Flags)
      → 0 < n
      → ((get_resource_count float n flags).1.success ≡ false) ↔ (
          (flag_value flags resource_count_flag ≡ illegal)
          ⊎ (flag_value flags resource_percent_flag ≡ illegal))
  unfolding get_resource_count
  count_fails_iff zero flags h = elim h [ ]
  count_fails_iff (suc n) flags h = (λ e. ground arith, λ e. ground arith)

  module _ (ieee : IsIeee float) where
    percent_count-hundred : (n : ℕ) → n < 2 ^ 53 → percent_count float (pos 100) n ≡ pos n
    unfolding percent_count
    percent_count-hundred n h =
        rw (
          ieee.hundred_div,
          ieee.one_mul n,
          ieee.round_int n,
          ieee.to_int_of_int n h,
          percent_count,
        )

    percent_count-zero : (n : ℕ) → percent_count float (pos 0) n ≡ pos 0
    unfolding percent_count
    percent_count-zero n = rw (
      ieee.zero_div,
      ieee.zero_mul n,
      ieee.round_int 0,
      ieee.to_int_of_int 0 (omega arith),
      percent_count,
    )

    percent_count_mono :
        (p r n : ℕ) → p ≤ r → percent_count float (pos p) n ≤ℤ percent_count float (pos r) n
    unfolding percent_count
    percent_count_mono p r n h =
        ieee.to_int_mono _ _ (ieee.round_mono _ _ (ieee.mul_mono _ _ n (ieee.div_mono p r h)))

    -- For fewer than 2^53 resources, with floats as `IsIeee` describes them: with a positive
    -- count and no percentage the result is the smaller of the count and the resources, with
    -- success.
    pub count_min :
        (n c : ℕ) (flags : Flags)
        → n < 2 ^ 53
        → flag_value flags resource_count_flag ≡ given (pos c)
        → flag_value flags resource_percent_flag ≡ missing
        → get_resource_count float n flags ≡ (pos (min c n), response_success)
    unfolding get_resource_count
    count_min zero c flags small count percent = ground arith
    count_min (suc n) c flags small count percent =
        rw (count, percent, count_of) (rw (percent_count-hundred (suc n) small) (ground arith))

    -- Flags that hold no negative number give a count from 0 to the number of resources, and with
    -- percentages in order the counts are in order.
    pub count_mono :
        (n c p r : ℕ)
        → p ≤ r
        → (pos 0 ≤ℤ (count_of float (given (pos c)) (given (pos p)) n).0)
          × ((count_of float (given (pos c)) (given (pos p)) n).0
              ≤ℤ (count_of float (given (pos c)) (given (pos r)) n).0)
    unfolding count_of
    count_mono n c p r h = ground (
      arith,
      percent_count_mono p r n h,
      percent_count_mono 0 p n (omega arith),
      percent_count-zero n,
    )
