-- ===== src/Version.antt =====
-- version/version.go: the version and product that the linker sets, and whether the version of the
-- tool has the cri command.
mod Tests
use Prim.Native.Char.{Char, code}
use Prim.Native.String.{[] as nil, ◌∷◌ as ◌⊳◌}
use text.Mathlib.TextLemmas.{nil-append, cons-append}
use chaosblade_operator.Base.{
  ℕ, suc, ◌+◌, String, ◌⧺◌, ◌==◌, ◌≡◌, ◌↔◌, ◌⊎◌, inl, inr, refl, sym, ap, Bool, Bool-cases, true,
  false, Option, none, some, List, [], ◌∷◌, arith, beq, if◌then◌else◌, length, Lacks, split,
  split-Lacks, comma, ℤ, pos, negsuc, pos_part, neg_part, ltb_ℤ, atoi, ◌≤ℤ◌,
}

pub record Versions : Type 0 where
  pub version : String
  pub product : String

-- The function init, with the combined version.
unfoldable pub init : String → Versions → Versions
unfolding split
init combined v = if combined == "" then v else elim (split comma combined) [
  | [] ↦ v
  | a ∷ rest ↦ elim rest [
    | [] ↦ record v { version = a }
    | b ∷ more ↦ record { version = a; product = b }
  ]
]

abbrev pub dot : ℕ
dot = b'.'

abbrev cri_version : String
cri_version = "1.5.0"

abbrev eq_ℤ : ℤ → ℤ → Bool
eq_ℤ a b = beq (pos_part a + neg_part b) (pos_part b + neg_part a)

abbrev or_zero : Option ℤ → ℤ
or_zero none = pos 0
or_zero (some n) = n

-- The loop over the parts. Both versions have three, so the first does not outlast the second.
unfoldable pub compare : List String → List String → Bool
unfolding atoi
compare [] cs = true
compare (v ∷ vs) [] = false
compare (v ∷ vs) (c ∷ cs) =
    let rest = compare vs cs in
    let ci = or_zero (atoi c) in
    elim (atoi v) [
      | none ↦ false
      | some vi ↦ if eq_ℤ ci vi then rest else if ltb_ℤ vi ci then false else true
    ]

abbrev cri_parts : List String
cri_parts = "1" ∷ "5" ∷ "0" ∷ []

cri_parts_lem : split dot cri_version ≡ cri_parts
unfolding split
cri_parts_lem = refl

-- CheckVerisonHaveCriCommand.
unfoldable pub check_version_have_cri_command : String → Bool
unfolding compare split
check_version_have_cri_command version =
    let parts = split dot version in
    if beq (length parts) 3 then compare parts (split dot cri_version) else false

split-append :
    (sep : ℕ) (a : String) (d : Char) (b : String)
    → Lacks sep a
    → code d ≡ sep
    → split sep (a ⧺ (d ⊳ b)) ≡ a ∷ split sep b
unfolding split
split-append sep nil d b h e = rw nil-append (ground arith)
split-append sep (c ⊳ a) d b h e = rw cons-append (ground (arith, split-append sep a d b h.1 e))

split-dot : (a b : String) → Lacks dot a → split dot (a ⧺ ("." ⧺ b)) ≡ a ∷ split dot b
split-dot a b h = rw cons-append (rw nil-append (split-append dot a "." b h refl))

-- The order of versions, by their first difference.
abbrev pub IsSince : ℤ → ℤ → ℤ → Type 0
IsSince a b c = (pos 2 ≤ℤ a) ⊎ ((a ≡ pos 1) × ((pos 6 ≤ℤ b) ⊎ ((b ≡ pos 5) × (pos 0 ≤ℤ c))))

-- The decisions on the three numbers.
abbrev decided : ℤ → ℤ → Bool → Bool
decided c v rest = if eq_ℤ c v then rest else if ltb_ℤ v c then false else true

decided_iff :
    (n : ℕ) (v : ℤ) (rest : Bool)
    → (decided (pos n) v rest ≡ true) ↔ ((pos (suc n) ≤ℤ v) ⊎ ((v ≡ pos n) × (rest ≡ true)))
decided_iff n (pos m) rest = elim (Bool-cases (beq n m)) [
  | inl same ↦
      let e : n ≡ m = ground arith in (λ t. inr (ap pos (sym e), ground arith), λ h. ground arith)
  | inr differ ↦ (
    λ t. ground arith,
    λ h. elim h [
      | inl above ↦ ground arith
      | inr (e, t) ↦ let e' : m ≡ n = ap pos_part e in ground arith
    ],
  )
]
decided_iff n (negsuc m) rest = (
  λ t. ground arith,
  λ h. elim h [
    | inl above ↦ absurd (omega arith)
    | inr (e, t) ↦ let e' : suc m ≡ 0 = ap neg_part e in absurd (omega arith)
  ],
)

last_iff : (c : ℤ) → (decided (pos 0) c true ≡ true) ↔ (pos 0 ≤ℤ c)
last_iff (pos n) = (λ h. omega arith, λ h. ground arith)
last_iff (negsuc n) = (λ h. ground arith, λ h. absurd (omega arith))

compare_three :
    (x y z : String) (a b c : ℤ)
    → atoi x ≡ some a
    → atoi y ≡ some b
    → atoi z ≡ some c
    → compare (x ∷ y ∷ z ∷ []) ("1" ∷ "5" ∷ "0" ∷ [])
      ≡ decided (pos 1) a (decided (pos 5) b (decided (pos 0) c true))
unfolding compare
compare_three x y z a b c ea eb ec = rw (ea, eb, ec, compare) refl

decided_three_iff :
    (a b c : ℤ)
    → (decided (pos 1) a (decided (pos 5) b (decided (pos 0) c true)) ≡ true) ↔ IsSince a b c
decided_three_iff a b c =
    let (to1, from1) = decided_iff 1 a (decided (pos 5) b (decided (pos 0) c true)) in
    let (to2, from2) = decided_iff 5 b (decided (pos 0) c true) in
    let (to3, from3) = last_iff c in
    (
      λ t. elim (to1 t) [
        | inl above ↦ inl above
        | inr (e, t') ↦
            inr (e, elim (to2 t') [ inl above ↦ inl above | inr (e', t'') ↦ inr (e', to3 t'') ])
      ],
      λ h. elim h [
        | inl above ↦ from1 (inl above)
        | inr (e, inl above) ↦ from1 (inr (e, from2 (inl above)))
        | inr (e, inr (e', last)) ↦ from1 (inr (e, from2 (inr (e', from3 last))))
      ],
    )

-- Of a version with three numbers: it has the cri command exactly if it is 1.5.0 or a later one in the
-- order of versions.
pub check_version_have_cri_command_iff :
    (x y z : String) (a b c : ℤ)
    → Lacks dot x
    → Lacks dot y
    → Lacks dot z
    → atoi x ≡ some a
    → atoi y ≡ some b
    → atoi z ≡ some c
    → (check_version_have_cri_command (x ⧺ ("." ⧺ (y ⧺ ("." ⧺ z)))) ≡ true) ↔ IsSince a b c
unfolding check_version_have_cri_command
check_version_have_cri_command_iff x y z a b c lx ly lz ea eb ec =
    rw
      (
        split-dot x (y ⧺ ("." ⧺ z)) lx,
        split-dot y z ly,
        split-Lacks dot z lz,
        cri_parts_lem,
        compare_three x y z a b c ea eb ec,
      )
      (decided_three_iff a b c)
