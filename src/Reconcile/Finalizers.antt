-- ===== src/Reconcile/Finalizers.antt =====
-- What `contains` and `remove` of controller.go do to a list of finalizers.
use native.Mathlib.Nat.{zero-add, add-zero, suc-add}
use text.Mathlib.TextPositions.{eq_refl}
use chaosblade_operator.Base.{
  ℕ, zero, suc, ◌+◌, ◌-◌, String, ◌==◌, ◌≡◌, refl, sym, ap, ap₂, ◌∙◌, true, false, List, [], ◌∷◌,
  ◌++◌, some, append-nil, arith, length, get_elem?, take, drop, ltb, length-append, length-drop,
  drop-append, drop-length, take-length, take_all, take-append, get_elem?-drop, if◌then◌else◌,
}
use chaosblade_operator.Api.{returns, panics}
use chaosblade_operator.Reconcile.Defs.{contains, shift_left, remove_loop, remove}

pub contains-append :
    (xs ys : List String) (s : String)
    → contains (xs ++ ys) s ≡ (if contains xs s then true else contains ys s)
unfolding contains
contains-append [] ys s = refl
contains-append (x ∷ xs) ys s = ground (arith, contains-append xs ys s)

contains-drop :
    (n : ℕ) (xs : List String) (s : String) → contains xs s ≡ false → contains (drop n xs) s ≡ false
unfolding contains
contains-drop zero xs s h = h
contains-drop (suc n) [] s h = h
contains-drop (suc n) (x ∷ xs) s h = contains-drop n xs s (ground arith)

module _ (s : String) (r i : ℕ) (arr : List String) (len : ℕ) where
  step_ne :
      {v : String}
      → get_elem? arr i ≡ some v
      → (v == s) ≡ false
      → remove_loop s (suc r) i arr len ≡ remove_loop s r (i + 1) arr len
  unfolding remove_loop
  step_ne at ne = rw (at, ne, remove_loop)

  step_eq :
      get_elem? arr i ≡ some s
      → ltb len (i + 1) ≡ false
      → remove_loop s (suc r) i arr len ≡ remove_loop s r (i + 1) (shift_left i arr len) (len - 1)
  unfolding remove_loop
  step_eq at in_range = rw (at, eq_refl s, in_range, remove_loop)

  step_panics :
      get_elem? arr i ≡ some s → ltb len (i + 1) ≡ true → remove_loop s (suc r) i arr len ≡ panics
  unfolding remove_loop
  step_panics at past = rw (at, eq_refl s, past, remove_loop)

module _ (s : String) where
  -- The loop passes over entries that differ from `s`.
  loop_passes :
      (pre rest : List String) (r i : ℕ) (arr : List String) (len : ℕ)
      → drop i arr ≡ pre ++ rest
      → contains pre s ≡ false
      → remove_loop s (length pre + r) i arr len ≡ remove_loop s r (i + length pre) arr len
  unfolding contains remove_loop
  loop_passes [] rest r i arr len e h = rw (zero-add, add-zero)
  loop_passes (x ∷ pre) rest r i arr len e h =
      let (at, next) = get_elem?-drop i arr e in
      rw suc-add (
        step_ne s (length pre + r) i arr len at (ground arith)
        ∙ loop_passes pre rest r (i + 1) arr len next (ground arith)
        ∙ ap (λ k. remove_loop s r k arr len) (omega arith))

  -- A list without `s` is left as it is.
  loop_absent :
      (rest : List String) (i : ℕ) (arr : List String) (len : ℕ)
      → drop i arr ≡ rest
      → contains rest s ≡ false
      → remove_loop s (length rest) i arr len ≡ returns (take len arr)
  unfolding remove_loop
  loop_absent rest i arr len e h =
      rw (← add-zero (length rest)) (loop_passes rest [] 0 i arr len (e ∙ sym (append-nil rest)) h)

  -- The array once the loop has met `s` behind `pre`.
  abbrev shifted : List String → List String → List String
  shifted pre post = pre ++ (post ++ drop (length post) (s ∷ post))

  shift_left-eq-shifted :
      (pre post : List String)
      → shift_left (length pre) (pre ++ (s ∷ post)) (length (pre ++ (s ∷ post))) ≡ shifted pre post
  shift_left-eq-shifted pre post =
      rw (take-length, drop-append, length-append)
        (ap (λ l. pre ++ l) (ap₂ ◌++◌ (middle ∙ take_all post) last))
    where
      middle :
          take (length pre + suc (length post) - (length pre + 1)) post ≡ take (length post) post
      middle = ap (λ k. take k post) (omega arith)

      last :
          drop (length pre + suc (length post) - 1) (pre ++ s ∷ post)
          ≡ drop (length post) (s ∷ post)
      last =
          ap (λ k. drop k (pre ++ s ∷ post)) (omega arith)
          ∙ drop-append pre (s ∷ post) (length post)

  -- What the array holds behind `pre` and the first entry of `p ∷ ps` then.
  abbrev tail : String → List String → List String
  tail p ps = ps ++ drop (length ps) (p ∷ ps)

  tail_absent :
      (p : String) (ps : List String) → contains (p ∷ ps) s ≡ false → contains (tail p ps) s ≡ false
  unfolding contains
  tail_absent p ps h = ground (
    arith,
    contains-append ps (drop (length ps) (p ∷ ps)) s,
    contains-drop (length ps) (p ∷ ps) s,
  )

  -- After the match the loop ends with the two sides joined.
  loop_rest :
      (pre post : List String)
      → contains post s ≡ false
      → remove_loop s (length post) (length pre + 1) (shifted pre post) (length pre + length post)
        ≡ returns (pre ++ post)
  unfolding remove_loop
  loop_rest pre [] h = rw (add-zero, take-length, append-nil)
  loop_rest pre (p ∷ ps) h =
      ap (λ n. remove_loop s n (length pre + 1) arr (length pre + suc (length ps))) count
      ∙ loop_absent (tail p ps) (length pre + 1) arr (length pre + suc (length ps))
          (drop-append pre (p ∷ tail p ps) 1) (tail_absent p ps h)
      ∙ ap returns (
          take-append pre (p ∷ tail p ps) (suc (length ps))
          ∙ ap (λ l. pre ++ (p ∷ l)) (take-length ps (drop (length ps) (p ∷ ps))))
    where
      arr : List String
      arr = shifted pre (p ∷ ps)

      count : suc (length ps) ≡ length (tail p ps)
      count =
          omega
            (arith, length-append ps (drop (length ps) (p ∷ ps)), length-drop (length ps) (p ∷ ps))

  pub remove_absent : (list : List String) → contains list s ≡ false → remove list s ≡ returns list
  unfolding remove
  remove_absent list h = loop_absent list 0 list (length list) refl h ∙ ap returns (take_all list)

  at_match : (pre post : List String) → get_elem? (pre ++ s ∷ post) (length pre) ≡ some s
  at_match pre post = (get_elem?-drop (length pre) (pre ++ s ∷ post) (drop-length pre (s ∷ post))).0

  -- The loop up to the first match.
  to_match :
      (pre post : List String)
      → contains pre s ≡ false
      → remove (pre ++ s ∷ post) s
        ≡ remove_loop s (length post) (length pre + 1) (shifted pre post) (length pre + length post)
  unfolding remove
  to_match pre post h = rw length-append (
      loop_passes pre (s ∷ post) (suc (length post)) 0 arr len refl h
      ∙ rw zero-add (
          step_eq s (length post) (length pre) arr len (at_match pre post) (ground arith)
          ∙ ap₂ (remove_loop s (length post) (length pre + 1))
              (rw length-append at (shift_left-eq-shifted pre post)) (omega arith)))
    where
      arr : List String
      arr = pre ++ s ∷ post

      len : ℕ
      len = length pre + suc (length post)

  -- `remove` takes out a finalizer that stands once in the list and keeps the others in order.
  pub remove_once :
      (pre post : List String)
      → contains pre s ≡ false
      → contains post s ≡ false
      → remove (pre ++ s ∷ post) s ≡ returns (pre ++ post)
  remove_once pre post h k = to_match pre post h ∙ loop_rest pre post k

  -- A list that ends in the finalizer twice, and has it nowhere else, makes `remove` panic: the
  -- second match slices past the end of the list that the first one shortened.
  pub remove_twice_panics :
      (pre : List String) → contains pre s ≡ false → remove (pre ++ s ∷ s ∷ []) s ≡ panics
  remove_twice_panics pre h =
      to_match pre (s ∷ []) h
      ∙ step_panics s 0 (length pre + 1) (shifted pre (s ∷ [])) (length pre + 1) second
          (ground arith)
    where
      second : get_elem? (shifted pre (s ∷ [])) (length pre + 1) ≡ some s
      second =
          (get_elem?-drop (length pre + 1) (shifted pre (s ∷ []))
            (drop-append pre (s ∷ s ∷ []) 1)).0
