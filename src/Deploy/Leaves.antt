-- ===== src/Deploy/Leaves.antt =====
-- What the parts of a deployment leave in a container, by what its three operations do.
use chaosblade_operator.Base.{
  String, ◌≡◌, refl, ap, Bool, true, false, Option, none, some, List, [], ◌∷◌, ◌++◌, map, All,
  path_join,
}
use chaosblade_operator.Api.{Response}
use chaosblade_operator.Deploy.Defs.{operator_blade, operator_yaml, operator_bin}
use chaosblade_operator.Deploy.Blade.{
  Target, program_file, operator_program_file, ensure, ensure_dir, ensure_programs, deploy_files,
  replied, unless_there, made, and_then, program_failed,
}

-- What the three operations do to the files of a container. A file that is put stands there if the
-- archive that is made of it holds it (`supplied`).
pub record IsContainer {W : Type 0} (target : Target W) (holds : W → String → Bool)
    (supplied : String → String → Type 0) : Type 0 where
  pub still : (f : String) (w : W) → (target.exists f w).1 ≡ w
  pub truthful : (f : String) (w : W) → (target.exists f w).0 ≡ none → holds w f ≡ true
  pub sees : (f : String) (w : W) → holds w f ≡ true → (target.exists f w).0 ≡ none
  pub puts :
      (s d : String) (w : W)
      → supplied s d
      → (target.put s d w).0 ≡ none
      → holds (target.put s d w).1 d ≡ true
  pub put_keeps : (s d f : String) (w : W) → holds w f ≡ true → holds (target.put s d w).1 f ≡ true
  pub makes :
      (d : String) (w : W) → (target.make_dir d w).0 ≡ none → holds (target.make_dir d w).1 d ≡ true
  pub make_dir_keeps :
      (d f : String) (w : W) → holds w f ≡ true → holds (target.make_dir d w).1 f ≡ true

-- The files that a deployment is to leave.
abbrev pub required : String → List String → List String
required path programs =
    path_join path "bin"
    ∷ path_join path "blade"
    ∷ path_join path "yaml"
    ∷ path_join (path_join path "bin") "chaos_os"
    ∷ map (program_file path) programs

-- The archives that are made of the operator's files hold them.
abbrev pub AreSupplied : (String → String → Type 0) → String → List String → Type 0
AreSupplied supplied path programs =
    supplied operator_blade (path_join path "blade")
    × supplied operator_yaml (path_join path "yaml")
    × supplied (path_join operator_bin "chaos_os") (path_join (path_join path "bin") "chaos_os")
    × All (λ p. supplied (operator_program_file p) (program_file path p)) programs

module _ {W : Type 0} (target : Target W) (holds : W → String → Bool)
    (supplied : String → String → Type 0) (container : IsContainer target holds supplied) where
  open container use {still, truthful, sees, puts, put_keeps, makes, make_dir_keeps}

  abbrev pub HasAll : W → List String → Type 0
  HasAll w fs = All (λ f. holds w f ≡ true) fs

  abbrev pub Keeps : W → W → Type 0
  Keeps w w' = (f : String) → holds w f ≡ true → holds w' f ≡ true

  HasAll-Keeps : (w w' : W) → Keeps w w' → (fs : List String) → HasAll w fs → HasAll w' fs
  HasAll-Keeps w w' keep [] h = tt
  HasAll-Keeps w w' keep (f ∷ fs) h = (keep f h.0, HasAll-Keeps w w' keep fs h.1)

  HasAll-append : (w : W) (fs gs : List String) → HasAll w fs → HasAll w gs → HasAll w (fs ++ gs)
  HasAll-append w [] gs h k = k
  HasAll-append w (f ∷ fs) gs h k = (h.0, HasAll-append w fs gs h.1 k)

  abbrev pub IsRefusal : Option Response → Type 0
  IsRefusal none = Unit
  IsRefusal (some r) = r.success ≡ false

  -- A part of the deployment takes no file away, and where it does not fail the files are there;
  -- where it does, the response says so.
  abbrev pub Leaves : W → Option Response × W → List String → Type 0
  Leaves w r fs = Keeps w r.1 × (r.0 ≡ none → HasAll r.1 fs) × IsRefusal r.0

  Leaves-and_then :
      (override : Bool) (w : W) (r : Option Response × W) (more : W → Option Response × W)
      (fs gs : List String)
      → Leaves w r fs
      → ((v : W) → Leaves v (more v) gs)
      → Leaves w (and_then target override r more) (fs ++ gs)
  Leaves-and_then override w (some x, v) more fs gs (h, there, refusal) k =
      (h, λ e. absurd (cc), refusal)
  Leaves-and_then override w (none, v) more fs gs (h, there, refusal) k =
      let (keep, has, refused) = k v in
      (
        λ f p. keep f (h f p),
        λ e.
            HasAll-append (more v).1 fs gs (HasAll-Keeps v (more v).1 keep fs (there refl)) (has e),
        refused,
      )

  Leaves-replied :
      (override : Bool) (fail : String → Response) (w : W) (p : Option String × W)
      (fs : List String)
      → Keeps w p.1
      → (p.0 ≡ none → HasAll p.1 fs)
      → ((e : String) → (fail e).success ≡ false)
      → Leaves w (replied target override fail p) fs
  Leaves-replied override fail w (none, v) fs h k refusal = (h, λ e. k refl, tt)
  Leaves-replied override fail w (some x, v) fs h k refusal = (h, λ e. absurd (cc), refusal x)

  Leaves-put :
      (override : Bool) (fail : String → Response) (src dest : String) (w : W)
      → supplied src dest
      → ((e : String) → (fail e).success ≡ false)
      → Leaves w (replied target override fail (target.put src dest w)) (dest ∷ [])
  Leaves-put override fail src dest w has refusal =
      Leaves-replied override fail w (target.put src dest w) (dest ∷ [])
        (λ f h. put_keeps src dest f w h) (λ e. (puts src dest w has e, tt)) refusal

  Leaves-ensure :
      (override : Bool) (fail : String → Response) (src dest : String) (w : W)
      → supplied src dest
      → ((e : String) → (fail e).success ≡ false)
      → Leaves w (ensure target override fail src dest w) (dest ∷ [])
  unfolding ensure
  Leaves-ensure true fail src dest w has refusal = Leaves-put true fail src dest w has refusal
  Leaves-ensure false fail src dest w has refusal =
      found (target.exists dest w) (still dest w) (truthful dest w)
    where
      found :
          (p : Option String × W)
          → p.1 ≡ w
          → (p.0 ≡ none → holds w dest ≡ true)
          → Leaves w (unless_there target false fail src dest p) (dest ∷ [])
      found (none, v) same there = rw same ((λ f h. h), λ e. (there refl, tt), tt)
      found (some x, v) same there = rw same (Leaves-put false fail src dest w has refusal)

  Leaves-ensure_dir :
      (override : Bool) (dir : String) (w : W)
      → Leaves w (ensure_dir target override dir w) (dir ∷ [])
  unfolding ensure_dir
  Leaves-ensure_dir override dir w = checked (target.exists dir w) (still dir w) (truthful dir w)
    where
      checked :
          (p : Option String × W)
          → p.1 ≡ w
          → (p.0 ≡ none → holds w dir ≡ true)
          → Leaves w (made target override dir p) (dir ∷ [])
      checked (none, v) same there = rw same ((λ f h. h), λ e. (there refl, tt), tt)
      checked (some x, v) same there = rw same (
          Leaves-replied override _ w (target.make_dir dir w) (dir ∷ [])
            (λ f h. make_dir_keeps dir f w h) (λ e. (makes dir w e, tt)) (λ e. refl))

  Leaves-ensure_programs :
      (override : Bool) (path : String) (programs : List String) (w : W)
      → All (λ p. supplied (operator_program_file p) (program_file path p)) programs
      → Leaves w
          (ensure_programs target override path programs w)
          (map (program_file path) programs)
  unfolding ensure_programs
  Leaves-ensure_programs override path [] w has = ((λ f h. h), λ e. tt, tt)
  Leaves-ensure_programs override path (p ∷ ps) w (has, rest) =
      Leaves-and_then override w _ _ (program_file path p ∷ []) (map (program_file path) ps)
        (Leaves-ensure override (program_failed target override) (operator_program_file p)
          (program_file path p) w has (λ e. refl))
        (λ v. Leaves-ensure_programs override path ps v rest)

  pub Leaves-deploy_files :
      (override : Bool) (path : String) (programs : List String) (w : W)
      → AreSupplied supplied path programs
      → Leaves w (deploy_files target override path programs w) (required path programs)
  unfolding deploy_files
  Leaves-deploy_files override path programs w (has_blade, has_yaml, has_os, has_programs) =
      let rest = map (program_file path) programs in
      let os = path_join (path_join path "bin") "chaos_os" in
      let yaml = path_join path "yaml" in
      let blade = path_join path "blade" in
      Leaves-and_then override w _ _ (path_join path "bin" ∷ []) (blade ∷ yaml ∷ os ∷ rest)
        (Leaves-ensure_dir override _ w)
        (λ w1.
          Leaves-and_then override w1 _ _ (blade ∷ []) (yaml ∷ os ∷ rest)
            (Leaves-ensure override _ _ blade w1 has_blade (λ e. refl))
            (λ w2.
              Leaves-and_then override w2 _ _ (yaml ∷ []) (os ∷ rest)
                (Leaves-ensure override _ _ yaml w2 has_yaml (λ e. refl))
                (λ w3.
                  Leaves-and_then override w3 _ _ (os ∷ []) rest
                    (Leaves-ensure override _ _ os w3 has_os (λ e. refl))
                    (λ w4. Leaves-ensure_programs override path programs w4 has_programs))))

  -- Behind a complete deployment nothing is missing, so without force nothing is put.
  ensure_there :
      (fail : String → Response) (src dest : String) (w : W)
      → holds w dest ≡ true
      → ensure target false fail src dest w ≡ (none, w)
  unfolding ensure
  ensure_there fail src dest w there =
      seen (target.exists dest w) (sees dest w there) (still dest w)
    where
      seen :
          (p : Option String × W)
          → p.0 ≡ none
          → p.1 ≡ w
          → unless_there target false fail src dest p ≡ (none, w)
      seen (none, v) e same = ap (λ v. (none, v)) same
      seen (some x, v) e same = absurd (cc)

  ensure_programs_there :
      (path : String) (programs : List String) (w : W)
      → HasAll w (map (program_file path) programs)
      → ensure_programs target false path programs w ≡ (none, w)
  unfolding ensure_programs
  ensure_programs_there path [] w h = refl
  ensure_programs_there path (p ∷ ps) w h =
      rw
        (ensure_there (program_failed target false) (operator_program_file p) (program_file path p)
          w h.0)
        (ensure_programs_there path ps w h.1)

  ensure_dir_there :
      (dir : String) (w : W) → holds w dir ≡ true → ensure_dir target false dir w ≡ (none, w)
  unfolding ensure_dir
  ensure_dir_there dir w there = seen (target.exists dir w) (sees dir w there) (still dir w)
    where
      seen : (p : Option String × W) → p.0 ≡ none → p.1 ≡ w → made target false dir p ≡ (none, w)
      seen (none, v) e same = ap (λ v. (none, v)) same
      seen (some x, v) e same = absurd (cc)

  pub deploy_files_there :
      (path : String) (programs : List String) (w : W)
      → HasAll w (required path programs)
      → deploy_files target false path programs w ≡ (none, w)
  unfolding deploy_files
  deploy_files_there path programs w (bin, (blade, (yaml, (os, rest)))) =
      rw (ensure_dir_there _ w bin) (
        rw (ensure_there _ _ _ w blade) (
          rw (ensure_there _ _ _ w yaml)
            (rw (ensure_there _ _ _ w os) (ensure_programs_there path programs w rest))))
