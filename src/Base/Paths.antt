-- ===== src/Base/Paths.antt =====
-- Go's package path, as far as the program uses it: Clean, Join, Dir and Base.
use mathlib.Core.Bool.{Bool, ◌||◌}
use mathlib.Core.List.{List, [], ◌∷◌}
use mathlib.Core.Path.{◌≡◌, refl}
use chaosblade_operator.Base.Tests.{if◌then◌else◌}
use chaosblade_operator.Base.Text.{String, ◌⧺◌, ◌==◌, split, join, has_prefix, slash}

-- path.Clean at a part "..".
unfoldable pub leave : Bool → List String → List String
leave rooted [] = if rooted then [] else ".." ∷ []
leave rooted (top ∷ below) = if top == ".." then ".." ∷ top ∷ below else below

-- path.Clean on the parts between slashes; `stack` holds what is kept, the last part first.
unfoldable pub clean_parts : Bool → List String → List String → List String
unfolding leave
clean_parts rooted stack [] = stack
clean_parts rooted stack (p ∷ ps) =
    clean_parts rooted
      (if p == "" || p == "." then stack else if p == ".." then leave rooted stack else p ∷ stack)
      ps

abbrev reversed : List String → List String → List String
reversed acc [] = acc
reversed acc (p ∷ ps) = reversed (p ∷ acc) ps

unfoldable pub clean : String → String
unfolding clean_parts split join has_prefix
clean s =
    let rooted = has_prefix s "/" in
    let out = join "/" (reversed [] (clean_parts rooted [] (split slash s))) in
    if rooted then "/" ⧺ out else if out == "" then "." else out

-- path.Join of two elements.
unfoldable pub path_join : String → String → String
unfolding clean
path_join a b =
    if a == ""
    then (if b == "" then "" else clean b)
    else if b == ""
    then clean a
    else clean (a ⧺ ("/" ⧺ b))

abbrev last_part : List String → String → String
last_part [] found = found
last_part (p ∷ ps) found = last_part ps (if p == "" then found else p)

-- path.Base: the last part that is not empty.
unfoldable pub path_base : String → String
unfolding split has_prefix
path_base s =
    let found = last_part (split slash s) "" in
    if found == "" then (if s == "" then "." else "/") else found

abbrev up_to_last : List String → List String
up_to_last [] = []
up_to_last (p ∷ []) = []
up_to_last (p ∷ q ∷ ps) = p ∷ up_to_last (q ∷ ps)

-- path.Dir: what stands before the last slash, cleaned.
unfoldable pub path_dir : String → String
unfolding clean split join
path_dir s =
    let dir = join "/" (up_to_last (split slash s)) in
    clean (if has_prefix s "/" then (if dir == "" then "/" else dir) else dir)

paths_examples :
    (path_join "/data" "x/../y" ≡ "/data/y")
    × (path_join "/data/" "" ≡ "/data")
    × (path_base "/home/data/" ≡ "data")
    × (path_dir "/home/data" ≡ "/home")
    × (path_dir "/data" ≡ "/")
    × (path_dir "data" ≡ ".")
unfolding path_join path_base path_dir
paths_examples = (refl, refl, refl, refl, refl, refl)
