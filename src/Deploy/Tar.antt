-- ===== src/Deploy/Tar.antt =====
-- makeTar and recursiveTar of exec/model/copy.go. The operator's disk and the tar writer are parameters;
-- the directory of the destination, which is only logged, is left out.
use chaosblade_operator.Base.{
  ℕ, zero, suc, String, ◌⊎◌, inl, inr, Option, none, some, List, [], ◌∷◌, clean, path_join,
  path_dir, path_base,
}

pub data Kind : Type 0 where
  directory : Kind
  symlink : Kind
  other : Kind

-- What the walk asks of the disk, by path; `inr` is an error.
pub record Disk : Type 0 where
  pub glob : String → List String ⊎ String
  pub lstat : String → Kind ⊎ String
  pub read_dir : String → List String ⊎ String
  pub read_link : String → String ⊎ String
  -- FileInfoHeader refuses sockets.
  pub header_error : String → Option String
  pub open_file : String → String ⊎ String
  pub close_file : String → Option String

-- A header for the file at `path`, with the fields that the code sets.
pub record Header : Type 0 where
  pub path : String
  pub name : String
  pub linkname : String

-- WriteHeader, io.Copy and Close of the tar writer.
pub record Writer (W : Type 0) : Type 0 where
  pub write_header : Header → W → Option String × W
  pub copy : String → W → Option String × W
  pub finish : W → W

-- The outcome of a walk: an error and the archive, or `none` where the bound on the depth is too small.
abbrev pub Walked : Type 0 → Type 0
Walked W = Option (Option String × W)

-- What follows, unless there was an error.
unfoldable pub and_then : {W : Type 0} → Walked W → (W → Walked W) → Walked W
and_then none k = none
and_then (some (some e, w)) k = some (some e, w)
and_then (some (none, w)) k = k w

module _ (disk : Disk) {W : Type 0} (writer : Writer W) where
  abbrev pub after_copy : String → Option String × W → Option String × W
  after_copy path (some e, w) = (some e, w)
  after_copy path (none, w) = (disk.close_file path, w)

  abbrev pub after_header : String → Option String × W → Option String × W
  after_header path (some e, w) = (some e, w)
  after_header path (none, w) = elim (disk.open_file path) [
    | inr e ↦ (some e, w)
    | inl content ↦ after_copy path (writer.copy content w)
  ]

  -- A regular file, or one of another kind like a pipe.
  unfoldable pub tar_other : String → String → W → Option String × W
  tar_other path dest w = elim (disk.header_error path) [
    | some e ↦ (some e, w)
    | none ↦
        after_header path
          (writer.write_header (record { path = path; name = dest; linkname = "" }) w)
  ]

  unfoldable pub tar_link : String → String → W → Option String × W
  tar_link path dest w = elim (disk.read_link path) [
    | inr e ↦ (some e, w)
    | inl target ↦ writer.write_header (record { path = path; name = dest; linkname = target }) w
  ]

  -- The files of a directory; `walk` is recursiveTar for a source and a destination.
  unfoldable pub tar_children :
      (String → String → W → Walked W) → String → String → List String → W → Walked W
  unfolding and_then path_join
  tar_children walk src dest [] w = some (none, w)
  tar_children walk src dest (f ∷ fs) w =
      and_then (walk (path_join src f) (path_join dest f) w) (λ v. tar_children walk src dest fs v)

  abbrev pub tar_listed :
      (String → String → W → Walked W) → String → String → String → List String → W → Walked W
  tar_listed walk path src dest [] w =
      some (writer.write_header (record { path = path; name = dest; linkname = "" }) w)
  tar_listed walk path src dest (f ∷ fs) w = tar_children walk src dest (f ∷ fs) w

  unfoldable pub tar_directory :
      (String → String → W → Walked W) → String → String → String → W → Walked W
  unfolding tar_children
  tar_directory walk path src dest w = elim (disk.read_dir path) [
    | inr e ↦ some (some e, w)
    | inl files ↦ tar_listed walk path src dest files w
  ]

  -- The matches of the source: the loop goes on behind a link only.
  unfoldable pub tar_matched :
      (String → String → W → Walked W) → String → String → List String → W → Walked W
  unfolding and_then tar_directory tar_link tar_other
  tar_matched walk src dest [] w = some (none, w)
  tar_matched walk src dest (p ∷ ps) w = elim (disk.lstat p) [
    | inr e ↦ some (some e, w)
    | inl directory ↦ tar_directory walk p src dest w
    | inl symlink ↦ and_then (some (tar_link p dest w)) (λ v. tar_matched walk src dest ps v)
    | inl other ↦ some (tar_other p dest w)
  ]

  abbrev pub tar_globbed :
      (String → String → W → Walked W) → String → String → List String ⊎ String → W → Walked W
  tar_globbed walk src dest (inr e) w = some (some e, w)
  tar_globbed walk src dest (inl paths) w = tar_matched walk src dest paths w

  -- recursiveTar; the first argument bounds the depth.
  unfoldable pub recursive_tar : ℕ → String → String → String → W → Walked W
  unfolding tar_matched path_join
  recursive_tar zero base src dest w = none
  recursive_tar (suc n) base src dest w =
      tar_globbed (λ s d v. recursive_tar n base s d v) src dest (disk.glob (path_join base src)) w

  abbrev pub finished : Walked W → Walked W
  finished none = none
  finished (some (e, w)) = some (e, writer.finish w)

  -- The error of Close is dropped by the `defer`.
  unfoldable pub make_tar : ℕ → String → String → W → Walked W
  unfolding recursive_tar clean path_dir path_base
  make_tar n src dest w =
      finished
        (recursive_tar n (path_dir (clean src)) (path_base (clean src)) (path_base (clean dest)) w)
