-- ===== src/Deploy/Trees.antt =====
-- Finite trees of files: where they stand on a disk, and what an archive of one holds. It is what
-- recursiveTar of exec/model/copy.go is compared with.
use Prim.Native.Nat.{max}
use chaosblade_operator.Base.{
  ℕ, suc, String, ◌≡◌, inl, Option, none, some, List, [], ◌∷◌, ◌++◌, path_join,
}
use chaosblade_operator.Deploy.Tar.{
  directory, symlink, other, Disk, Header, Writer, Walked, and_then,
}

mutual
  pub data Node : Type 0 where
    file : String → Node
    link : String → Node
    folder : Entries → Node

  pub data Entries : Type 0 where
    end : Entries
    entry : String → Node → Entries → Entries

unfoldable pub names : Entries → List String
names end = []
names (entry k n es) = k ∷ names es

unfoldable mutual
  pub depth : Node → ℕ
  depth (file c) = 1
  depth (link t) = 1
  depth (folder es) = suc (depth_entries es)

  pub depth_entries : Entries → ℕ
  depth_entries end = 0
  depth_entries (entry k n es) = max (depth n) (depth_entries es)

-- What stands in an archive: a header, with the content of a file behind it.
pub record Item : Type 0 where
  pub header : Header
  pub content : Option String

abbrev pub item : String → String → String → Option String → Item
item path dest target content = record {
  header = record { path = path; name = dest; linkname = target };
  content = content;
}

module _ (base : String) where
  -- The items of a tree: one for each file, link and empty directory.
  unfoldable mutual
    pub items : String → String → Node → List Item
    items src dest (file c) = item (path_join base src) dest "" (some c) ∷ []
    items src dest (link t) = item (path_join base src) dest t none ∷ []
    items src dest (folder end) = item (path_join base src) dest "" none ∷ []
    items src dest (folder (entry k n es)) =
        items (path_join src k) (path_join dest k) n ++ items_below src dest es

    pub items_below : String → String → Entries → List Item
    items_below src dest end = []
    items_below src dest (entry k n es) =
        items (path_join src k) (path_join dest k) n ++ items_below src dest es

  -- The tree stands at a path, whose name is no pattern for other files.
  unfoldable mutual
    pub IsAt : Disk → String → Node → Type 0
    IsAt disk src (file c) =
        (disk.glob (path_join base src) ≡ inl (path_join base src ∷ []))
        × (disk.lstat (path_join base src) ≡ inl other)
        × (disk.header_error (path_join base src) ≡ none)
        × (disk.open_file (path_join base src) ≡ inl c)
        × (disk.close_file (path_join base src) ≡ none)
    IsAt disk src (link t) =
        (disk.glob (path_join base src) ≡ inl (path_join base src ∷ []))
        × (disk.lstat (path_join base src) ≡ inl symlink)
        × (disk.read_link (path_join base src) ≡ inl t)
    IsAt disk src (folder es) =
        (disk.glob (path_join base src) ≡ inl (path_join base src ∷ []))
        × (disk.lstat (path_join base src) ≡ inl directory)
        × (disk.read_dir (path_join base src) ≡ inl (names es))
        × AreAt disk src es

    pub AreAt : Disk → String → Entries → Type 0
    AreAt disk src end = Unit
    AreAt disk src (entry k n es) = IsAt disk (path_join src k) n × AreAt disk src es

module _ {W : Type 0} (writer : Writer W) where
  abbrev pub write_content : Option String → Option String × W → Option String × W
  write_content c (some e, w) = (some e, w)
  write_content none (none, w) = (none, w)
  write_content (some c) (none, w) = writer.copy c w

  unfoldable pub write_item : Item → W → Option String × W
  write_item i w = write_content i.content (writer.write_header i.header w)

  -- Items are written in order, up to the first error.
  unfoldable pub write_all : List Item → W → Walked W
  unfolding and_then write_item
  write_all [] w = some (none, w)
  write_all (i ∷ is) w = and_then (some (write_item i w)) (λ v. write_all is v)
