-- ===== src/Deploy/WalkTests.antt =====
-- A directory with a file, a link and an empty directory, and the theorem there.
use chaosblade_operator.Base.{
  path_join, String, ◌⧺◌, ◌==◌, ◌≡◌, refl, ◌⊎◌, inl, ◌||◌, none, some, List, [], ◌∷◌, if◌then◌else◌,
  arith, path_dir, path_base, clean,
}
use chaosblade_operator.Deploy.Tar.{directory, symlink, other, Disk, Writer, make_tar, finished}
use chaosblade_operator.Deploy.Trees.{
  Node, file, link, folder, end, entry, names, depth, items, IsAt, write_all,
}
use chaosblade_operator.Deploy.Walk.{make_tar-items}

abbrev is_known : String → List String → List String ⊎ String
is_known path [] = inl []
is_known path (k ∷ ks) = if k == path then inl (path ∷ []) else is_known path ks

-- The name of a file that does not exist matches nothing.
abbrev library : Disk
library = record {
  glob = λ path. is_known path ("/o/lib" ∷ "/o/lib/a" ∷ "/o/lib/b" ∷ "/o/lib/d" ∷ []);
  lstat = λ path.
      if path == "/o/lib" || path == "/o/lib/d"
      then inl directory
      else if path == "/o/lib/b"
      then inl symlink
      else inl other;
  read_dir = λ path. if path == "/o/lib" then inl ("a" ∷ "b" ∷ "d" ∷ []) else inl [];
  read_link = λ path. inl "a";
  header_error = λ path. none;
  open_file = λ path. inl "data";
  close_file = λ path. none;
}

abbrev archive : Writer (List String)
archive = record {
  write_header = λ h w. (none, (h.name ⧺ (":" ⧺ h.linkname)) ∷ w);
  copy = λ content w. (none, content ∷ w);
  finish = λ w. "end" ∷ w;
}

abbrev tree : Node
tree = folder (entry "a" (file "data") (entry "b" (link "a") (entry "d" (folder end) end)))

tree_written :
    make_tar library archive 2 "/o/lib/" "/t/lib2" []
    ≡ some (none, "end" ∷ "lib2/d:" ∷ "lib2/b:a" ∷ "data" ∷ "lib2/a:" ∷ [])
unfolding make_tar
tree_written = refl

-- A source that is missing is not an error: the archive is empty.
missing_written : make_tar library archive 1 "/o/none" "/t/none" [] ≡ some (none, "end" ∷ [])
unfolding make_tar
missing_written = refl

make_tar-items_example :
    make_tar library archive 2 "/o/lib/" "/t/lib2" []
    ≡ finished library archive (
        write_all archive
          (items
            (path_dir (clean "/o/lib/"))
            (path_base (clean "/o/lib/"))
            (path_base (clean "/t/lib2"))
            tree)
          [])
unfolding IsAt depth names path_dir path_base path_join clean
make_tar-items_example =
    make_tar-items archive library 2 "/o/lib/" "/t/lib2" tree []
      (
        refl,
        refl,
        refl,
        ((refl, refl, refl, refl, refl), ((refl, refl, refl), ((refl, refl, refl, tt), tt))),
      )
      (omega arith)
