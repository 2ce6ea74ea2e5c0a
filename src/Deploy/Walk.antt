-- ===== src/Deploy/Walk.antt =====
-- What makeTar writes for a finite tree of files.
use chaosblade_operator.Base.{
  ℕ, zero, suc, ◌≤◌, String, ◌≡◌, refl, sym, ap, ◌∙◌, arith, inl, Option, none, some, List, [], ◌∷◌,
  ◌++◌, clean, path_join, path_dir, path_base,
}
use chaosblade_operator.Deploy.Tar.{
  Disk, Writer, Walked, and_then, after_copy, after_header, finished, tar_other, tar_link,
  tar_children, tar_directory, tar_matched, recursive_tar, make_tar,
}
use chaosblade_operator.Deploy.Trees.{
  Node, file, link, folder, Entries, end, entry, names, depth, depth_entries, Item, item, items,
  items_below, IsAt, AreAt, write_content, write_item, write_all,
}

module _ {W : Type 0} where
  and_then-done : (p : Option String × W) → and_then (some p) (λ v. some (none, v)) ≡ some p
  unfolding and_then
  and_then-done (none, w) = refl
  and_then-done (some e, w) = refl

  and_then_assoc :
      (r : Walked W) (f g : W → Walked W)
      → and_then (and_then r f) g ≡ and_then r (λ v. and_then (f v) g)
  unfolding and_then
  and_then_assoc none f g = refl
  and_then_assoc (some (none, w)) f g = refl
  and_then_assoc (some (some e, w)) f g = refl

  and_then-cong :
      (r : Walked W) {f g : W → Walked W} → ((v : W) → f v ≡ g v) → and_then r f ≡ and_then r g
  unfolding and_then
  and_then-cong none h = refl
  and_then-cong (some (none, w)) h = h w
  and_then-cong (some (some e, w)) h = refl

module _ {W : Type 0} (writer : Writer W) where
  write_all-one : (i : Item) (w : W) → write_all writer (i ∷ []) w ≡ some (write_item writer i w)
  unfolding write_all
  write_all-one i w = and_then-done (write_item writer i w)

  write_all-append :
      (is js : List Item) (w : W)
      → write_all writer (is ++ js) w
        ≡ and_then (write_all writer is w) (λ v. write_all writer js v)
  unfolding write_all and_then
  write_all-append [] js w = refl
  write_all-append (i ∷ is) js w =
      and_then-cong (some (write_item writer i w)) (λ v. write_all-append is js v)
      ∙ sym (
          and_then_assoc (some (write_item writer i w)) (λ v. write_all writer is v)
            (λ v. write_all writer js v))

  write_content-none : (p : Option String × W) → p ≡ write_content writer none p
  write_content-none (some e, w) = refl
  write_content-none (none, w) = refl

  module _ (disk : Disk) where
    after_copy-done :
        (path : String) (p : Option String × W)
        → disk.close_file path ≡ none
        → after_copy disk writer path p ≡ p
    after_copy-done path (some e, w) hc = refl
    after_copy-done path (none, w) hc = ap (λ e. (e, w)) hc

    after_header-content :
        {path c : String} (p : Option String × W)
        → disk.open_file path ≡ inl c
        → disk.close_file path ≡ none
        → after_header disk writer path p ≡ write_content writer (some c) p
    after_header-content (some e, w) ho hc = refl
    after_header-content {path} {c} (none, w) ho hc =
        rw (ho, after_header) (after_copy-done path (writer.copy c w) hc)

    -- A file that can be read is one item.
    tar_other-item :
        (path dest c : String) (w : W)
        → disk.header_error path ≡ none
        → disk.open_file path ≡ inl c
        → disk.close_file path ≡ none
        → tar_other disk writer path dest w ≡ write_item writer (item path dest "" (some c)) w
    unfolding tar_other write_item
    tar_other-item path dest c w hh ho hc =
        rw (hh, tar_other)
          (after_header-content
            (writer.write_header (record { path = path; name = dest; linkname = "" }) w) ho hc)

    -- A link that can be read is one item.
    tar_link-item :
        (path dest t : String) (w : W)
        → disk.read_link path ≡ inl t
        → tar_link disk writer path dest w ≡ write_item writer (item path dest t none) w
    unfolding tar_link write_item
    tar_link-item path dest t w hl =
        rw (hl, tar_link)
          (write_content-none
            (writer.write_header (record { path = path; name = dest; linkname = t }) w))

    module _ (base : String) where
      abbrev walk : ℕ → String → String → W → Walked W
      walk n s d v = recursive_tar disk writer n base s d v

      file-items :
          (n : ℕ) (src dest c : String) (w : W)
          → IsAt base disk src (file c)
          → 1 ≤ n
          → walk n src dest w ≡ write_all writer (items base src dest (file c)) w
      unfolding recursive_tar tar_matched IsAt items
      file-items zero src dest c w at h = ground arith
      file-items (suc n) src dest c w (hg, hl, hh, ho, hc) h =
          rw (hg, recursive_tar, hl, tar_matched)
            (ap (λ p. some p) (tar_other-item (path_join base src) dest c w hh ho hc)
              ∙ sym (write_all-one (item (path_join base src) dest "" (some c)) w))

      link-items :
          (n : ℕ) (src dest t : String) (w : W)
          → IsAt base disk src (link t)
          → 1 ≤ n
          → walk n src dest w ≡ write_all writer (items base src dest (link t)) w
      unfolding recursive_tar tar_matched IsAt items
      link-items zero src dest t w at h = ground arith
      link-items (suc n) src dest t w (hg, hl, hr) h =
          rw (hg, recursive_tar, hl, tar_matched)
            (and_then-done (tar_link disk writer (path_join base src) dest w)
              ∙ ap (λ p. some p) (tar_link-item (path_join base src) dest t w hr)
              ∙ sym (write_all-one (item (path_join base src) dest t none) w))

      -- A directory, by what its files come to.
      folder-items :
          (n : ℕ) (src dest : String) (es : Entries) (w : W)
          → IsAt base disk src (folder es)
          → suc (depth_entries es) ≤ n
          → ((m : ℕ)
              → depth_entries es ≤ m
              → tar_children disk writer (walk m) src dest (names es) w
                ≡ write_all writer (items_below base src dest es) w)
          → walk n src dest w ≡ write_all writer (items base src dest (folder es)) w
      unfolding recursive_tar tar_matched tar_directory IsAt items names write_item
      folder-items zero src dest es w at h below = ground arith
      folder-items (suc n) src dest end w (hg, hl, hr, at) h below =
          rw (hg, recursive_tar, hl, tar_matched, hr, tar_directory)
            (ap (λ p. some p)
                (write_content-none (
                  writer.write_header
                    (record { path = path_join base src; name = dest; linkname = "" }) w))
              ∙ sym (write_all-one (item (path_join base src) dest "" none) w))
      folder-items (suc n) src dest (entry k t es) w (hg, hl, hr, at) h below =
          rw (hg, recursive_tar, hl, tar_matched, hr, tar_directory) (below n (omega arith))

      mutual
        unfolding depth items names IsAt tar_children write_all

        walk-items :
            (t : Node) (n : ℕ) (src dest : String) (w : W)
            → IsAt base disk src t
            → depth t ≤ n
            → walk n src dest w ≡ write_all writer (items base src dest t) w
        walk-items (file c) n src dest w at h = file-items n src dest c w at h
        walk-items (link l) n src dest w at h = link-items n src dest l w at h
        walk-items (folder es) n src dest w (hg, hl, hr, at) h =
            folder-items n src dest es w (hg, hl, hr, at) h
              (λ m below. children-items es m src dest w at below)

        children-items :
            (es : Entries) (n : ℕ) (src dest : String) (w : W)
            → AreAt base disk src es
            → depth_entries es ≤ n
            → tar_children disk writer (walk n) src dest (names es) w
              ≡ write_all writer (items_below base src dest es) w
        children-items end n src dest w at h = refl
        children-items (entry k t es) n src dest w (at, below) h =
            ap (λ r. and_then r (λ v. tar_children disk writer (walk n) src dest (names es) v))
              (walk-items t n (path_join src k) (path_join dest k) w at (omega arith))
            ∙ and_then-cong (write_all writer (items base (path_join src k) (path_join dest k) t) w)
                (λ v. children-items es n src dest v below (omega arith))
            ∙ sym (
                write_all-append (items base (path_join src k) (path_join dest k) t)
                  (items_below base src dest es) w)

-- For a finite tree that can be read, makeTar ends and writes one item for each file, link and empty
-- directory of it, in the order of the directories, named from the last part of the destination; at
-- the first error of the tar writer it stops, with that error. The depth of the tree is bound enough.
pub make_tar-items :
    {W : Type 0} (writer : Writer W) (disk : Disk) (n : ℕ) (src dest : String) (t : Node) (w : W)
    → IsAt (path_dir (clean src)) disk (path_base (clean src)) t
    → depth t ≤ n
    → make_tar disk writer n src dest w
      ≡ finished disk writer (
          write_all writer
            (items (path_dir (clean src)) (path_base (clean src)) (path_base (clean dest)) t)
            w)
unfolding make_tar
make_tar-items writer disk n src dest t w at h =
    ap (finished disk writer) (walk-items writer disk (path_dir (clean src)) t n _ _ w at h)
