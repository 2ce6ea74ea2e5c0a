-- ===== src/HookFs/Hooks.antt =====
-- The hooks of hook.go, one for each operation of the file system. Arguments that a hook does not
-- read are left out.
use chaosblade_operator.Base.{ℕ, String, Bool, false, Option}
use chaosblade_operator.HookFs.Defs.{Runtime, Cache, do_inject_fault, guard, guard_both}

-- Every Post hook of an error: it hooks nothing.
unfoldable pub post : Bool × Option ℕ
post = (false, Option.none)

module _ {W : Type 0} (runtime : Runtime W) (mount_point : String) (cache : Cache) where
  unfoldable pub pre_open : String → W → (Bool × Option ℕ) × W
  unfolding guard
  pre_open path w = guard runtime mount_point cache path "open" w

  unfoldable pub pre_read : String → W → (Bool × Option ℕ) × W
  unfolding guard
  pre_read path w = guard runtime mount_point cache path "read" w

  unfoldable pub pre_write : String → W → (Bool × Option ℕ) × W
  unfolding guard
  pre_write path w = guard runtime mount_point cache path "write" w

  unfoldable pub pre_mkdir : String → W → (Bool × Option ℕ) × W
  unfolding guard
  pre_mkdir path w = guard runtime mount_point cache path "mkdir" w

  unfoldable pub pre_rmdir : String → W → (Bool × Option ℕ) × W
  unfolding guard
  pre_rmdir path w = guard runtime mount_point cache path "rmdir" w

  unfoldable pub pre_open_dir : String → W → (Bool × Option ℕ) × W
  unfolding guard
  pre_open_dir path w = guard runtime mount_point cache path "opendir" w

  unfoldable pub pre_fsync : String → W → (Bool × Option ℕ) × W
  unfolding guard
  pre_fsync path w = guard runtime mount_point cache path "fsync" w

  unfoldable pub pre_flush : String → W → (Bool × Option ℕ) × W
  unfolding guard
  pre_flush path w = guard runtime mount_point cache path "flush" w

  -- The only hook that drops the error.
  unfoldable pub pre_release : String → W → Bool × W
  unfolding do_inject_fault
  pre_release path w =
      let (err, w') = do_inject_fault runtime mount_point cache path "release" w in (false, w')

  unfoldable pub pre_truncate : String → W → (Bool × Option ℕ) × W
  unfolding guard
  pre_truncate path w = guard runtime mount_point cache path "truncate" w

  unfoldable pub pre_get_attr : String → W → (Bool × Option ℕ) × W
  unfolding guard
  pre_get_attr path w = guard runtime mount_point cache path "getattr" w

  unfoldable pub pre_chown : String → W → (Bool × Option ℕ) × W
  unfolding guard
  pre_chown path w = guard runtime mount_point cache path "chown" w

  unfoldable pub pre_chmod : String → W → (Bool × Option ℕ) × W
  unfolding guard
  pre_chmod path w = guard runtime mount_point cache path "chmod" w

  unfoldable pub pre_utimens : String → W → (Bool × Option ℕ) × W
  unfolding guard
  pre_utimens path w = guard runtime mount_point cache path "utimens" w

  unfoldable pub pre_allocate : String → W → (Bool × Option ℕ) × W
  unfolding guard
  pre_allocate path w = guard runtime mount_point cache path "allocate" w

  unfoldable pub pre_get_lk : String → W → (Bool × Option ℕ) × W
  unfolding guard
  pre_get_lk path w = guard runtime mount_point cache path "getlk" w

  unfoldable pub pre_set_lk : String → W → (Bool × Option ℕ) × W
  unfolding guard
  pre_set_lk path w = guard runtime mount_point cache path "setlk" w

  unfoldable pub pre_set_lkw : String → W → (Bool × Option ℕ) × W
  unfolding guard
  pre_set_lkw path w = guard runtime mount_point cache path "setlkw" w

  unfoldable pub pre_stat_fs : String → W → (Bool × Option ℕ) × W
  unfolding guard
  pre_stat_fs path w = guard runtime mount_point cache path "statfs" w

  unfoldable pub pre_readlink : String → W → (Bool × Option ℕ) × W
  unfolding guard
  pre_readlink name w = guard runtime mount_point cache name "readlink" w

  unfoldable pub pre_symlink : String → String → W → (Bool × Option ℕ) × W
  unfolding guard_both
  pre_symlink value link_name w = guard_both runtime mount_point cache value link_name "symlink" w

  unfoldable pub pre_create : String → W → (Bool × Option ℕ) × W
  unfolding guard
  pre_create name w = guard runtime mount_point cache name "create" w

  unfoldable pub pre_access : String → W → (Bool × Option ℕ) × W
  unfolding guard
  pre_access name w = guard runtime mount_point cache name "access" w

  unfoldable pub pre_link : String → String → W → (Bool × Option ℕ) × W
  unfolding guard_both
  pre_link old_name new_name w = guard_both runtime mount_point cache old_name new_name "link" w

  unfoldable pub pre_mknod : String → W → (Bool × Option ℕ) × W
  unfolding guard
  pre_mknod name w = guard runtime mount_point cache name "mknod" w

  unfoldable pub pre_rename : String → String → W → (Bool × Option ℕ) × W
  unfolding guard_both
  pre_rename old_name new_name w = guard_both runtime mount_point cache old_name new_name "rename" w

  unfoldable pub pre_unlink : String → W → (Bool × Option ℕ) × W
  unfolding guard
  pre_unlink name w = guard runtime mount_point cache name "unlink" w

  unfoldable pub pre_get_xattr : String → W → (Bool × Option ℕ) × W
  unfolding guard
  pre_get_xattr name w = guard runtime mount_point cache name "getxattr" w

  unfoldable pub pre_list_xattr : String → W → (Bool × Option ℕ) × W
  unfolding guard
  pre_list_xattr name w = guard runtime mount_point cache name "listxattr" w

  unfoldable pub pre_remove_xattr : String → W → (Bool × Option ℕ) × W
  unfolding guard
  pre_remove_xattr name w = guard runtime mount_point cache name "removexattr" w

  unfoldable pub pre_set_xattr : String → W → (Bool × Option ℕ) × W
  unfolding guard
  pre_set_xattr name w = guard runtime mount_point cache name "setxattr" w
