-- ===== src/Fs/Calls/Path.antt =====
-- What `vfs_normalize_path` makes of a path.
use ferrite_c.Common.{
  ℕ, ◌-◌, ◌≤◌, ◌<◌, ◌≡◌, ◌⊎◌, false, List, ◌++◌, Option, none, some, length, replicate, get_elem?,
}
use ferrite_c.Fs.Lookup.{slash}
use ferrite_c.Fs.Calls.{is_slash}

-- A path without slashes at the end, but for the path that is one byte, and the slashes that were there.
pub record Normal (path : List ℕ) (size : ℕ) (clean : List ℕ) : Type 0 where
  pub nonempty : 0 < length clean
  pub fits : length clean < size
  pub no_trailing : 1 < length clean → is_slash (get_elem? clean (length clean - 1)) ≡ false
  pub split_off : clean ++ replicate (length path - length clean) slash ≡ path

-- The result of the call: a clean path, or -EINVAL for a path that is empty or does not fit.
pub data Normalized (path : List ℕ) (size : ℕ) : Option (List ℕ) → Type 0 where
  clean : (q : List ℕ) → Normal path size q → Normalized path size (some q)
  invalid : (length path ≡ 0) ⊎ (size ≤ length path) → Normalized path size none
