-- ===== src/FatFs.antt =====
-- src/fatfs.c: mounting the SD card and listing it.
pub mod Listing
pub mod Entries
mod Examples
use esp32s3_szpi_sta.Base.{
  ℕ, zero, suc, ◌+◌, ◌-◌, Bool, true, false, not, ◌||◌, List, [], ◌∷◌, ◌++◌, ℤ, pos, negsuc, is_neg,
  is_zero, length, codes, leb, ◌==◌, if◌then◌else◌,
}
use esp32s3_szpi_sta.Zephyr.Calls.{
  Dirent, mount, unmount, opendir, readdir, closedir, open_file, create, close_file, mkdir, fs,
  ctrl_init, get_sector_count, get_sector_size, ctrl_deinit, disk,
}
use esp32s3_szpi_sta.Zephyr.Prog.{Prog, ret, fault, out_of_fuel, ◌>>=◌, ◌>>◌, ask}
use esp32s3_szpi_sta.Upgrade.{root_path}

-- MAX_PATH
abbrev pub max_path : ℕ
max_path = 128

-- SOME_REQUIRED_LEN, the longer of "some.dat" and "some" with its 0
abbrev pub some_required_len : ℕ
some_required_len = 9

-- The buffer `path` takes a text with its 0, or is overrun.
unfoldable pub in_path : List ℕ → (List ℕ → Prog Bool) → Prog Bool
in_path text rest = if leb max_path (length text) then fault else rest text

unfoldable pub create_some_entries : List ℕ → Prog Bool
unfolding in_path
create_some_entries base_path =
    if leb (max_path - some_required_len) (length base_path)
    then ret false
    else in_path base_path λ base. in_path (base ++ (b'/' ∷ codes "some.dat")) λ file_path. do
      rc ← ask (fs (open_file file_path create))
      if not (is_zero rc) then ret false else do
        ask (fs close_file)
        in_path (base ++ (b'/' ∷ codes "some")) λ dir_path. do ask (fs (mkdir dir_path)); ret true

-- `entry.name[0] == 0`
abbrev pub is_end : Dirent → Bool
is_end entry = length entry.name == 0

-- The loop of `lsdir`, with the `res` and the `count` that it leaves. The code sets no bound on its
-- rounds, so the fuel is an argument.
unfoldable pub lsdir_loop : ℕ → ℕ → Prog (ℤ × ℕ)
lsdir_loop zero count = out_of_fuel
lsdir_loop (suc fuel) count = do
  (res, entry) ← ask (fs readdir)
  if not (is_zero res) || is_end entry then ret (res, count) else lsdir_loop fuel (count + 1)

unfoldable pub lsdir : ℕ → List ℕ → Prog ℤ
lsdir fuel path = do
  res ← ask (fs (opendir path))
  if not (is_zero res) then ret res else do
    (res, count) ← lsdir_loop fuel 0
    ask (fs closedir)
    ret (if is_zero res then pos count else res)

unfoldable pub fatfs_init : ℕ → Prog ℤ
fatfs_init fuel = do
  rc ← ask (fs mount)
  if not (is_zero rc) then ret (negsuc 0) else do
    count ← lsdir fuel root_path
    (if is_zero count
        then (do
          created ← create_some_entries root_path
          if created then (do lsdir fuel root_path; ret tt) else ret tt)
        else ret tt)
    ret (pos 0)

unfoldable pub fatfs_fini : Prog (Unit {0})
fatfs_fini = do ask (fs unmount); ret tt

-- what `fatfs_dump_disk_info` asks the disk, without what it prints
unfoldable pub fatfs_dump_disk_info : Prog (Unit {0})
fatfs_dump_disk_info = do
  rc ← ask (disk ctrl_init)
  if not (is_zero rc) then ret tt else do
    (rc, block_count) ← ask (disk get_sector_count)
    if not (is_zero rc) then ret tt else do
      (rc, block_size) ← ask (disk get_sector_size)
      if not (is_zero rc) then ret tt else do ask (disk ctrl_deinit); ret tt
