-- ===== src/Lfs.antt =====
-- src/lfs.c: a boot counter and a test pattern in files of littlefs. The build does not compile this
-- file, and the call of `lfs_run` in `main` is commented out.
pub mod Pattern
pub mod Balance
pub mod Files
pub mod Adjusted
pub mod Printed
mod Examples
use esp32s3_szpi_sta.Base.{
  ℕ, zero, suc, ◌+◌, ◌-◌, ◌%◌, Bool, true, false, not, ◌&&◌, ◌||◌, List, [], ◌∷◌, ◌++◌, ℤ, pos,
  negsuc, is_neg, is_zero, length, set, drop, replicate, codes, ltb, ◌==◌, if◌then◌else◌,
}
use esp32s3_szpi_sta.FatFs.{is_end}
use esp32s3_szpi_sta.Zephyr.Calls.{
  EntryType, file, dir, got, failed, mount, unmount, statvfs, opendir, readdir, closedir, open_file,
  create_rdwr, stat, read, write, seek_set, close_file, fs, flash, open_area, flatten, close_area,
}
use esp32s3_szpi_sta.Zephyr.Prog.{Prog, ret, out_of_fuel, ◌>>=◌, ◌>>◌, ask}

-- TEST_FILE_SIZE
abbrev pub test_file_size : ℕ
test_file_size = 547

-- `p[i]` of an array of bytes; no read lies out of bounds
abbrev pub byte_at : List ℕ → ℕ → ℕ
byte_at [] i = 0
byte_at (b ∷ p) zero = b
byte_at (b ∷ p) (suc i) = byte_at p i

-- `p[i] += inc`
abbrev pub add_at : List ℕ → ℕ → ℕ → List ℕ
add_at p i inc = set p i ((byte_at p i + inc) % 256)

-- the loop of `incr_pattern`, for that many rounds from `i`
abbrev pub incr_loop : ℕ → ℕ → ℕ → ℕ → List ℕ → List ℕ
incr_loop zero i fill inc p = p
incr_loop (suc rounds) i fill inc p =
    incr_loop rounds (i + 1) fill inc (if i % 8 == 0 then add_at p i inc else set p i fill)

-- `size` is the length of `p`, above 0
unfoldable pub incr_pattern : List ℕ → ℕ → List ℕ
incr_pattern p inc =
    let fill = if byte_at p 0 % 2 == 0 then 0xAA else 0x55 in
    add_at (incr_loop (length p - 1) 0 fill inc p) (length p - 1) inc

-- the loop of `init_pattern`; it has fewer rounds than the array has bytes, which is the fuel
abbrev pub init_loop : ℕ → ℕ → ℕ → List ℕ → List ℕ
init_loop zero i v p = p
init_loop (suc fuel) i v p =
    let later = init_loop fuel (i + 8) ((v + 1) % 256) (set p i v) in
    if ltb i (length p) then later else p

-- what `init_pattern` leaves in `size` bytes, where `size` is above 0
unfoldable pub init_pattern : ℕ → List ℕ
init_pattern size = set (init_loop size 0 1 (replicate size 0x55)) (size - 1) 0xAA

-- the loop of `lsdir`, with the `res` that it leaves
unfoldable pub lfs_lsdir_loop : ℕ → Prog ℤ
lfs_lsdir_loop zero = out_of_fuel
lfs_lsdir_loop (suc fuel) = do
  (res, entry) ← ask (fs readdir)
  if not (is_zero res) || is_end entry then ret res else lfs_lsdir_loop fuel

unfoldable pub lfs_lsdir : ℕ → List ℕ → Prog ℤ
lfs_lsdir fuel path = do
  res ← ask (fs (opendir path))
  if not (is_zero res) then ret res else do res ← lfs_lsdir_loop fuel; ask (fs closedir); ret res

-- `out`: the file is closed
unfoldable pub close_out : ℤ → Prog ℤ
close_out rc = do
  closed ← ask (fs close_file)
  if is_neg closed then ret closed else ret (if is_neg rc then rc else pos 0)

unfoldable pub littlefs_increase_infile_value : List ℕ → Prog ℤ
littlefs_increase_infile_value fname = do
  rc ← ask (fs (open_file fname create_rdwr))
  if is_neg rc then ret rc else do
    r ← ask (fs (read 1))
    elim r [
      | failed e ↦ close_out (negsuc e)
      | got bytes ↦ do
        rc ← ask (fs (seek_set 0))
        if is_neg rc
            then close_out rc
            else do rc ← ask (fs (write ((byte_at bytes 0 + 1) % 256 ∷ []))); close_out rc
    ]

-- the end of `littlefs_binary_file_adj`, where the pattern is written; `p` is `file_test_pattern`
unfoldable pub write_pattern : List ℕ → Prog (ℤ × List ℕ)
write_pattern p = do
  rc ← ask (fs (seek_set 0))
  if is_neg rc
      then (do rc ← close_out rc; ret (rc, p))
      else do rc ← ask (fs (write p)); rc ← close_out rc; ret (rc, p)

abbrev pub is_file : EntryType → Bool
is_file file = true
is_file dir = false

-- `p` is `file_test_pattern`, which stays from one run to the next
unfoldable pub littlefs_binary_file_adj : List ℕ → List ℕ → Prog (ℤ × List ℕ)
littlefs_binary_file_adj fname p = do
  rc ← ask (fs (open_file fname create_rdwr))
  if is_neg rc then ret (rc, p) else do
    (rc, dirent) ← ask (fs (stat fname))
    if is_neg rc
        then (do rc ← close_out rc; ret (rc, p))
        else if is_zero rc && is_file dirent.type && (dirent.size == 0)
        then write_pattern (init_pattern test_file_size)
        else do
          r ← ask (fs (read test_file_size))
          elim r [
            | failed e ↦ do rc ← close_out (negsuc e); ret (rc, p)
            | got bytes ↦ write_pattern (incr_pattern (bytes ++ drop (length bytes) p) 1)
          ]

-- "/SD:", the mount point
abbrev pub disk_mount_pt : List ℕ
disk_mount_pt = codes "/SD:"

-- What `lfs_run` does with the mounted file system, up to `out`, with what is then in
-- `file_test_pattern`.
unfoldable pub with_mounted : ℕ → List ℕ → Prog (List ℕ)
with_mounted fuel p = do
  rc ← ask (fs (statvfs disk_mount_pt))
  if is_neg rc then ret p else do
    rc ← lfs_lsdir fuel disk_mount_pt
    if is_neg rc then ret p else do
      rc ← littlefs_increase_infile_value (disk_mount_pt ++ codes "/boot_count")
      if not (is_zero rc) then ret p else do
        (rc, p') ← littlefs_binary_file_adj (disk_mount_pt ++ codes "/pattern.bin") p
        ret p'

abbrev pub littlefs_mount : Prog ℤ
littlefs_mount = ask (fs mount)

unfoldable pub lfs_run : ℕ → List ℕ → Prog (ℤ × List ℕ)
lfs_run fuel p = do
  rc ← littlefs_mount
  if is_neg rc
      then ret (pos 0, p)
      else do p' ← with_mounted fuel p; ask (fs unmount); ret (pos 0, p')

-- over IS_ENABLED(CONFIG_APP_WIPE_STORAGE) and the size of the area that is opened
unfoldable pub littlefs_flash_erase : Bool → ℕ → ℕ → Prog ℤ
littlefs_flash_erase wipe_storage fa_size id = do
  rc ← ask (flash (open_area id))
  if is_neg rc then ret rc else do
    rc' ← (if wipe_storage then ask (flash (flatten 0 fa_size)) else ret rc)
    ask (flash close_area)
    ret rc'
