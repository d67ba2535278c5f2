-- ===== src/SdSpeed.antt =====
-- src/sd_speed.c: the speed test of the SD card.
pub mod Balance
pub mod FullCard
mod Examples
use esp32s3_szpi_sta.Base.{
  codes, get_elem?, none, some, ℕ, zero, suc, ◌+◌, ◌*◌, ◌%◌, ◌^◌, ◌-◌, Bool, true, false, not, ◌||◌,
  List, [], ◌∷◌, ℤ, pos, negsuc, neg, is_neg, length, codes, ltb, ◌==◌, if◌then◌else◌, atoi, min,
  take,
}
use esp32s3_szpi_sta.Zephyr.Calls.{
  got, failed, read, write, open_file, create_write, read_only, close_file, sync, unlink, fs,
  malloc, free, uptime, kernel,
}
use esp32s3_szpi_sta.Zephyr.Prog.{Prog, ret, out_of_fuel, ◌>>=◌, ◌>>◌, ask}

-- the bytes of the buffer from the index `i` on, `n` of them
abbrev pub fill_from : ℕ → ℕ → List ℕ
fill_from zero i = []
fill_from (suc n) i = i % 256 ∷ fill_from n (i + 1)

unfoldable pub chunk : ℕ → ℕ → ℕ → ℕ
chunk buf_size total_bytes bytes = min buf_size (total_bytes - bytes)

-- The loop that writes: the negative result of `fs_write`, or the bytes written. The code sets no
-- bound on its rounds, so the fuel is an argument.
unfoldable pub write_loop : ℕ → ℕ → ℕ → ℕ → Prog ℤ
write_loop zero buf_size total_bytes bytes_written = out_of_fuel
write_loop (suc fuel) buf_size total_bytes bytes_written =
    if ltb bytes_written total_bytes
    then (do
      rc ← ask (fs (write (fill_from (chunk buf_size total_bytes bytes_written) 0)))
      elim rc [
        | negsuc e ↦ ret (negsuc e)
        | pos n ↦ write_loop fuel buf_size total_bytes ((bytes_written + n) % 2 ^ 32)
      ])
    else ret (pos bytes_written)

unfoldable pub read_loop : ℕ → ℕ → ℕ → ℕ → Prog ℤ
read_loop zero buf_size total_bytes bytes_read = out_of_fuel
read_loop (suc fuel) buf_size total_bytes bytes_read =
    if ltb bytes_read total_bytes
    then (do
      rc ← ask (fs (read (chunk buf_size total_bytes bytes_read)))
      elim rc [
        | failed e ↦ ret (negsuc e)
        | got [] ↦ ret (pos bytes_read)
        | got (b ∷ bs) ↦
            read_loop fuel buf_size total_bytes ((bytes_read + length (b ∷ bs)) % 2 ^ 32)
      ])
    else ret (pos bytes_read)

-- the end of a test that fails behind `fs_open`
unfoldable pub give_up_test : ℤ → Prog ℤ
give_up_test rc = do ask (fs close_file); ask (kernel free); ret rc

-- the test that reads, behind that which writes
unfoldable pub read_test : ℕ → ℕ → ℕ → List ℕ → Prog ℤ
read_test fuel buf_size total_bytes file_path = do
  rc ← ask (fs (open_file file_path read_only))
  if is_neg rc then (do ask (kernel free); ret rc) else do
    ask (kernel uptime)
    bytes_read ← read_loop fuel buf_size total_bytes 0
    if is_neg bytes_read then give_up_test bytes_read else do
      ask (kernel uptime)
      ask (fs close_file)
      ask (fs (unlink file_path))
      ask (kernel free)
      ret (pos 0)

-- the two tests, behind the parameters; the result of `fs_sync` is only printed
unfoldable pub speed_test : ℕ → ℕ → ℕ → List ℕ → Prog ℤ
speed_test fuel buf_size total_bytes file_path = do
  buf ← ask (kernel (malloc buf_size))
  if not buf then ret (neg 12) else do
    ask (fs (unlink file_path))
    rc ← ask (fs (open_file file_path create_write))
    if is_neg rc then (do ask (kernel free); ret rc) else do
      ask (kernel uptime)
      bytes_written ← write_loop fuel buf_size total_bytes 0
      if is_neg bytes_written then give_up_test bytes_written else do
        ask (fs sync)
        ask (kernel uptime)
        ask (fs close_file)
        read_test fuel buf_size total_bytes file_path

-- DEFAULT_TEST_FILE
abbrev pub default_test_file : List ℕ
default_test_file = codes "/SD:/speed_test.bin"

-- what an argument of the command says, or the default where it is not given
abbrev pub given : {A : Type 0} → List (List ℕ) → ℕ → (List ℕ → A) → A → A
given args i parse default = elim (get_elem? args i) [ none ↦ default | some arg ↦ parse arg ]

-- `strtoul` of the C library is for the base 10, and `args` are behind the name of the command. The
-- products are of 32 bits.
unfoldable pub cmd_sd_speed : (List ℕ → ℕ) → ℕ → List (List ℕ) → Prog ℤ
cmd_sd_speed strtoul fuel args =
    let size_mb = given args 0 (λ arg. strtoul arg % 2 ^ 32) 4 in
    let buf_kb = given args 1 (λ arg. strtoul arg % 2 ^ 32) 16 in
    let file_path = given args 2 (λ arg. arg) default_test_file in
    if size_mb == 0 || buf_kb == 0
    then ret (neg 22)
    else speed_test fuel (buf_kb * 1024 % 2 ^ 32) (size_mb * 1024 * 1024 % 2 ^ 32) file_path
