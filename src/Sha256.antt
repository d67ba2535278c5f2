-- ===== src/Sha256.antt =====
-- src/sha256sum.c: the SHA-256 digest of a file, and its print.
pub mod Digest
pub mod Hex
mod Examples
use esp32s3_szpi_sta.Base.{
  ℕ, zero, suc, ◌+◌, ◌/◌, ◌%◌, List, [], ◌∷◌, ℤ, negsuc, pos, neg, is_neg, is_zero, ltb, not,
  if◌then◌else◌,
}
use esp32s3_szpi_sta.Zephyr.Calls.{
  failed, got, read_only, open_file, read, close_file, crypto_init, hash_setup, hash_update,
  hash_abort, hash_finish, finish_failed, finished, fs, psa,
}
use esp32s3_szpi_sta.Zephyr.Prog.{Prog, ret, out_of_fuel, ◌>>=◌, ◌>>◌, ask}

abbrev pub read_buffer_size : ℕ
read_buffer_size = 1024

abbrev eio : ℕ
eio = 5

-- the result of `calculate_file_sha256`, and what the 32 bytes of its output then are
abbrev pub Result : Type 0
Result = ℤ × List ℕ

-- the error exits behind `psa_hash_setup`
unfoldable pub give_up : ℤ → List ℕ → Prog Result
give_up rc output_sha256 = do ask (psa hash_abort); ask (fs close_file); ret (rc, output_sha256)

-- step 5 and 6
unfoldable pub finish : List ℕ → Prog Result
finish output_sha256 = do
  answer ← ask (psa hash_finish)
  elim answer [
    | finish_failed status ↦ give_up (neg eio) output_sha256
    | finished digest ↦ do ask (fs close_file); ret (pos 0, digest)
  ]

-- The loop of step 4. The code sets no bound on its rounds, so the fuel is an argument.
unfoldable pub update_loop : ℕ → List ℕ → Prog Result
update_loop zero output_sha256 = out_of_fuel
update_loop (suc fuel) output_sha256 = do
  bytes_read ← ask (fs (read read_buffer_size))
  elim bytes_read [
    | failed e ↦ give_up (negsuc e) output_sha256
    | got [] ↦ finish output_sha256
    | got (b ∷ bs) ↦ do
      status ← ask (psa (hash_update (b ∷ bs)))
      if is_zero status then update_loop fuel output_sha256 else give_up (neg eio) output_sha256
  ]

unfoldable pub calculate_file_sha256 : ℕ → List ℕ → List ℕ → Prog Result
calculate_file_sha256 fuel filepath output_sha256 = do
  status ← ask (psa crypto_init)
  if not (is_zero status) then ret (neg eio, output_sha256) else do
    rc ← ask (fs (open_file filepath read_only))
    if is_neg rc then ret (rc, output_sha256) else do
      status ← ask (psa hash_setup)
      if not (is_zero status)
          then (do ask (fs close_file); ret (neg eio, output_sha256))
          else update_loop fuel output_sha256

-- a digit of `%x`
unfoldable pub hex_digit : ℕ → ℕ
hex_digit n = if ltb n 10 then 48 + n else 87 + n

-- the text that the loop of `print_sha256_sum` builds, `%02x` for each byte
unfoldable pub sha256_str : List ℕ → List ℕ
unfolding hex_digit
sha256_str [] = []
sha256_str (b ∷ bs) = hex_digit (b / 16) ∷ hex_digit (b % 16) ∷ sha256_str bs
