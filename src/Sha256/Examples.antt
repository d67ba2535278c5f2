-- ===== src/Sha256/Examples.antt =====
-- Runs of the digest against a concrete file.
use esp32s3_szpi_sta.Base.{ℕ, ◌≡◌, refl, ◌*◌, List, [], ◌∷◌, codes, arith, length}
use esp32s3_szpi_sta.Zephyr.Prog.{run}
use esp32s3_szpi_sta.Zephyr.Usage.{hashed}
use esp32s3_szpi_sta.Zephyr.Sample.{reader}
use esp32s3_szpi_sta.Sha256.{calculate_file_sha256, update_loop, finish, sha256_str}
use esp32s3_szpi_sta.Sha256.Hex.{parse_hex, parse_hex-sha256_str}

abbrev data_file : List ℕ
data_file = codes "some data"

hashed-run :
    hashed (run (reader data_file) (calculate_file_sha256 10 (codes "/SD:/a") []) []).1 ≡ data_file
unfolding calculate_file_sha256 update_loop finish reader run
hashed-run = refl

print_example : sha256_str (0x0f ∷ 0xa7 ∷ []) ≡ codes "0fa7"
unfolding sha256_str
print_example = refl

parse_hex-sha256_str_example :
    (parse_hex (sha256_str (15 ∷ 167 ∷ [])) ≡ 15 ∷ 167 ∷ [])
    × (length (sha256_str (15 ∷ 167 ∷ [])) ≡ 2 * 2)
parse_hex-sha256_str_example = parse_hex-sha256_str (15 ∷ 167 ∷ []) (omega arith)
