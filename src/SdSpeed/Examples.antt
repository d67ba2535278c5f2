-- ===== src/SdSpeed/Examples.antt =====
-- Speed tests on a card with room and on a full one.
use esp32s3_szpi_sta.Base.{◌≡◌, refl, [], pos, length, codes, arith}
use esp32s3_szpi_sta.Zephyr.Calls.{got, write, read, open_file, fs, malloc, kernel}
use esp32s3_szpi_sta.Zephyr.Prog.{Env, run, unfinished}
use esp32s3_szpi_sta.Zephyr.Holds.{Answers, Ends}
use esp32s3_szpi_sta.Zephyr.Sample.{reader}
use esp32s3_szpi_sta.SdSpeed.{speed_test}
use esp32s3_szpi_sta.SdSpeed.Balance.{Progresses, IsEven, speed_test-Ends}
use esp32s3_szpi_sta.SdSpeed.FullCard.{IsFull, speed_test-never_ends}

roomy : Env
roomy t (fs (write bs)) = pos (length bs)
roomy t (fs (read n)) = got []
roomy t c = reader [] t c

roomy-Progresses : Answers Progresses roomy
unfolding roomy
roomy-Progresses t (fs (write bs)) = (omega arith, λ p. p)
roomy-Progresses t (fs (read n)) = omega arith
roomy-Progresses t _ = tt

full : Env
full t (fs (write bs)) = pos 0
full t c = reader [] t c

full-IsFull : Answers IsFull full
unfolding full reader
full-IsFull t (kernel (malloc n)) = refl
full-IsFull t (fs (open_file p f)) = refl
full-IsFull t (fs (write bs)) = refl
full-IsFull t _ = tt

speed_test-Ends_example :
    let (o, u) = run roomy (speed_test 70000 16384 65536 (codes "/SD:/t")) [] in
    Ends (λ rc. IsEven []) o u
speed_test-Ends_example =
    speed_test-Ends roomy 70000 16384 65536 (codes "/SD:/t") [] (omega arith) (omega arith)
      (omega arith) roomy-Progresses

speed_test-never_ends_example :
    (run full (speed_test 9 16384 65536 (codes "/SD:/t")) []).0 ≡ unfinished
speed_test-never_ends_example =
    speed_test-never_ends full 9 16384 65536 (codes "/SD:/t") [] (omega arith) full-IsFull
