-- ===== src/Lfs/Files.antt =====
-- What the file of the boot counter holds behind a run.
use esp32s3_szpi_sta.Base.{
  take-all, arith, ℕ, ◌+◌, ◌%◌, ◌≡◌, refl, ap, ◌∙◌, ◌⊎◌, inl, inr, true, List, [], ◌∷◌, ◌++◌, ℤ,
  pos, negsuc, is_neg, length, take,
}
use esp32s3_szpi_sta.Lfs.{byte_at, close_out, littlefs_increase_infile_value}
use esp32s3_szpi_sta.Zephyr.Calls.{file, got, failed, stat, read, write, seek_set, fs}
use esp32s3_szpi_sta.Zephyr.Prog.{Trace, Env, run, Holds}
use esp32s3_szpi_sta.Zephyr.Holds.{Admits, Answers, Ends, run-Holds}

-- the bytes that `fs_write` has written since the last `fs_seek` to the start
abbrev pub rewritten : Trace → List ℕ
rewritten [] = []
rewritten ((fs (seek_set n), rc) ∷ t) = []
rewritten ((fs (write bs), pos n) ∷ t) = rewritten t ++ take n bs
rewritten (_ ∷ t) = rewritten t

-- `fs_stat` gives 0 or an error, and tells a file of the length of `content`; `fs_read` at its start
-- gives as much of it as is asked for. An `fs_write` that does not fail writes all that it is given.
abbrev pub HoldsFile : List ℕ → Admits
HoldsFile content t (fs (stat p)) (pos n, entry) =
    (n ≡ 0) × (entry.type ≡ file) × (entry.size ≡ length content)
HoldsFile content t (fs (read n)) (got bs) = bs ≡ take n content
HoldsFile content t (fs (write bs)) (pos n) = n ≡ length bs
HoldsFile content _ _ _ = Unit

-- an error, or 0 and these bytes written from the start on
abbrev pub IsRewritten : List ℕ → ℤ → Trace → Type 0
IsRewritten bytes rc u = (is_neg rc ≡ true) ⊎ ((rc ≡ pos 0) × (rewritten u ≡ bytes))

byte_at-take : (content : List ℕ) → byte_at (take 1 content) 0 ≡ byte_at content 0
byte_at-take [] = refl
byte_at-take (b ∷ content) = refl

-- the counter in the file, after the run
abbrev pub counted : List ℕ → List ℕ
counted content = (byte_at content 0 + 1) % 256 ∷ []

close_out-neg :
    (D : Admits) (bytes : List ℕ) (e : ℕ) (t : Trace)
    → Holds D (close_out (negsuc e)) t (Ends (IsRewritten bytes))
unfolding close_out
close_out-neg D bytes e t = elim [ pos n ↦ λ _. inl refl | negsuc n ↦ λ _. inl refl ]

close_out-pos :
    (D : Admits) (bytes : List ℕ) (n : ℕ) (t : Trace)
    → rewritten t ≡ bytes
    → Holds D (close_out (pos n)) t (Ends (IsRewritten bytes))
unfolding close_out
close_out-pos D bytes n t h = elim [ pos n ↦ λ _. inr (refl, h) | negsuc n ↦ λ _. inl refl ]

increase-IsRewritten :
    (content fname : List ℕ) (t : Trace)
    → Holds
        (HoldsFile content)
        (littlefs_increase_infile_value fname)
        t
        (Ends (IsRewritten (counted content)))
unfolding littlefs_increase_infile_value
increase-IsRewritten content fname t =
    let D = HoldsFile content in
    elim [
      | negsuc e ↦ λ _. inl refl
      | pos n ↦ λ _. elim [
        | failed e ↦ λ _. close_out-neg D (counted content) e _
        | got bytes ↦ λ d. elim [
          | negsuc e ↦ λ _. close_out-neg D (counted content) e _
          | pos n ↦ λ _. elim [
            | negsuc e ↦ λ _. close_out-neg D (counted content) e _
            | pos n ↦ λ d'. close_out-pos D (counted content) n _ (
                take-all n _ (omega (arith, d'))
                ∙ ap (λ b. (b + 1) % 256 ∷ []) (ap (λ l. byte_at l 0) d ∙ byte_at-take content))
          ]
        ]
      ]
    ]

-- Where the file holds `content`, and a write that does not fail writes all, `littlefs_increase_infile_value` gives an error or 0, and if 0 it
-- has put one byte to the start of the file: the first one of `content`, or 0 where that is empty,
-- and 1, modulo 256.
pub increase_infile_value-IsRewritten :
    (env : Env) (content fname : List ℕ) (t : Trace)
    → Answers (HoldsFile content) env
    → let (o, u) = run env (littlefs_increase_infile_value fname) t in
      Ends (IsRewritten (counted content)) o u
increase_infile_value-IsRewritten env content fname t d =
    run-Holds (HoldsFile content) (Ends (IsRewritten (counted content))) env d _ t
      (increase-IsRewritten content fname t)
