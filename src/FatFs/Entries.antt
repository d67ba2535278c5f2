-- ===== src/FatFs/Entries.antt =====
-- The paths that `create_some_entries` builds.
use esp32s3_szpi_sta.Base.{
  ℕ, zero, suc, ◌+◌, ◌-◌, ◌<◌, ◌≡◌, refl, ◌⊎◌, inl, inr, Bool, true, false, List, [], ◌∷◌, ◌++◌,
  pos, negsuc, length, codes, leb, Bool-cases, arith, length-append,
}
use esp32s3_szpi_sta.Zephyr.Calls.{open_file, mkdir, fs}
use esp32s3_szpi_sta.Zephyr.Prog.{Prog, ret, ask, ◌>>◌, Trace, Env, run, Holds}
use esp32s3_szpi_sta.Zephyr.Holds.{Admits, Answers, Ends, run-Holds}
use esp32s3_szpi_sta.Zephyr.Usage.{opens, closes}
use esp32s3_szpi_sta.FatFs.{max_path, some_required_len, in_path, create_some_entries}

-- `fs_open` gives 0 or an error
abbrev pub OpensAtZero : Admits
OpensAtZero t (fs (open_file p f)) (pos n) = n ≡ 0
OpensAtZero _ _ _ = Unit

in_path-fits :
    (text : List ℕ) (rest : List ℕ → Prog Bool)
    → length text < max_path
    → in_path text rest ≡ rest text
unfolding in_path
in_path-fits text rest h = ground arith

-- the directories made, the newest first
abbrev pub made : Trace → List (List ℕ)
made [] = []
made ((fs (mkdir p), rc) ∷ t) = p ∷ made t
made (_ ∷ t) = made t

-- the result, the files still open and the directories made, for a base path of that length
abbrev pub IsCreated : List ℕ → Trace → Bool → Trace → Type 0
IsCreated base_path t ok u =
    (opens u + closes t ≡ opens t + closes u)
    × (((ok ≡ false) × (made u ≡ made t))
        ⊎ ((ok ≡ true)
            × (length base_path < 119)
            × (made u ≡ (base_path ++ (b'/' ∷ codes "some")) ∷ made t)))

create-IsCreated :
    (base_path : List ℕ) (t : Trace)
    → Holds OpensAtZero (create_some_entries base_path) t (Ends (IsCreated base_path t))
unfolding create_some_entries
create-IsCreated base_path t =
    elim (Bool-cases (leb (max_path - some_required_len) (length base_path))) [
      | inl long ↦ rw long (refl, inl (refl, refl))
      | inr short ↦
          let below : length base_path < 119 = ground arith in
          let file = length-append base_path (b'/' ∷ codes "some.dat") in
          let dir = length-append base_path (b'/' ∷ codes "some") in
          rw short (
            rw (in_path-fits base_path _ (omega arith)) (
              rw (in_path-fits (base_path ++ (b'/' ∷ codes "some.dat")) _ (omega arith)) elim [
                | negsuc e ↦ λ _. (omega arith, inl (refl, refl))
                | pos (suc n) ↦ λ d. absurd (omega (arith, d))
                | pos zero ↦ λ _ _ _.
                    rw
                      (in_path-fits (base_path ++ (b'/' ∷ codes "some"))
                        (λ dir_path. ask (fs (mkdir dir_path)) >> ret true) (omega arith))
                      (λ _ _. (omega arith, inr (refl, below, refl)))
              ]))
    ]

-- For every base path `create_some_entries` ends without a write outside of its 128 bytes, and has
-- closed the file if it opened it. It gives true only for a path of fewer than 119 bytes, and has
-- then asked for the directory `some` in it, once; where it gives false it has asked for none.
pub create_some_entries-IsCreated :
    (env : Env) (base_path : List ℕ) (t : Trace)
    → Answers OpensAtZero env
    → let (o, u) = run env (create_some_entries base_path) t in Ends (IsCreated base_path t) o u
create_some_entries-IsCreated env base_path t d =
    run-Holds OpensAtZero (Ends (IsCreated base_path t)) env d _ t (create-IsCreated base_path t)
