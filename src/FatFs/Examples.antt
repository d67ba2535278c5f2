-- ===== src/FatFs/Examples.antt =====
-- Cards with a concrete directory.
use esp32s3_szpi_sta.Base.{
  ℕ, zero, suc, ◌≡◌, refl, ◌≤◌, ◌⊎◌, inl, inr, some, [], ◌∷◌, pos, length, get_elem?, codes, arith,
}
use esp32s3_szpi_sta.Zephyr.Calls.{Dirent, file, dir, open_file, opendir, readdir, fs}
use esp32s3_szpi_sta.Zephyr.Prog.{Env, run}
use esp32s3_szpi_sta.Zephyr.Holds.{Answers, Ends}
use esp32s3_szpi_sta.Zephyr.Sample.{reader}
use esp32s3_szpi_sta.FatFs.{lsdir, create_some_entries}
use esp32s3_szpi_sta.FatFs.Listing.{entries_read, ReadsDir, IsListed, lsdir-IsListed}
use esp32s3_szpi_sta.FatFs.Entries.{OpensAtZero, IsCreated, create_some_entries-IsCreated}

abbrev image : Dirent
image = record { type = file; size = 7; name = codes "a.bin" }

abbrev logs : Dirent
logs = record { type = dir; size = 0; name = codes "logs" }

abbrev no_more : Dirent
no_more = record { type = file; size = 0; name = [] }

-- the entry of that index
abbrev nth : ℕ → Dirent
nth zero = image
nth (suc zero) = logs
nth (suc (suc i)) = no_more

nth-read :
    (i : ℕ)
    → (get_elem? (image ∷ logs ∷ []) i ≡ some (nth i))
      ⊎ ((length (image ∷ logs ∷ []) ≤ i) × (length (nth i).name ≡ 0))
nth-read zero = inl refl
nth-read (suc zero) = inl refl
nth-read (suc (suc i)) = inr (omega arith, refl)

card : Env
card t (fs readdir) = (pos 0, nth (entries_read t))
card t c = reader [] t c

card-ReadsDir : Answers (ReadsDir (image ∷ logs ∷ [])) card
unfolding card reader
card-ReadsDir t (fs (opendir p)) = refl
card-ReadsDir t (fs readdir) = (refl, nth-read (entries_read t))
card-ReadsDir t _ = tt

lsdir-IsListed_example :
    let (o, u) = run card (lsdir 3 (codes "/SD:")) [] in Ends (IsListed (image ∷ logs ∷ []) []) o u
lsdir-IsListed_example =
    lsdir-IsListed card (image ∷ logs ∷ []) 3 (codes "/SD:") [] (omega arith, (omega arith, tt))
      (omega arith) card-ReadsDir

card-OpensAtZero : Answers OpensAtZero card
unfolding card reader
card-OpensAtZero t (fs (open_file p f)) = refl
card-OpensAtZero t _ = tt

create_some_entries-IsCreated_example :
    let (o, u) = run card (create_some_entries (codes "/SD:")) [] in
    Ends (IsCreated (codes "/SD:") []) o u
create_some_entries-IsCreated_example =
    create_some_entries-IsCreated card (codes "/SD:") [] card-OpensAtZero
