-- ===== src/Zephyr/Usage.antt =====
-- What a trace shows: how often each resource was taken and given back, what was read from the
-- open file, what was written to the open flash area and what the hash was fed.
use esp32s3_szpi_sta.Base.{
  ℕ, zero, suc, ◌+◌, ◌≤◌, ◌≡◌, true, List, [], ◌∷◌, ◌++◌, ℤ, pos, negsuc, length, refl, inl, inr,
  Bool-cases, ◌==◌, if◌then◌else◌, arith,
}
use esp32s3_szpi_sta.Zephyr.Calls.{
  got, open_file, read, close_file, open_area, erase, write_area, close_area, request_upgrade,
  reboot, hash_setup, hash_update, hash_abort, hash_finish, finished, malloc, free, fs, flash, boot,
  psa, kernel, net, socket, close_sock, websocket_connect,
}
use esp32s3_szpi_sta.Zephyr.Prog.{Trace}

-- 1 for a result that is not negative
abbrev pub success : ℤ → ℕ
success (pos n) = 1
success (negsuc n) = 0

-- files opened, and files closed
abbrev pub opens : Trace → ℕ
opens [] = 0
opens ((fs (open_file p f), rc) ∷ t) = success rc + opens t
opens (_ ∷ t) = opens t

abbrev pub closes : Trace → ℕ
closes [] = 0
closes ((fs close_file, rc) ∷ t) = suc (closes t)
closes (_ ∷ t) = closes t

-- flash areas opened, and closed
abbrev pub area_opens : Trace → ℕ
area_opens [] = 0
area_opens ((flash (open_area id), rc) ∷ t) = success rc + area_opens t
area_opens (_ ∷ t) = area_opens t

abbrev pub area_closes : Trace → ℕ
area_closes [] = 0
area_closes ((flash close_area, rc) ∷ t) = suc (area_closes t)
area_closes (_ ∷ t) = area_closes t

-- heap blocks obtained, and given back
abbrev pub mallocs : Trace → ℕ
mallocs [] = 0
mallocs ((kernel (malloc n), true) ∷ t) = suc (mallocs t)
mallocs (_ ∷ t) = mallocs t

abbrev pub frees : Trace → ℕ
frees [] = 0
frees ((kernel free, r) ∷ t) = suc (frees t)
frees (_ ∷ t) = frees t

-- hash operations set up, and finished or aborted; PSA_SUCCESS is 0
abbrev pub setups : Trace → ℕ
setups [] = 0
setups ((psa hash_setup, pos zero) ∷ t) = suc (setups t)
setups (_ ∷ t) = setups t

abbrev pub endings : Trace → ℕ
endings [] = 0
endings ((psa hash_abort, rc) ∷ t) = suc (endings t)
endings ((psa hash_finish, finished d) ∷ t) = suc (endings t)
endings (_ ∷ t) = endings t

-- the bytes read since the file was opened
abbrev pub consumed : Trace → List ℕ
consumed [] = []
consumed ((fs (open_file p f), rc) ∷ t) = []
consumed ((fs (read n), got bs) ∷ t) = consumed t ++ bs
consumed (_ ∷ t) = consumed t

-- the bytes given to the hash since it was set up
abbrev pub hashed : Trace → List ℕ
hashed [] = []
hashed ((psa hash_setup, rc) ∷ t) = []
hashed ((psa (hash_update bs), rc) ∷ t) = hashed t ++ bs
hashed (_ ∷ t) = hashed t

-- the digest that the last finished hash gave
abbrev pub digest : Trace → List ℕ
digest [] = []
digest ((psa hash_finish, finished d) ∷ t) = d
digest (_ ∷ t) = digest t

-- how much of the beginning of the open area the last erase from its start on has erased
abbrev pub erased : Trace → ℕ
erased [] = 0
erased ((flash (open_area id), rc) ∷ t) = 0
erased ((flash (erase zero size), pos n) ∷ t) = size
erased (_ ∷ t) = erased t

-- the flash area that was opened last
abbrev pub area : Trace → ℕ
area [] = 0
area ((flash (open_area id), rc) ∷ t) = id
area (_ ∷ t) = area t

-- the file that was opened last
abbrev pub opened : Trace → List ℕ
opened [] = []
opened ((fs (open_file p f), rc) ∷ t) = p
opened (_ ∷ t) = opened t

-- the bytes written since the area was opened, in order
abbrev pub written : Trace → List ℕ
written [] = []
written ((flash (open_area id), rc) ∷ t) = []
written ((flash (write_area off bs), pos n) ∷ t) = written t ++ bs
written (_ ∷ t) = written t

-- every write goes to the place just behind the bytes written before it, and lies in what was
-- erased; and nothing is erased behind a write
abbrev pub IsLaid : Trace → Type 0
IsLaid [] = Unit
IsLaid ((flash (open_area id), rc) ∷ t) = Unit
IsLaid ((flash (write_area off bs), rc) ∷ t) =
    (off ≡ length (written t)) × (off + length bs ≤ erased t) × IsLaid t
IsLaid ((flash (erase off size), rc) ∷ t) = (written t ≡ []) × IsLaid t
IsLaid (_ ∷ t) = IsLaid t

-- a list without the first `s`; where there is none, the `s` is put at its end
abbrev pub remove : ℕ → List ℕ → List ℕ
remove s [] = s ∷ []
remove s (x ∷ xs) = if s == x then xs else x ∷ remove s xs

-- The descriptors of sockets that were obtained and not closed, the last one first. One that is
-- closed and was not obtained is among them too.
abbrev pub unclosed : Trace → List ℕ
unclosed [] = []
unclosed ((net socket, pos s) ∷ t) = s ∷ unclosed t
unclosed ((net (websocket_connect sock), pos w) ∷ t) = w ∷ unclosed t
unclosed ((net (close_sock (pos s)), r) ∷ t) = remove s (unclosed t)
unclosed (_ ∷ t) = unclosed t

pub remove_first : (s : ℕ) (xs : List ℕ) → remove s (s ∷ xs) ≡ xs
remove_first s xs = elim (Bool-cases (s == s)) [ inl e ↦ rw e refl | inr e ↦ absurd (ground arith) ]

abbrev pub reboots : Trace → ℕ
reboots [] = 0
reboots ((boot reboot, r) ∷ t) = suc (reboots t)
reboots (_ ∷ t) = reboots t

-- requests for an upgrade that were accepted
abbrev pub requests : Trace → ℕ
requests [] = 0
requests ((boot request_upgrade, rc) ∷ t) = success rc + requests t
requests (_ ∷ t) = requests t
