-- ===== src/Zephyr/Calls/Storage.antt =====
-- Files, flash, MCUboot, PSA crypto and the disk: the functions that the firmware calls.
use esp32s3_szpi_sta.Base.{ℕ, ℤ, Bool, List}

-- What a read hands over: the negative result -(e + 1), or the bytes that it put into the buffer.
pub data ReadResult : Type 0 where
  failed : ℕ → ReadResult
  got : List ℕ → ReadResult

-- What `psa_hash_finish` hands over: a status other than PSA_SUCCESS, or the digest.
pub data FinishResult : Type 0 where
  finish_failed : ℕ → FinishResult
  finished : List ℕ → FinishResult

pub data EntryType : Type 0 where
  file dir : EntryType

-- `struct fs_dirent`; an empty name ends a directory
pub record Dirent : Type 0 where
  pub type : EntryType
  pub size : ℕ
  pub name : List ℕ

pub data OpenFlags : Type 0 where
  read_only create_write create create_rdwr : OpenFlags

-- fs_*; a function has one file open at a time, so the handle is not an argument
pub data FsCall : Type 0 where
  stat : List ℕ → FsCall
  open_file : List ℕ → OpenFlags → FsCall
  read : ℕ → FsCall
  write : List ℕ → FsCall
  seek_set : ℕ → FsCall
  sync : FsCall
  close_file : FsCall
  unlink mkdir opendir : List ℕ → FsCall
  readdir closedir : FsCall
  mount unmount : FsCall
  statvfs : List ℕ → FsCall

-- flash_area_*
pub data FlashCall : Type 0 where
  open_area : ℕ → FlashCall
  erase : ℕ → ℕ → FlashCall
  write_area : ℕ → List ℕ → FlashCall
  flatten : ℕ → ℕ → FlashCall  -- the offset, and the size
  close_area : FlashCall

-- MCUboot and sys_reboot
pub data BootCall : Type 0 where
  fetch_active_slot request_upgrade img_confirmed write_img_confirmed reboot : BootCall

-- psa_hash_*; an answer is the `psa_status_t`
pub data PsaCall : Type 0 where
  crypto_init hash_setup : PsaCall
  hash_update : List ℕ → PsaCall
  hash_abort hash_finish : PsaCall

-- disk_access_ioctl
pub data DiskCall : Type 0 where
  ctrl_init get_sector_count get_sector_size ctrl_deinit : DiskCall

abbrev pub FsAnswer : FsCall → Type 0
FsAnswer (stat p) = ℤ × Dirent
FsAnswer (read n) = ReadResult
FsAnswer readdir = ℤ × Dirent
FsAnswer _ = ℤ

abbrev pub BootAnswer : BootCall → Type 0
BootAnswer fetch_active_slot = ℕ
BootAnswer img_confirmed = Bool
BootAnswer reboot = Unit {0}
BootAnswer _ = ℤ

abbrev pub PsaAnswer : PsaCall → Type 0
PsaAnswer hash_finish = FinishResult
PsaAnswer _ = ℤ

abbrev pub DiskAnswer : DiskCall → Type 0
DiskAnswer ctrl_init = ℤ
DiskAnswer ctrl_deinit = ℤ
DiskAnswer _ = ℤ × ℕ
