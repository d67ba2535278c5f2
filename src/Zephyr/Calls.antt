-- ===== src/Zephyr/Calls.antt =====
-- The functions of Zephyr, MCUboot and PSA that the firmware calls, with their arguments and the
-- form of their answers. What they answer is left open: it is the environment's.
mod Storage
mod Bluetooth
mod Network
pub use Storage.*
pub use Bluetooth.*
pub use Network.*
use esp32s3_szpi_sta.Base.{ℕ, ℤ, Bool}

pub data KernelCall : Type 0 where
  malloc : ℕ → KernelCall
  free : KernelCall
  sleep : ℕ → KernelCall  -- milliseconds
  uptime rand8 : KernelCall

pub data Call : Type 0 where
  fs : FsCall → Call
  flash : FlashCall → Call
  boot : BootCall → Call
  psa : PsaCall → Call
  kernel : KernelCall → Call
  bt : BtCall → Call
  net : NetCall → Call
  posix : PosixCall → Call
  slist : SlistCall → Call
  wifi : WifiCall → Call
  disk : DiskCall → Call

abbrev pub KernelAnswer : KernelCall → Type 0
KernelAnswer (malloc n) = Bool
KernelAnswer uptime = ℕ
KernelAnswer rand8 = ℕ
KernelAnswer _ = Unit {0}

abbrev pub Answer : Call → Type 0
Answer (fs c) = FsAnswer c
Answer (flash c) = ℤ
Answer (boot c) = BootAnswer c
Answer (psa c) = PsaAnswer c
Answer (kernel c) = KernelAnswer c
Answer (bt c) = BtAnswer c
Answer (net c) = NetAnswer c
Answer (posix c) = PosixAnswer c
Answer (slist c) = SlistAnswer c
Answer (wifi c) = WifiAnswer c
Answer (disk c) = DiskAnswer c
