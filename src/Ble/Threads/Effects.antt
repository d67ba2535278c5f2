-- ===== src/Ble/Threads/Effects.antt =====
-- What the functions of the BLE part do to a state and to the calls, as the laws that an invariant has
-- to keep: one for each assignment to a shared variable, and for the calls that matter to one.
use esp32s3_szpi_sta.Base.{
  ℕ, ◌<◌, ◌≡◌, Bool, true, false, Option, some, List, [], ◌∷◌, ℤ, foldl, is_zero,
}
use esp32s3_szpi_sta.Ble.State.{Link, Addr, Ble}
use esp32s3_szpi_sta.Ble.Adv.{bond_find, note_peer}
use esp32s3_szpi_sta.Ble.Keys.{pressed, released, input_ccc_changed, write_ctrl_point}
use esp32s3_szpi_sta.Ble.Interleave.{run_sem}
use esp32s3_szpi_sta.Zephyr.Calls.{
  Call, Answer, AdvParam, bt, adv_start, adv_stop, adv_ended, conn_get_dst, give_run_sem,
  take_run_sem,
}
use esp32s3_szpi_sta.Zephyr.Prog.{Trace}
use esp32s3_szpi_sta.Zephyr.Holds.{Admits}

-- the calls with a law of their own
abbrev pub matters : Call → Bool
matters (bt (adv_start p id)) = true
matters (bt adv_stop) = true
matters (bt adv_ended) = true
matters (bt give_run_sem) = true
matters (bt (take_run_sem b)) = true
matters _ = false

pub record Moves (D : Admits) (P : Ble → Trace → Type 0) : Type 0 where
  pub called :
      (b : Ble) (t : Trace) (c : Call) (r : Answer c) → matters c ≡ false → P b t → P b ((c, r) ∷ t)
  -- the controller is asked to start, or to stop, and does or does not
  pub started :
      (b : Ble) (t : Trace) (p : AdvParam) (id : Option ℤ) (r : ℤ)
      → b.is_adv_running ≡ false
      → is_zero r ≡ true
      → P b t
      → P (record b { is_adv_running = true }) ((bt (adv_start p id), r) ∷ t)
  pub not_started :
      (b : Ble) (t : Trace) (p : AdvParam) (id : Option ℤ) (r : ℤ)
      → b.is_adv_running ≡ false
      → is_zero r ≡ false
      → P b t
      → P b ((bt (adv_start p id), r) ∷ t)
  pub stopped :
      (b : Ble) (t : Trace) (r : ℤ)
      → b.is_adv_running ≡ true
      → is_zero r ≡ true
      → P b t
      → P (record b { is_adv_running = false }) ((bt adv_stop, r) ∷ t)
  pub not_stopped :
      (b : Ble) (t : Trace) (r : ℤ)
      → b.is_adv_running ≡ true
      → is_zero r ≡ false
      → P b t
      → P b ((bt adv_stop, r) ∷ t)
  pub adv_over :
      (b : Ble) (t : Trace)
      → P b t
      → P (record b { is_adv_running = false }) ((bt adv_ended, tt) ∷ t)
  -- the semaphore of the check thread
  pub given : (b : Ble) (t : Trace) → P b t → P b ((bt give_run_sem, tt) ∷ t)
  pub taken :
      (b : Ble) (t : Trace)
      → P b t
      → 0 < run_sem t
      → P (record b { bt_ck_running = true }) ((bt (take_run_sem b), b) ∷ t)
  -- the assignments
  pub told : (b : Ble) (t : Trace) → P b t → P (record b { bt_ck_running = false }) t
  pub moded : (w : Bool) (b : Ble) (t : Trace) → P b t → P (record b { wakeup_adv_mode = w }) t
  pub bonded :
      (a : Option Addr) (b : Ble) (t : Trace) → P b t → P (record b { last_paired_addr = a }) t
  pub linked : (l : Link) (b : Ble) (t : Trace) → P b t → P (record b { btrc_st = l }) t
  pub noted :
      (dst : Option Addr) (b : Ble) (t u : Trace)
      → D u (bt conn_get_dst) dst
      → P b t
      → P (note_peer dst b) t
  pub reported :
      (key : ℕ) (b : Ble) (t : Trace)
      → key < 256
      → P b t
      → P (record b { report_val = pressed key }) t
  pub unreported : (b : Ble) (t : Trace) → P b t → P (record b { report_val = released }) t
  pub allowed : (value : ℕ) (b : Ble) (t : Trace) → P b t → P (input_ccc_changed value b) t
  pub written :
      (buf : List ℕ) (offset : ℕ) (b : Ble) (t : Trace)
      → P b t
      → P (write_ctrl_point buf offset b).1 t

module _ {D : Admits} {P : Ble → Trace → Type 0} (M : Moves D P) where
  -- the walk over the bonds, which keeps the last one
  pub bonds-Moves :
      (b : Ble) (t : Trace) (bonds : List Addr) → P b t → P (foldl bond_find b bonds) t
  unfolding bond_find
  bonds-Moves b t [] h = h
  bonds-Moves b t (a ∷ bonds) h = bonds-Moves (bond_find b a) t bonds (M.bonded (some a) b t h)
