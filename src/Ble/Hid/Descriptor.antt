-- ===== src/Ble/Hid/Descriptor.antt =====
-- A reader of HID report descriptors, as a host has one: what the descriptor of src/ble_rc.c says of
-- an input report, and which keys a report of those bytes shows.
use esp32s3_szpi_sta.Base.{
  ℕ, zero, suc, ◌+◌, ◌*◌, ◌/◌, ◌%◌, ◌^◌, ◌&&◌, List, [], ◌∷◌, ◌++◌, leb, ◌==◌, if◌then◌else◌, take,
  drop, length,
}

-- the number of bytes, the least significant first
unfoldable pub little_endian : List ℕ → ℕ
little_endian [] = 0
little_endian (b ∷ bs) = b + 256 * little_endian bs

-- A short item: its prefix without the two bits for the size, and its data.
pub record Item : Type 0 where
  pub kind : ℕ
  pub content : ℕ

-- the bytes of data behind a prefix
abbrev data_size : ℕ → ℕ
data_size prefix = if prefix % 4 == 3 then 4 else prefix % 4

unfoldable pub items : ℕ → List ℕ → List Item
items zero bs = []
items (suc fuel) [] = []
items (suc fuel) (p ∷ bs) =
    record { kind = p / 4; content = little_endian (take (data_size p) bs) }
    ∷ items fuel (drop (data_size p) bs)

-- The global items. Bounds are read without a sign, as where the minimum is not negative.
pub record Globals : Type 0 where
  pub logical_minimum : ℕ
  pub logical_maximum : ℕ
  pub report_size : ℕ
  pub report_id : ℕ
  pub report_count : ℕ

abbrev globals0 : Globals
globals0 = record {
  logical_minimum = 0;
  logical_maximum = 0;
  report_size = 0;
  report_id = 0;
  report_count = 0;
}

-- the prefixes 0x14, 0x24, 0x74, 0x84 and 0x94
abbrev set_global : Item → Globals → Globals
set_global i g =
    if i.kind == 5
    then record g { logical_minimum = i.content }
    else if i.kind == 9
    then record g { logical_maximum = i.content }
    else if i.kind == 29
    then record g { report_size = i.content }
    else if i.kind == 33
    then record g { report_id = i.content }
    else if i.kind == 37
    then record g { report_count = i.content }
    else g

-- the fields of the input report `id`: the globals at each Input item, whose prefix is 0x80
unfoldable pub inputs : ℕ → Globals → List Item → List Globals
inputs id g [] = []
inputs id g (i ∷ is) =
    let rest = inputs id (set_global i g) is in
    if i.kind == 32 && g.report_id == id then g ∷ rest else rest

unfoldable pub fields : List ℕ → ℕ → List Globals
fields descriptor id = inputs id globals0 (items (length descriptor) descriptor)

abbrev pub bits : List Globals → ℕ
bits [] = 0
bits (f ∷ fs) = f.report_size * f.report_count + bits fs

-- `count` values of `size` bits each
unfoldable pub values : ℕ → ℕ → ℕ → List ℕ
values size zero n = []
values size (suc count) n = n % 2 ^ size ∷ values size count (n / 2 ^ size)

-- the values within the bounds of the field and other than 0, which means no key
unfoldable pub shown : Globals → List ℕ → List ℕ
shown f [] = []
shown f (v ∷ vs) =
    let rest = shown f vs in
    if leb 1 v && leb f.logical_minimum v && leb v f.logical_maximum then v ∷ rest else rest

unfoldable pub field_keys : List Globals → ℕ → List ℕ
field_keys [] n = []
field_keys (f ∷ fs) n =
    shown f (values f.report_size f.report_count n)
    ++ field_keys fs (n / 2 ^ (f.report_size * f.report_count))

-- the keys that a report shows
unfoldable pub keys : List Globals → List ℕ → List ℕ
keys fs report = field_keys fs (little_endian report)
