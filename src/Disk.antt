-- ===== src/Disk.antt =====
-- collector/disk_linux.cpp: disk rates from two readings of /proc/diskstats. A file is `none` if it
-- cannot be opened; the static variables of the function are its state; the clock is an argument. A
-- table is iterated in the order of its list.
pub mod Device
pub mod Baseline
mod Tests
use system_monitoring_dashbo.Prelude.{
  ℕ, ◌+◌, ◌-◌, ◌%◌, ◌^◌, Bool, true, false, not, ◌||◌, Option, none, some, List, [], ◌∷◌,
  if◌then◌else◌,
}
use system_monitoring_dashbo.Prelude.Int.{ℤ, pos}
use system_monitoring_dashbo.Prelude.Text.{Text, codes, starts_with, split_at}
use system_monitoring_dashbo.Prelude.Dict.{Dict, lookup, insert, emplace, or_else, text_key}
use system_monitoring_dashbo.Prelude.Double.{Double}
use system_monitoring_dashbo.Scan.{
  In, open_text, tokens, is_digit, extract_u64, extract_int, extract_word,
}
use system_monitoring_dashbo.Counter.{delta, seconds_between}

abbrev pub is_virtual : Text → Bool
is_virtual n =
    starts_with (codes "loop") n
    || starts_with (codes "ram") n
    || starts_with (codes "sr") n
    || starts_with (codes "fd") n

unfoldable pub is_counted_device : Text → Bool
is_counted_device n = if starts_with (codes "dm-") n then false else not (is_virtual n)

-- `!name.empty() && isdigit(name.back())`
unfoldable pub ends_in_digit : Text → Bool
ends_in_digit [] = false
ends_in_digit (c ∷ []) = is_digit c
ends_in_digit (c ∷ x ∷ name) = ends_in_digit (x ∷ name)

-- `name.find('p') == npos`
abbrev lacks_p : Text → Bool
lacks_p name = elim (split_at b'p' name) [ none ↦ true | some _ ↦ false ]

unfoldable pub is_whole_device : Text → Bool
unfolding ends_in_digit
is_whole_device name =
    if starts_with (codes "dm-") name
    then false
    else if is_virtual name
    then false
    else if starts_with (codes "nvme") name
    then lacks_p name
    else not (ends_in_digit name)

-- The loop of `base_device_name`: the digits at the end removed.
unfoldable pub strip_digits : Text → Text
strip_digits [] = []
strip_digits (c ∷ name) =
    let rest = strip_digits name in
    elim rest [ [] ↦ if is_digit c then [] else c ∷ [] | x ∷ t ↦ c ∷ x ∷ t ]

unfoldable pub base_device_name : Text → Text
unfolding ends_in_digit strip_digits
base_device_name name =
    if starts_with (codes "nvme") name || starts_with (codes "mmcblk") name
    then elim (split_at b'p' name) [ none ↦ name | some (before, after) ↦ before ]
    else if ends_in_digit name
    then strip_digits name
    else name

pub record Row : Type 0 where
  pub name : Text
  pub sectors_read : ℕ
  pub sectors_written : ℕ

-- The numbers of a line behind the name: sectors read and written. `none` if one is malformed.
unfoldable pub read_sectors : In → Option (ℕ × ℕ)
unfolding extract_u64
read_sectors i =
    let (reads_completed, i₁) = extract_u64 0 i in
    let (reads_merged, i₂) = extract_u64 0 i₁ in
    let (sectors_read, i₃) = extract_u64 0 i₂ in
    let (ms_reading, i₄) = extract_u64 0 i₃ in
    let (writes_completed, i₅) = extract_u64 0 i₄ in
    let (writes_merged, i₆) = extract_u64 0 i₅ in
    let (sectors_written, i₇) = extract_u64 0 i₆ in
    let (ms_writing, i₈) = extract_u64 0 i₇ in
    let (ios_in_progress, i₉) = extract_u64 0 i₈ in
    let (ms_doing_io, j₁) = extract_u64 0 i₉ in
    let (weighted_ms_doing_io, j₂) = extract_u64 0 j₁ in
    if j₂.good then some (sectors_read, sectors_written) else none

unfoldable pub add_device : Text → Option (ℕ × ℕ) → Dict Text Row → Dict Text Row
unfolding is_counted_device insert
add_device name none rows = rows
add_device name (some (rd, wr)) rows =
    if is_counted_device name
    then insert name (record { name = name; sectors_read = rd; sectors_written = wr }) rows
    else rows

-- One line of the file.
unfoldable pub read_device : Text → Dict Text Row → Dict Text Row
unfolding extract_int extract_word read_sectors add_device
read_device line rows =
    let (major, i₁) = extract_int (pos 0) (open_text line) in
    let (minor, i₂) = extract_int (pos 0) i₁ in
    let (name, i₃) = extract_word [] i₂ in add_device name (read_sectors i₃) rows

unfoldable pub read_devices : List Text → Dict Text Row → Dict Text Row
unfolding read_device
read_devices [] rows = rows
read_devices (line ∷ lines) rows = read_devices lines (read_device line rows)

unfoldable pub read_diskstats : Option Text → Option (Dict Text Row)
unfolding read_devices tokens
read_diskstats none = none
read_diskstats (some file) = some (read_devices (tokens b'\n' file) [])

-- `DiskInfo`: sectors, in spite of the names.
pub record DiskInfo : Type 0 where
  pub bytes_read : ℕ
  pub bytes_written : ℕ

pub record Delta : Type 0 where
  pub rd : ℕ
  pub wr : ℕ

pub record DiskIo (W : Type 0) : Type 0 where
  pub dev_name : Text
  pub bytes_read_per_s : W
  pub bytes_written_per_s : W

-- The loop that fills `curr_values`.
unfoldable pub disk_values : Dict Text Row → Dict Text DiskInfo → Dict Text DiskInfo
unfolding emplace
disk_values [] values = values
disk_values ((name, r) ∷ rows) values = disk_values rows (
    emplace name (record { bytes_read = r.sectors_read; bytes_written = r.sectors_written }) values)

abbrev add_delta : Text → Option DiskInfo → DiskInfo → Dict Text Delta → Dict Text Delta
add_delta name none curr deltas = deltas
add_delta name (some prev) curr deltas =
    insert name
      (record {
        rd = delta prev.bytes_read curr.bytes_read;
        wr = delta prev.bytes_written curr.bytes_written;
      })
      deltas

-- The loop that fills `deltas`.
unfoldable pub disk_deltas :
    Dict Text DiskInfo → Dict Text DiskInfo → Dict Text Delta → Dict Text Delta
unfolding lookup insert
disk_deltas prev_values [] deltas = deltas
disk_deltas prev_values ((name, curr) ∷ curr_values) deltas =
    disk_deltas prev_values curr_values (add_delta name (lookup name prev_values) curr deltas)

-- `auto& g = by_key[key]; g.rd += d.rd; g.wr += d.wr;`
unfoldable pub add_to_key : Text → Delta → Dict Text Delta → Dict Text Delta
unfolding lookup insert
add_to_key key d by_key =
    let g = or_else (lookup key by_key) (record { rd = 0; wr = 0 }) in
    insert key (record { rd = (g.rd + d.rd) % 2 ^ 64; wr = (g.wr + d.wr) % 2 ^ 64 }) by_key

-- The loop that fills `by_key`; AGGREGATE_PARTITIONS is true.
unfoldable pub aggregate : Dict Text Delta → Dict Text Delta → Dict Text Delta
unfolding add_to_key is_whole_device base_device_name
aggregate [] by_key = by_key
aggregate ((name, d) ∷ deltas) by_key =
    aggregate deltas
      (if is_whole_device name then add_to_key (base_device_name name) d by_key else by_key)

-- The static variables of `get_disk_io`.
pub record DiskState : Type 0 where
  pub prev_values : Dict Text DiskInfo
  pub initialized : Bool
  pub prev_time : ℕ

module _ {W : Type 0} ⦃d : Double W⦄ where
  -- The loop that fills `output`.
  unfoldable pub disk_rates : W → Dict Text Delta → List (DiskIo W)
  disk_rates dt_s [] = []
  disk_rates dt_s ((key, x) ∷ by_key) =
      record {
        dev_name = key;
        bytes_read_per_s = d.div (d.mul (d.of_nat x.rd) (d.of_nat 512)) dt_s;
        bytes_written_per_s = d.div (d.mul (d.of_nat x.wr) (d.of_nat 512)) dt_s;
      }
      ∷ disk_rates dt_s by_key

  -- The output for the values of a reading, and the static variables after the call.
  unfoldable pub disk_step : Dict Text DiskInfo → ℕ → DiskState → List (DiskIo W) × DiskState
  unfolding disk_deltas aggregate disk_rates seconds_between
  disk_step curr_values time_now s =
      let kept : DiskState = record {
        prev_values = curr_values;
        initialized = true;
        prev_time = time_now;
      } in
      let dt_s = seconds_between s.prev_time time_now in
      if not s.initialized
      then ([], kept)
      else if d.le dt_s (d.of_nat 0)
      then ([], kept)
      else (disk_rates dt_s (aggregate (disk_deltas s.prev_values curr_values []) []), kept)

  unfoldable pub disk_io_from :
      Option (Dict Text Row) → ℕ → DiskState → Bool × List (DiskIo W) × DiskState
  unfolding disk_step disk_values
  disk_io_from none time_now s = (false, [], s)
  disk_io_from (some rows) time_now s =
      let (output, kept) = disk_step (disk_values rows []) time_now s in (true, output, kept)

  -- The result, the output and the static variables after a call.
  unfoldable pub get_disk_io : Option Text → ℕ → DiskState → Bool × List (DiskIo W) × DiskState
  unfolding disk_io_from read_diskstats
  get_disk_io file time_now s = disk_io_from (read_diskstats file) time_now s
