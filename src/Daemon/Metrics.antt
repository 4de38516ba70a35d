-- ===== src/Daemon/Metrics.antt =====
-- internal/metrics/metrics.go: the readers of /proc and the sampler. A file is its text, or `none`
-- where it cannot be read. A uint64 wraps around at 2 ^ 64. A percentage is the fraction that it is
-- computed from, before it is rounded as a float64.
pub mod Ticks
use sshcustom_vpnchain.Base.{
  ℕ, zero, suc, ◌+◌, ◌-◌, ◌*◌, ◌%◌, ◌^◌, not, ◌&&◌, Option, none, some, List, [], ◌∷◌, ltb, leb,
  ◌==◌, if◌then◌else◌, length, drop, is_empty, all, Bytes, codes, str_eq,
}
use mathlib.Core.Option
use sshcustom_vpnchain.Base.Text.{has_prefix}
use sshcustom_vpnchain.Base.Decimal.{is_digit, spelled}
use sshcustom_vpnchain.Net.HostPort.{cut_last}
use sshcustom_vpnchain.Transport.{split_lines, fields_onto}

abbrev pub uint64 : ℕ
uint64 = 2 ^ 64

-- `strconv.ParseUint(s, 10, 64)`.
unfoldable pub parse_uint : Bytes → Option ℕ
parse_uint s =
    if not (is_empty s) && (all is_digit s && ltb (spelled 0 s) uint64)
    then some (spelled 0 s)
    else none

abbrev pub field_at : ℕ → List Bytes → Option Bytes
field_at i [] = none
field_at zero (f ∷ fs) = some f
field_at (suc i) (f ∷ fs) = field_at i fs

abbrev pub number_of : Option Bytes → Option ℕ
number_of none = none
number_of (some f) = parse_uint f

or_zero : Option ℕ → ℕ
or_zero none = 0
or_zero (some v) = v

-- The sum of the fields that are numbers.
sum_of : ℕ → List Bytes → ℕ
unfolding or_zero
sum_of total [] = total
sum_of total (f ∷ fs) = sum_of ((total + or_zero (parse_uint f)) % uint64) fs

first_line : List Bytes → Bytes
first_line [] = []
first_line (l ∷ ls) = l

-- `readSystemCPUTicks`.
unfoldable pub read_system_cpu_ticks : Option Bytes → Option ℕ
unfolding sum_of first_line split_lines fields_onto
read_system_cpu_ticks none = none
read_system_cpu_ticks (some b) =
    let line = first_line (split_lines b) in
    let total = sum_of 0 (drop 1 (fields_onto [] line)) in
    if has_prefix line (codes "cpu ") && ltb 0 total then some total else none

-- `utime + stime`, where both are numbers.
abbrev pub ticks_sum : Option ℕ → Option ℕ → Option ℕ
ticks_sum (some u) (some s) = some ((u + s) % uint64)
ticks_sum _ _ = none

abbrev pub ticks_of : List Bytes → Option ℕ
ticks_of fields =
    let ticks = ticks_sum (number_of (field_at 11 fields)) (number_of (field_at 12 fields)) in
    if ltb (length fields) 13 then none else ticks

-- Behind the last `)`.
abbrev pub behind_name : Option (Bytes × Bytes) → Option ℕ
behind_name none = none
behind_name (some (before, after)) =
    if leb (length after) 1 then none else ticks_of (fields_onto [] (drop 1 after))

-- `readProcessCPUTicks`.
unfoldable pub read_process_cpu_ticks : Option Bytes → Option ℕ
read_process_cpu_ticks none = none
read_process_cpu_ticks (some s) = behind_name (cut_last b')' s)

pages_of : Option ℕ → ℕ → ℕ
pages_of none page_size = 0
pages_of (some pages) page_size = pages * page_size % uint64

-- `readRSSBytes`; the second field counts pages.
unfoldable pub read_rss_bytes : ℕ → Option Bytes → ℕ
unfolding pages_of fields_onto
read_rss_bytes page_size none = 0
read_rss_bytes page_size (some b) = pages_of (number_of (field_at 1 (fields_onto [] b))) page_size

-- `strings.TrimSuffix(s, ":")`.
without_colon : Bytes → Bytes
without_colon [] = []
without_colon (c ∷ s) = if c == b':' && is_empty s then [] else c ∷ without_colon s

-- A line of /proc/meminfo onto the total and what is available.
mem_line : List Bytes → ℕ × ℕ → ℕ × ℕ
unfolding without_colon
mem_line (name ∷ value ∷ rest) (total, avail) = elim (parse_uint value) [
  | none ↦ (total, avail)
  | some v ↦
      if str_eq (without_colon name) (codes "MemTotal")
      then (v * 1024 % uint64, avail)
      else if str_eq (without_colon name) (codes "MemAvailable")
      then (total, v * 1024 % uint64)
      else (total, avail)
]
mem_line _ found = found

mem_lines : List Bytes → ℕ × ℕ → ℕ × ℕ
unfolding mem_line fields_onto
mem_lines [] found = found
mem_lines (l ∷ ls) found = mem_lines ls (mem_line (fields_onto [] l) found)

-- `readMemInfoBytes`.
unfoldable pub read_mem_info_bytes : Option Bytes → ℕ × ℕ
unfolding mem_lines split_lines
read_mem_info_bytes none = (0, 0)
read_mem_info_bytes (some b) = mem_lines (split_lines b) (0, 0)

-- What one sample finds in /proc, and the number of goroutines.
pub record Proc : Type 0 where
  pub stat : Option Bytes
  pub self_stat : Option Bytes
  pub statm : Option Bytes
  pub meminfo : Option Bytes
  pub page_size : ℕ
  pub goroutines : ℕ

-- `Snapshot`; a percentage is a part and its whole, and `none` where it stays 0.
pub record Snapshot : Type 0 where
  pub cpu : Option (ℕ × ℕ)
  pub memory_rss_bytes : ℕ
  pub system_mem_total : ℕ
  pub system_mem_avail : ℕ
  pub system_mem_used : Option (ℕ × ℕ)
  pub goroutines : ℕ

pub record Sampler : Type 0 where
  pub last_sys_ticks : ℕ
  pub last_proc_ticks : ℕ

-- The part of the processor's time, by the ticks of this sample and the last; a difference wraps.
cpu_part : Sampler → Option ℕ → Option ℕ → Option (ℕ × ℕ)
cpu_part s (some sys) (some proc) =
    if ltb 0 s.last_sys_ticks && ltb s.last_sys_ticks sys
    then some ((proc + uint64 - s.last_proc_ticks) % uint64, sys - s.last_sys_ticks)
    else none
cpu_part s _ _ = none

kept_or : ℕ → Option ℕ → ℕ
kept_or old none = old
kept_or old (some new) = new

-- `Sampler.Sample`.
unfoldable pub sample : Proc → Sampler → Snapshot × Sampler
unfolding cpu_part kept_or
sample p s =
    let sys = read_system_cpu_ticks p.stat in
    let proc = read_process_cpu_ticks p.self_stat in
    let (total, avail) = read_mem_info_bytes p.meminfo in
    (
      record {
        cpu = cpu_part s sys proc;
        memory_rss_bytes = read_rss_bytes p.page_size p.statm;
        system_mem_total = total;
        system_mem_avail = avail;
        system_mem_used =
            if ltb 0 total && leb avail total then some (total - avail, total) else none;
        goroutines = p.goroutines;
      },
      record {
        last_sys_ticks = kept_or s.last_sys_ticks sys;
        last_proc_ticks = kept_or s.last_proc_ticks proc;
      },
    )

-- The snapshots of a run of the sampler, from its start on.
unfoldable pub samples : Sampler → List Proc → Sampler
unfolding sample
samples s [] = s
samples s (p ∷ ps) = samples (sample p s).1 ps

abbrev pub new_sampler : Sampler
new_sampler = record { last_sys_ticks = 0; last_proc_ticks = 0 }
