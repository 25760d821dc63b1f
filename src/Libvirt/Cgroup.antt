-- ===== src/Libvirt/Cgroup.antt =====
-- src/monitor/libvirt/controller/cgroup.{hh,cc}: the files of one vCPU's control group.
-- A read of a file is an argument: the number or the bytes that the stream delivers.
pub mod Tree
pub mod Search
use cgroup_monitor.Prelude.{
  ℕ, zero, suc, ◌-◌, ◌/◌, ◌%◌, ◌^◌, Bool, Option, none, some, [], ◌∷◌, Text, if◌then◌else◌, ◌==◌,
}
use cgroup_monitor.Prelude.Words.{word}

-- What `setLimit` writes into the limit file; a quota is a `long`, given by its bit pattern.
pub data Limit : Type 0 where
  v2_max : ℕ → Limit
  v2_quota : ℕ → ℕ → Limit
  v1_quota : ℕ → Limit

pub record Cgroup : Type 0 where
  pub vm_name : Text
  pub v2 : Bool
  -- The last line written to the limit file.
  pub limit : Option Limit

-- The constructor: `v2` says whether /sys/fs/cgroup/cgroup.controllers could be opened.
unfoldable pub new_cgroup : Text → Bool → Cgroup
new_cgroup name v2 = record { vm_name = name; v2 = v2; limit = none }

-- -1 as a `long`.
abbrev pub minus_one : ℕ
minus_one = word - 1

unfoldable pub set_limit : Cgroup → ℕ → ℕ → Cgroup
set_limit g nb_micros period = record g {
  limit = some (
      if g.v2
      then (if nb_micros == minus_one then v2_max period else v2_quota nb_micros period)
      else v1_quota nb_micros);
}

-- The counter is in microseconds under v2 and in nanoseconds under v1; the result is an
-- `unsigned int`.
unfoldable pub read_usage : Cgroup → ℕ → ℕ
read_usage g counter = if g.v2 then counter % 2 ^ 32 else counter / 1000 % 2 ^ 32

-- The scan of `readCpu` for the 39th blank of the line: `none` when it runs past the buffer.
unfoldable pub skip_blanks : ℕ → Text → Option Text
skip_blanks n [] = none
skip_blanks zero (c ∷ cs) = none
skip_blanks (suc n) (c ∷ cs) =
    if c == b' '
    then (if n == 0 then some (c ∷ cs) else skip_blanks n cs)
    else skip_blanks (suc n) cs

-- `strtol` is the library's; the content is what `fread` delivered, `none` if the file is not there.
unfoldable pub read_cpu : (Text → ℕ) → Option Text → Option ℕ
unfolding skip_blanks
read_cpu strtol none = some 0
read_cpu strtol (some content) = elim (skip_blanks 39 content) [
  | none ↦ none
  | some field ↦ some (strtol field % 2 ^ 32)
]
