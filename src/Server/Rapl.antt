-- ===== src/Server/Rapl.antt =====
-- src/server/rapl.{hh,cc}: the energy counters of the two processor packages. What a file holds at a
-- reading is an argument, and so is the extraction of an `unsigned long` from a stream.
pub mod Total
use cgroup_monitor.Prelude.{
  ℕ, Bool, true, false, Option, none, some, Text, drop, ◌+◌, List, [], ◌∷◌,
}
use cgroup_monitor.Prelude.Words.{add64, sub64}

pub record Rapl : Type 0 where
  pub enabled : Bool
  pub value0 : ℕ
  pub value1 : ℕ

-- `checkRaplCapabilities`; a file that is not there is `none`, and the members that are then not
-- assigned are as the constructor finds them: an extraction from a file that is not open leaves them.
module _ (extract : Text → ℕ) where
  abbrev pub first : ℕ → Option Text → ℕ
  first garbage none = garbage
  first garbage (some content) = extract content

  unfoldable pub check_capabilities : (garbage0 garbage1 : ℕ) → Option Text → Option Text → Rapl
  check_capabilities g0 g1 none file1 = record { enabled = false; value0 = g0; value1 = g1 }
  check_capabilities g0 g1 (some content) file1 = record {
    enabled = true;
    value0 = extract content;
    value1 = first g1 file1;
  }

  unfoldable pub read_pp0 : Text → Rapl → ℕ × Rapl
  read_pp0 content r =
      let value = extract content in (sub64 value r.value0, record r { value0 = value })

  -- It seeks to the offset 1.
  unfoldable pub read_pp1 : Text → Rapl → ℕ × Rapl
  read_pp1 content r =
      let value = extract (drop 1 content) in (sub64 value r.value1, record r { value1 = value })

  -- Readings one after another, of both counters in turn: what each reports, summed up.
  unfoldable pub readings : List (Text × Text) → Rapl → ℕ × ℕ × Rapl
  unfolding read_pp0 read_pp1
  readings [] r = (0, 0, r)
  readings ((c0, c1) ∷ cs) r =
      let (d0, r') = read_pp0 c0 r in
      let (d1, r'') = read_pp1 c1 r' in
      let (s0, s1, r3) = readings cs r'' in (add64 d0 s0, add64 d1 s1, r3)
