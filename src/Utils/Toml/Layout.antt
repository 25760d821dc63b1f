-- ===== src/Utils/Toml/Layout.antt =====
-- The text that `dump` writes of sections of plain values.
use cgroup_monitor.Prelude.{
  ◌<◌, ◌≤◌, ◌≡◌, refl, ap, sym, ◌∙◌, [], ◌∷◌, ◌++◌, Text, arith, length, length-append,
}
use mathlib.Core.List.{append_assoc}
use cgroup_monitor.Floats.{Floats}
use cgroup_monitor.Utils.Config.{
  Value, long, float, str, bool, arr, dic, to_int, Dict, entries_end, entry, insert,
}
use cgroup_monitor.Utils.Config.Lookup.{IsSorted}
use cgroup_monitor.Utils.Config.Clone.{
  join, join-front, join-nil, insert-last, join-join, Follows, Follows-join, Follows-nil,
}
use cgroup_monitor.Utils.Dump.{show_int}
use cgroup_monitor.Utils.Dump.Toml.{dump_line, dump_lines, dump_section, dump}
use cgroup_monitor.Utils.Toml.Lexed.{IsWord}
use cgroup_monitor.Utils.Toml.Written.{written, IsWritable}

module _ {F : Floats} where
  -- A line for each entry, in front of a text.
  abbrev pub lines : Dict F → Text → Text
  lines entries_end tail = tail
  lines (entry k v d) tail = k ++ 32 ∷ 61 ∷ 32 ∷ written v (lines d tail)

  -- A section can be written: its keys are words, and its values can be written.
  abbrev pub AreWritable : Dict F → Type 0
  AreWritable entries_end = Unit
  AreWritable (entry k v d) = IsWord k × IsWritable v × AreWritable d

  -- The insertions of a dict, in order.
  unfoldable pub insert_all : Dict F → Dict F → Dict F
  insert_all acc entries_end = acc
  insert_all acc (entry k v d) = insert_all (insert k v acc) d

  pub insert_all-join :
      (d acc : Dict F) → IsSorted d → Follows acc d → insert_all acc d ≡ join acc d
  unfolding insert_all
  insert_all-join entries_end acc s f = sym (join-nil acc)
  insert_all-join (entry k v d) acc (a, s) f =
      ap (λ (e : Dict F). insert_all e d) (insert-last acc k v f)
      ∙ insert_all-join d (join acc (entry k v entries_end)) s (Follows-join acc k v d f a)
      ∙ join-join acc k v d

  pub insert_all-same : (d : Dict F) → IsSorted d → insert_all entries_end d ≡ d
  insert_all-same d s = insert_all-join d entries_end s (Follows-nil d) ∙ join-front d

  -- The text of some sections, and what stands in it from the first bracket on. The last line feed is
  -- the one that the tokenizer adds.
  abbrev pub sections_text : Dict F → Text
  sections_text entries_end = 10 ∷ []
  sections_text (entry k (dic d) rest) = 10 ∷ 91 ∷ (k ++ 93 ∷ 10 ∷ lines d (sections_text rest))
  sections_text (entry k other rest) = []

  abbrev pub head_text : Dict F → Text
  head_text entries_end = 10 ∷ []
  head_text (entry k (dic d) rest) = 91 ∷ (k ++ 93 ∷ 10 ∷ lines d (sections_text rest))
  head_text (entry k other rest) = []

  -- The dicts that are written so that they can be read: each value is a section, whose values are
  -- `int`s and texts that quotes can hold, and all keys are words and in order.
  abbrev pub AreSections : Dict F → Type 0
  AreSections entries_end = Unit
  AreSections (entry k (dic d) rest) = IsWord k × AreWritable d × IsSorted d × AreSections rest
  AreSections (entry k other rest) = ⊥

  pub longer : (v : Value F) (tail : Text) → IsWritable v → length tail < length (written v tail)
  longer (long n) tail w = omega (arith, length-append (show_int (to_int n)) (10 ∷ tail))
  longer (float x) tail w = absurd w
  longer (str s) tail w = omega (arith, length-append s (34 ∷ 10 ∷ tail))
  longer (bool b) tail w = absurd w
  longer (arr a) tail w = absurd w
  longer (dic d) tail w = absurd w

  pub head-shorter :
      (rest : Dict F) → AreSections rest → length (head_text rest) ≤ length (sections_text rest)
  head-shorter entries_end s = omega arith
  head-shorter (entry k (dic d) rest) s = omega arith
  head-shorter (entry k (long n) rest) s = absurd s
  head-shorter (entry k (float x) rest) s = absurd s
  head-shorter (entry k (str x) rest) s = absurd s
  head-shorter (entry k (bool b) rest) s = absurd s
  head-shorter (entry k (arr a) rest) s = absurd s

  pub shorter :
      (d rest : Dict F)
      → AreSections rest
      → AreWritable d
      → length (head_text rest) ≤ length (lines d (sections_text rest))
  shorter entries_end rest s w = head-shorter rest s
  shorter (entry k v d) rest s (wk, wv, ws) =
      let tail = lines d (sections_text rest) in
      omega (
        arith,
        shorter d rest s ws,
        longer v tail wv,
        length-append k (32 ∷ 61 ∷ 32 ∷ written v tail),
      )

module _ {F : Floats} (show_float : F.Float → Text) where
  pub line-written :
      (k : Text) (v : Value F) (tail : Text)
      → IsWritable v
      → dump_line show_float k v ++ (10 ∷ tail) ≡ k ++ 32 ∷ 61 ∷ 32 ∷ written v tail
  unfolding dump_line
  line-written k (long n) tail w = append_assoc k _ (10 ∷ tail)
  line-written k (float x) tail w = absurd w
  line-written k (str s) tail w =
      append_assoc k _ (10 ∷ tail)
      ∙ ap (λ (x : Text). k ++ 32 ∷ 61 ∷ 32 ∷ 34 ∷ x) (append_assoc s (34 ∷ []) (10 ∷ tail))
  line-written k (bool b) tail w = absurd w
  line-written k (arr a) tail w = absurd w
  line-written k (dic d) tail w = absurd w

  pub lines-written :
      (d : Dict F) (tail : Text) → AreWritable d → dump_lines show_float d ++ tail ≡ lines d tail
  unfolding dump_lines
  lines-written entries_end tail w = refl
  lines-written (entry k v d) tail (wk, wv, ws) =
      append_assoc (dump_line show_float k v) (10 ∷ dump_lines show_float d) tail
      ∙ line-written k v (dump_lines show_float d ++ tail) wv
      ∙ ap (λ (x : Text). k ++ 32 ∷ 61 ∷ 32 ∷ written v x) (lines-written d tail ws)

  pub dump-text : (d : Dict F) → AreSections d → dump show_float d ++ 10 ∷ [] ≡ sections_text d
  unfolding dump
  dump-text entries_end s = refl
  dump-text (entry k (dic d) rest) (wk, wd, sorted, s) =
      append_assoc (dump_section show_float k (dic d)) (dump show_float rest) (10 ∷ [])
      ∙ ap (◌++◌ (dump_section show_float k (dic d))) (dump-text rest s)
      ∙ ap (λ (x : Text). 10 ∷ 91 ∷ x)
          (append_assoc k (93 ∷ 10 ∷ dump_lines show_float d) (sections_text rest))
      ∙ ap (λ (x : Text). 10 ∷ 91 ∷ (k ++ 93 ∷ 10 ∷ x)) (lines-written d (sections_text rest) wd)
  dump-text (entry k (long n) rest) s = absurd s
  dump-text (entry k (float x) rest) s = absurd s
  dump-text (entry k (str x) rest) s = absurd s
  dump-text (entry k (bool b) rest) s = absurd s
  dump-text (entry k (arr a) rest) s = absurd s
