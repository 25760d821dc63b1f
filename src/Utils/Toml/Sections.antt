-- ===== src/Utils/Toml/Sections.antt =====
-- What `dump` wrote, `parse` reads back.
use cgroup_monitor.Prelude.{
  ℕ, zero, suc, ◌+◌, ◌^◌, ◌<◌, ◌≤◌, ◌≡◌, refl, ap, subst, ◌∙◌, true, [], ◌∷◌, ◌++◌, Text, All,
  arith, length, length-append, text_eq, text_eq_iff,
}
use cgroup_monitor.Floats.{Floats}
use cgroup_monitor.Utils.Tokenizer.{Tokenizer, new_tokenizer}
use cgroup_monitor.Utils.Tokenizer.Separated.{text_eq-some}
use cgroup_monitor.Utils.Config.{
  Value, long, float, str, bool, arr, dic, Dict, entries_end, entry, insert,
}
use cgroup_monitor.Utils.Config.Lookup.{IsSorted}
use cgroup_monitor.Utils.Dump.Toml.{dump}
use cgroup_monitor.Utils.Toml.{
  Numbers, done, assert_msg, parse_dict, parse_sections, parse, marks, blanks, comments,
}
use cgroup_monitor.Utils.Toml.Lexed.{Left, IsWord, IsBlank}
use cgroup_monitor.Utils.Toml.Tokens.{token-word, token-mark, token-end}
use cgroup_monitor.Utils.Toml.Written.{
  written, IsWritable, ReadsBack, value-written, Lacks-apart, newline-IsBlank, equals-IsPlain,
}
use cgroup_monitor.Utils.Toml.Layout.{
  lines, AreWritable, insert_all, insert_all-same, sections_text, head_text, AreSections, longer,
  shorter, dump-text,
}

module _ {F : Floats} (N : Numbers F) (show_float : F.Float → Text) where
  -- One line.
  entry-read :
      (fuel : ℕ) (acc : Dict F) (k : Text) (v : Value F) (t : Tokenizer) (tail : Text)
      → ReadsBack N
      → IsWord k
      → IsWritable v
      → length (written v tail) ≤ fuel
      → Left true t (10 ∷ (k ++ 32 ∷ 61 ∷ 32 ∷ written v tail))
      → (t' : Tokenizer) × (parse_dict N (suc (suc fuel)) true acc t
          ≡ parse_dict N (suc fuel) true (insert k v acc) t')
        × Left true t' (10 ∷ tail)
  unfolding parse_dict assert_msg
  entry-read fuel acc k v t tail reads wk wv h r =
      let name =
        token-word t (10 ∷ []) k 32 (61 ∷ 32 ∷ written v tail) r (newline-IsBlank.1, tt) wk refl in
      let eq =
        token-mark name.behind (32 ∷ []) 61 (32 ∷ written v tail) name.after (newline-IsBlank.0, tt)
          refl equals-IsPlain.1 in
      let (t', e, l) = value-written N fuel v eq.behind tail reads wv h eq.after in
      let not_end = text_eq-some k wk.1 in
      let not_section = Lacks-apart k 91 [] wk.0.0 in
      let same = (text_eq_iff (61 ∷ []) (61 ∷ [])).1 refl in
      (t', rw (name.reads, not_end, not_section, eq.reads, same, e) refl, l)

  -- The loop of a section ends in front of the next one.
  section-end :
      (fuel : ℕ) (acc rest : Dict F) (t : Tokenizer)
      → AreSections rest
      → Left true t (10 ∷ sections_text rest)
      → (t' : Tokenizer) × (parse_dict N (suc fuel) true acc t ≡ done acc t')
        × Left true t' (head_text rest)
  unfolding parse_dict text_eq
  section-end fuel acc entries_end t w r =
      let e = token-end t (10 ∷ []) r (newline-IsBlank.1, tt) in
      (e.at, rw (e.reads, e.returns) refl, e.before)
  section-end fuel acc (entry k (dic d) rest) t w r =
      let m =
        token-mark t (10 ∷ 10 ∷ []) 91 _ r (newline-IsBlank.1, (newline-IsBlank.1, tt)) refl
          equals-IsPlain.2 in
      (m.at, rw (m.reads, m.returns) refl, m.before)
  section-end fuel acc (entry k (long n) rest) t w r = absurd w
  section-end fuel acc (entry k (float x) rest) t w r = absurd w
  section-end fuel acc (entry k (str s) rest) t w r = absurd w
  section-end fuel acc (entry k (bool b) rest) t w r = absurd w
  section-end fuel acc (entry k (arr a) rest) t w r = absurd w

  lines-read :
      (fuel : ℕ) (acc d rest : Dict F) (t : Tokenizer)
      → ReadsBack N
      → AreWritable d
      → AreSections rest
      → length (lines d (sections_text rest)) + 2 ≤ fuel
      → Left true t (10 ∷ lines d (sections_text rest))
      → (t' : Tokenizer) × (parse_dict N fuel true acc t ≡ done (insert_all acc d) t')
        × Left true t' (head_text rest)
  unfolding insert_all
  lines-read zero acc d rest t reads w s h r = absurd (omega arith)
  lines-read (suc zero) acc d rest t reads w s h r = absurd (omega arith)
  lines-read (suc (suc fuel)) acc entries_end rest t reads w s h r =
      section-end (suc fuel) acc rest t s r
  lines-read (suc (suc fuel)) acc (entry k v d) rest t reads (wk, wv, ws) s h r =
      let tail = lines d (sections_text rest) in
      let n = length-append k (32 ∷ 61 ∷ 32 ∷ written v tail) in
      let l = longer v tail wv in
      let (t1, e, r1) = entry-read fuel acc k v t tail reads wk wv (omega (arith, n, h)) r in
      let (t2, e', r2) =
        lines-read (suc fuel) (insert k v acc) d rest t1 reads ws s (omega (arith, n, h, l)) r1 in
      (t2, e ∙ e', r2)

  -- One section.
  section-read :
      (fuel : ℕ) (acc : Dict F) (g k : Text) (d rest : Dict F) (t : Tokenizer)
      → ReadsBack N
      → All IsBlank g
      → IsWord k
      → AreWritable d
      → IsSorted d
      → AreSections rest
      → length (lines d (sections_text rest)) + 2 ≤ fuel
      → Left true t (g ++ 91 ∷ (k ++ 93 ∷ 10 ∷ lines d (sections_text rest)))
      → (t' : Tokenizer) × (parse_sections N (suc fuel) acc t
          ≡ parse_sections N fuel (insert k (dic d) acc) t')
        × Left true t' (head_text rest)
  unfolding parse_sections assert_msg text_eq
  section-read fuel acc g k d rest t reads bs wk w sorted s h r =
      let more = 10 ∷ lines d (sections_text rest) in
      let opens = token-mark t g 91 (k ++ 93 ∷ more) r bs refl equals-IsPlain.2 in
      let name = token-word opens.behind [] k 93 more opens.after tt wk refl in
      let close = token-mark name.behind [] 93 more name.after tt refl equals-IsPlain.3 in
      let (t', e, l) = lines-read fuel entries_end d rest close.behind reads w s h close.after in
      (t', rw (opens.reads, name.reads, close.reads, e, insert_all-same d sorted) refl, l)

  sections-read :
      (fuel : ℕ) (acc rest : Dict F) (g : Text) (t : Tokenizer)
      → ReadsBack N
      → AreSections rest
      → All IsBlank g
      → length (head_text rest) ≤ fuel
      → Left true t (g ++ head_text rest)
      → (t' : Tokenizer) × (parse_sections N fuel acc t ≡ done (insert_all acc rest) t')
  unfolding insert_all parse_sections assert_msg text_eq
  sections-read zero acc entries_end g t reads w bs h r = absurd (omega arith)
  sections-read (suc fuel) acc entries_end g t reads w bs h r =
      let e = token-end t g r bs in (e.behind, rw (e.reads) refl)
  sections-read zero acc (entry k (dic d) rest) g t reads w bs h r = absurd (omega arith)
  sections-read (suc fuel) acc (entry k (dic d) rest) g t reads (wk, wd, sorted, s) bs h r =
      let n = length-append k (93 ∷ 10 ∷ lines d (sections_text rest)) in
      let (t1, e, r1) =
        section-read fuel acc g k d rest t reads bs wk wd sorted s (omega (arith, n, h, wk.1)) r in
      let (t2, e') =
        sections-read fuel (insert k (dic d) acc) rest [] t1 reads s tt
          (omega (arith, n, h, wk.1, shorter d rest s wd)) r1 in
      (t2, e ∙ e')
  sections-read fuel acc (entry k (long n) rest) g t reads w bs h r = absurd w
  sections-read fuel acc (entry k (float x) rest) g t reads w bs h r = absurd w
  sections-read fuel acc (entry k (str s) rest) g t reads w bs h r = absurd w
  sections-read fuel acc (entry k (bool b) rest) g t reads w bs h r = absurd w
  sections-read fuel acc (entry k (arr a) rest) g t reads w bs h r = absurd w

  opened :
      (fuel : ℕ) (d : Dict F) (t : Tokenizer)
      → ReadsBack N
      → AreSections d
      → length (sections_text d) ≤ fuel
      → Left true t (sections_text d)
      → (t' : Tokenizer) × (parse_sections N fuel entries_end t
          ≡ done (insert_all entries_end d) t')
  opened fuel entries_end t reads s h r =
      sections-read fuel entries_end entries_end [] t reads s tt h r
  opened fuel (entry k (dic d) rest) t reads s h r =
      sections-read fuel entries_end (entry k (dic d) rest) (10 ∷ []) t reads s
        (newline-IsBlank.1, tt) (omega (arith, h)) r
  opened fuel (entry k (long n) rest) t reads s h r = absurd s
  opened fuel (entry k (float x) rest) t reads s h r = absurd s
  opened fuel (entry k (str x) rest) t reads s h r = absurd s
  opened fuel (entry k (bool b) rest) t reads s h r = absurd s
  opened fuel (entry k (arr a) rest) t reads s h r = absurd s

  new_tokenizer-Left :
      (content : Text)
      → length content + 1 < 2 ^ 31
      → Left true (new_tokenizer content marks blanks comments) (content ++ 10 ∷ [])
  unfolding new_tokenizer
  new_tokenizer-Left content short = record {
    separators = refl;
    skipping = refl;
    commenting = refl;
    skips_now = refl;
    left = refl;
    place = omega arith;
    short = omega (arith, short, length-append content (10 ∷ []));
  }

  -- If `std::stoi` reads what a stream writes of an `int`, a dict in order whose values are sections, in
  -- order, of `int`s and of texts without a double quote or a hash, under nonempty keys without marks or
  -- blanks, is read back from what `dump` writes of it, if that has fewer than 2 ^ 31 - 1 bytes, with fuel
  -- beyond its length.
  pub parse-dump :
      (fuel : ℕ) (d : Dict F)
      → ReadsBack N
      → AreSections d
      → IsSorted d
      → length (dump show_float d) + 1 < 2 ^ 31
      → length (dump show_float d) + 1 ≤ fuel
      → (t : Tokenizer) × (parse N fuel (dump show_float d) ≡ done d t)
  unfolding parse
  parse-dump fuel d reads s sorted short h =
      let content = dump show_float d in
      let e = dump-text show_float d s in
      let (t', e') =
        opened fuel d (new_tokenizer content marks blanks comments) reads s
          (omega (arith, h, ap length e, length-append content (10 ∷ [])))
          (subst (Left true _) e (new_tokenizer-Left content short)) in
      (t', e' ∙ ap (λ (x : Dict F). done x t') (insert_all-same d sorted))
