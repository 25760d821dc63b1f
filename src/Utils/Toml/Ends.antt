-- ===== src/Utils/Toml/Ends.antt =====
-- How a run of the parser ends, with a rule for each step that reads a token: over a content that ends
-- with a line feed there is fuel for each token, and a place to go back to.
use cgroup_monitor.Prelude.{
  ℕ, zero, suc, ◌+◌, ◌^◌, ◌≤◌, ◌<◌, ◌≡◌, ◌≢◌, refl, subst, Bool, true, false, Option, none, some,
  List, if◌then◌else◌, Text, text_eq, text_eq_iff, arith, [], ◌∷◌, ◌++◌, ◌==◌,
}
use cgroup_monitor.Utils.Tokenizer.{Tokenizer, find, is_prefix, rewind, skip}
use cgroup_monitor.Utils.Tokenizer.Ready.{Ready, Reads, Undone, Found, next-Found, pos}
use cgroup_monitor.Utils.Config.{ConfigError}
use cgroup_monitor.Utils.Toml.{
  Parsed, done, fails, no_number, Parser, pass, token_of, token, back_to, back, assert_msg, number,
  string_loop, parse_string, Start, brace, bracket, truth, falsehood, fraction, whole, quote,
  start_of, by_start,
}

-- The run ends: with a result that has the property, or by an error or an exception, but not
-- without fuel or without a location.
pub data Ends {A : Type 0} (P : A → Tokenizer → Type 0) : Parsed A → Type 0 where
  ends : {a : A} {t : Tokenizer} → P a t → Ends P (done a t)
  refused : {e : ConfigError} → Ends P (fails e)
  unread : Ends P no_number

pub Ends-pass :
    {A B : Type 0} {P : A → Tokenizer → Type 0} {Q : B → Tokenizer → Type 0} {m : Parsed A}
    {f : A → Parser B}
    → Ends P m
    → ((a : A) (t : Tokenizer) → P a t → Ends Q (f a t))
    → Ends Q (pass m f)
Ends-pass (ends p) k = k _ _ p
Ends-pass refused k = refused
Ends-pass unread k = unread

pub Ends-weaken :
    {A : Type 0} {P Q : A → Tokenizer → Type 0} {m : Parsed A}
    → Ends P m
    → ((a : A) (t : Tokenizer) → P a t → Q a t)
    → Ends Q m
Ends-weaken (ends p) k = ends (k _ _ p)
Ends-weaken refused k = refused
Ends-weaken unread k = unread

pub Ends-if :
    {A : Type 0} {Q : A → Tokenizer → Type 0} (b : Bool) (p q : Parser A) (t : Tokenizer)
    → (b ≡ true → Ends Q (p t))
    → (b ≡ false → Ends Q (q t))
    → Ends Q ((if b then p else q) t)
Ends-if true p q t h k = h refl
Ends-if false p q t h k = k refl

-- The starts of a value that reads further tokens.
abbrev pub Opens : Start → Type 0
Opens brace = Unit
Opens bracket = Unit
Opens truth = ⊥
Opens falsehood = ⊥
Opens fraction = ⊥
Opens whole = ⊥
Opens (quote mark) = Unit

pub Ends-by_start :
    {A : Type 0} {Q : A → Tokenizer → Type 0} (s : Start) (d a y n f i : Parser A)
    (q : Text → Parser A) (t : Tokenizer)
    → (Opens s → Ends Q (d t))
    → (Opens s → Ends Q (a t))
    → Ends Q (y t)
    → Ends Q (n t)
    → Ends Q (f t)
    → Ends Q (i t)
    → ((mark : Text) → Opens s → Ends Q (q mark t))
    → Ends Q (by_start s d a y n f i q t)
Ends-by_start brace d a y n f i q t hd ha hy hn hf hi hq = hd tt
Ends-by_start bracket d a y n f i q t hd ha hy hn hf hi hq = ha tt
Ends-by_start truth d a y n f i q t hd ha hy hn hf hi hq = hy
Ends-by_start falsehood d a y n f i q t hd ha hy hn hf hi hq = hn
Ends-by_start fraction d a y n f i q t hd ha hy hn hf hi hq = hf
Ends-by_start whole d a y n f i q t hd ha hy hn hf hi hq = hi
Ends-by_start (quote mark) d a y n f i q t hd ha hy hn hf hi hq = hq mark tt

-- Neither the end of the content nor a line feed opens a value.
pub Opens-start_of : (x : Text) → Opens (start_of x) → (x ≢ []) × (x ≢ 10 ∷ [])
unfolding start_of text_eq find is_prefix
Opens-start_of x o =
    (λ e. subst (λ y. Opens (start_of y)) e o, λ e. subst (λ y. Opens (start_of y)) e o)

pub not_eq : (x y : Text) → text_eq x y ≡ false → x ≢ y
not_eq x y other e = absurd (ground (arith, other, (text_eq_iff x y).1 e))

-- The bytes of `marks`.
abbrev pub mark_bytes : List ℕ
mark_bytes = 91 ∷ 93 ∷ 123 ∷ 125 ∷ 61 ∷ 44 ∷ 39 ∷ 34 ∷ 32 ∷ 10 ∷ 9 ∷ 13 ∷ 35 ∷ []

module _ (n : ℕ) (short : n < 2 ^ 31) where
  -- A token behind the place where the reading began.
  abbrev pub Read : Tokenizer → Text → Tokenizer → Type 0
  Read = Reads mark_bytes refl n short

  -- A tokenizer of the content, at a place or behind it.
  abbrev pub At : {A : Type 0} → ℕ → A → Tokenizer → Type 0
  At q a t = Ready mark_bytes n t × (q ≤ pos n t)

  token_of-Ends :
      (t : Tokenizer) (r : Option (Text × Tokenizer))
      → Found mark_bytes refl n short t r
      → Ends (Read t) (token_of r)
  token_of-Ends t none f = absurd f
  token_of-Ends t (some r) f = ends f

  pub token-Ends : (t : Tokenizer) → Ready mark_bytes n t → Ends (Read t) (token t)
  unfolding token
  token-Ends t r =
      token_of-Ends t _ (next-Found mark_bytes refl n short _ t r (omega (arith, r.size)))

  back_to-Ends :
      (t : Tokenizer) (r : Option Tokenizer)
      → Undone mark_bytes refl n short t r
      → Ends (At {A = Unit {0}} (pos n t)) (back_to r)
  back_to-Ends t none u = absurd u
  back_to-Ends t (some t0) u = ends u

  pub back-Ends :
      (t : Tokenizer) (x : Text) (t' : Tokenizer)
      → Read t x t'
      → Ends (At {A = Unit {0}} (pos n t)) (back t')
  unfolding back
  back-Ends t x t' r = back_to-Ends t (rewind t') r.undone

  -- Behind an assertion its test holds.
  pub assert_msg-Ends :
      (t : Tokenizer) (x : Text) (b : Bool) (t' : Tokenizer)
      → Read t x t'
      → Ends (λ _ t''. Read t x t'' × (b ≡ true)) (assert_msg b t')
  unfolding assert_msg
  assert_msg-Ends t x true t' r = ends (r, refl)
  assert_msg-Ends t x false t' r = Ends-pass (back-Ends t x t' r) (λ _ t0 u. refused)

  -- One of the bytes that the grammar asks for stands behind the start.
  pub Read-mark :
      (t : Tokenizer) (x : Text) (t' : Tokenizer) (c : ℕ)
      → Read t x t'
      → text_eq x (c ∷ []) ≡ true
      → (c == 10) ≡ false
      → pos n t < pos n t'
  Read-mark t x t' c r e other =
      let same : x ≡ c ∷ [] = (text_eq_iff x (c ∷ [])).0 e in
      r.farther (λ e'. absurd (cc)) (λ e'. absurd (ground (arith, other, same, e')))

  pub skip-Ready : (b : Bool) (t : Tokenizer) → Ready mark_bytes n t → Ready mark_bytes n (skip b t)
  unfolding skip
  skip-Ready b t r = record {
    size = r.size;
    line_end = r.line_end;
    separators = r.separators;
    marks_comments = r.marks_comments;
    within = r.within;
    at_end = r.at_end;
  }

  pub number-Ends :
      {A : Type 0} (q : ℕ) (r : Option A) (t : Tokenizer)
      → Ready mark_bytes n t
      → q ≤ pos n t
      → Ends (At q) (number r t)
  number-Ends q none t h k = unread
  number-Ends q (some a) t h k = ends (h, k)

  string_loop-Ends :
      (fuel : ℕ) (mark out : Text) (t : Tokenizer)
      → Ready mark_bytes n t
      → n < fuel + t.cursor
      → Ends (At (pos n t)) (string_loop fuel mark out t)
  unfolding string_loop
  string_loop-Ends zero mark out t r h = absurd (omega (arith, r.within))
  string_loop-Ends (suc fuel) mark out t r h = Ends-pass (token-Ends t r) (λ x t1 read.
      Ends-if (text_eq x []) _ _ t1 (λ _. refused)
        (λ more.
          Ends-if (text_eq x mark) _ _ t1 (λ _. ends (read.ready, read.forth))
            (λ _.
              Ends-weaken
                (string_loop-Ends fuel mark (out ++ x) t1 read.ready
                  (omega (arith, read.moves (not_eq x [] more), h)))
                (λ _ t2 (r2, forth). (r2, omega (arith, forth, read.forth))))))

  pub parse_string-Ends :
      (fuel : ℕ) (mark : Text) (t : Tokenizer)
      → Ready mark_bytes n t
      → n < fuel + t.cursor
      → Ends (At (pos n t)) (parse_string fuel mark t)
  unfolding parse_string skip
  parse_string-Ends fuel mark t r h =
      Ends-pass (string_loop-Ends fuel mark [] (skip false t) (skip-Ready false t r) h)
        (λ out t1 (r1, forth). ends (skip-Ready true t1 r1, forth))
