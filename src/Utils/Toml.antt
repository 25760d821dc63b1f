-- ===== src/Utils/Toml.antt =====
-- The parser of src/monitor/utils/toml.cc. Its recursion is on fuel; each `next` has the fuel that it
-- needs for the whole content. `std::stoi` and `std::stof` are the library's.
pub mod Ordered
pub mod Ends
pub mod Total
pub mod Lexed
pub mod Tokens
pub mod Quoted
pub mod Written
pub mod Layout
pub mod Sections
use cgroup_monitor.Prelude.{
  ℕ, zero, suc, ◌+◌, Bool, true, false, ◌&&◌, ◌||◌, Option, none, some, List, [], ◌∷◌, ◌++◌, Text,
  codes, text_eq, if◌then◌else◌, length, ◌==◌,
}
use cgroup_monitor.Prelude.Words.{ℤ}
use cgroup_monitor.Floats.{Floats}
use cgroup_monitor.Utils.Tokenizer.{Tokenizer, new_tokenizer, next, rewind, skip, line_number, find}
use cgroup_monitor.Utils.Config.{
  Value, long, float, str, bool, arr, dic, Array, items_end, push, Dict, entries_end, insert,
  ConfigError, unexpected,
}

-- Numbers from texts; `none` is the exception that they throw.
pub record Numbers (F : Floats) : Type 0 where
  pub stoi : Text → Option ℤ
  pub stof : Text → Option F.Float

-- How a parser ends: with a result, by an error of the configuration, by an exception of `std::stoi`
-- or `std::stof`, by a `rewind` with nowhere to go, or out of fuel.
pub data Parsed (A : Type 0) : Type 0 where
  done : A → Tokenizer → Parsed A
  fails : ConfigError → Parsed A
  no_number : Parsed A
  no_location : Parsed A
  no_fuel : Parsed A

abbrev pub Parser : Type 0 → Type 0
Parser A = Tokenizer → Parsed A

abbrev pub pass : {A B : Type 0} → Parsed A → (A → Parser B) → Parsed B
pass (done a t) f = f a t
pass (fails e) f = fails e
pass no_number f = no_number
pass no_location f = no_location
pass no_fuel f = no_fuel

infixl 5 ◌>>=◌ ◌>>◌
abbrev pub ◌>>=◌ : {A B : Type 0} → Parser A → (A → Parser B) → Parser B
(p >>= f) t = pass (p t) f

abbrev pub ◌>>◌ : {B : Type 0} → Parser (Unit {0}) → Parser B → Parser B
(p >> q) t = pass (p t) (λ _. q)

abbrev pub give : {A : Type 0} → A → Parser A
give a t = done a t

abbrev pub token_of : Option (Text × Tokenizer) → Parsed Text
token_of none = no_fuel
token_of (some (x, t)) = done x t

unfoldable pub token : Parser Text
token t = token_of (next (length t.content + 2) t)

abbrev pub back_to : Option Tokenizer → Parsed (Unit {0})
back_to none = no_location
back_to (some t) = done tt t

unfoldable pub back : Parser (Unit {0})
back t = back_to (rewind t)

abbrev pub skipping : Bool → Parser (Unit {0})
skipping enable t = done tt (skip enable t)

abbrev pub fail_here : {A : Type 0} → Parser A
fail_here t = fails (unexpected (line_number t))

unfoldable pub assert_msg : Bool → Parser (Unit {0})
unfolding back
assert_msg true = give tt
assert_msg false = back >>= λ _. fail_here

abbrev pub number : {A : Type 0} → Option A → Parser A
number none t = no_number
number (some a) t = done a t

module _ {F : Floats} (N : Numbers F) where
  unfoldable pub parse_int : Parser (Value F)
  unfolding token
  parse_int = do x ← token; n ← number (N.stoi x); give (long n)

  unfoldable pub parse_float : Parser (Value F)
  unfolding token
  parse_float = do x ← token; y ← number (N.stof x); give (float y)

-- The loop of `parse_string`, with what the stream holds.
unfoldable pub string_loop : ℕ → Text → Text → Parser Text
unfolding token
string_loop zero mark out t = no_fuel
string_loop (suc fuel) mark out t =
    (do
      x ← token
      if text_eq x []
          then fail_here
          else (if text_eq x mark then give out else string_loop fuel mark (out ++ x)))
      t

unfoldable pub parse_string : ℕ → Text → Parser Text
unfolding string_loop
parse_string fuel mark = do skipping false; out ← string_loop fuel mark []; skipping true; give out

-- What `parse_value` reads: the kinds of its first token.
pub data Start : Type 0 where
  brace bracket truth falsehood fraction whole : Start
  quote : Text → Start

abbrev pub has_point : Option ℕ → Start
has_point none = whole
has_point (some i) = fraction

unfoldable pub start_of : Text → Start
start_of x =
    if text_eq x (codes "{")
    then brace
    else (if text_eq x (codes "[")
        then bracket
        else (if text_eq x (codes "'") || text_eq x (codes "\"")
            then quote x
            else (if text_eq x (codes "false")
                then falsehood
                else (if text_eq x (codes "true") then truth else has_point (find (codes ".") x)))))

abbrev pub by_start :
    {A : Type 0}
    → Start
    → (dict array yes_bool no_bool float_lit int_lit : Parser A) → (Text → Parser A)
    → Parser A
by_start brace d a y n f i s = d
by_start bracket d a y n f i s = a
by_start truth d a y n f i s = y
by_start falsehood d a y n f i s = n
by_start fraction d a y n f i s = f
by_start whole d a y n f i s = i
by_start (quote mark) d a y n f i s = s mark

abbrev pub marks : List Text
marks =
    codes "["
    ∷ codes "]"
    ∷ codes "{"
    ∷ codes "}"
    ∷ codes "="
    ∷ codes ","
    ∷ codes "'"
    ∷ codes "\""
    ∷ codes " "
    ∷ codes "\n"
    ∷ codes "\t"
    ∷ codes "\r"
    ∷ codes "#"
    ∷ []

abbrev pub blanks : List Text
blanks = codes " " ∷ codes "\t" ∷ codes "\n" ∷ codes "\r" ∷ []

abbrev pub comments : List Text
comments = codes "#" ∷ []

module _ {F : Floats} (N : Numbers F) where
  -- `parse_value`, and the loops of `parse_array` and `parse_dict` with what they have read.
  unfoldable mutual
    unfolding token back assert_msg parse_string start_of parse_int parse_float

    pub parse_value : ℕ → Parser (Value F)
    parse_value zero t = no_fuel
    parse_value (suc fuel) t =
        (token >>= λ begin.
        by_start (start_of begin) (parse_dict fuel false entries_end >>= λ d. give (dic d))
          (parse_array fuel items_end >>= λ a. give (arr a)) (give (bool true)) (give (bool false))
          (back >> parse_float N) (back >> parse_int N)
          (λ mark. parse_string fuel mark >>= λ s. give (str s)))
          t

    pub parse_array : ℕ → Array F → Parser (Array F)
    parse_array zero a t = no_fuel
    parse_array (suc fuel) a t =
        (do
          x ← token
          if text_eq x (codes "]") then give a else (do
            back
            v ← parse_value fuel
            y ← token
            assert_msg (text_eq y (codes ",") || text_eq y (codes "]"))
            if text_eq y (codes "]") then give (push a v) else parse_array fuel (push a v)))
          t

    pub parse_dict : ℕ → Bool → Dict F → Parser (Dict F)
    parse_dict zero glob d t = no_fuel
    parse_dict (suc fuel) glob d t =
        (do
          name ← token
          if text_eq name [] || text_eq name (codes "[") then back >> give d else (do
            eq ← token
            assert_msg (text_eq eq (codes "="))
            v ← parse_value fuel
            if glob then parse_dict fuel glob (insert name v d) else (do
              y ← token
              assert_msg (text_eq y (codes "}") || text_eq y (codes ","))
              if text_eq y (codes "}")
                  then give (insert name v d)
                  else parse_dict fuel glob (insert name v d))))
          t

  -- The loop of `parse` over the sections.
  unfoldable pub parse_sections : ℕ → Dict F → Parser (Dict F)
  unfolding token assert_msg parse_value
  parse_sections zero d t = no_fuel
  parse_sections (suc fuel) d t =
      (do
        x ← token
        assert_msg (text_eq x (codes "[") || text_eq x [] || text_eq x (codes "#"))
        if text_eq x (codes "[")
            then (do
              name ← token
              close ← token
              assert_msg (text_eq close (codes "]"))
              content ← parse_dict fuel true entries_end
              parse_sections fuel (insert name (dic content) d))
            else give d)
        t

  unfoldable pub parse : ℕ → Text → Parsed (Dict F)
  unfolding parse_sections
  parse fuel content = parse_sections fuel entries_end (new_tokenizer content marks blanks comments)
