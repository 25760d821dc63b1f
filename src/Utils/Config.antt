-- ===== src/Utils/Config.antt =====
-- src/monitor/utils/config.{hh,cc}: the values of a configuration. The types and the contents of an
-- `array` or a `dict`, which the source keeps in two containers, change together and stand here as
-- one: `typeid` is the constructor. The texts of the errors are left out.
pub mod Lookup
pub mod Access
pub mod Clone
use cgroup_monitor.Prelude.{
  ℕ, zero, suc, ◌-◌, ◌%◌, ◌^◌, Bool, true, false, ◌||◌, Option, none, some, List, [], ◌∷◌, Text,
  text_eq, text_less, ltb, if◌then◌else◌,
}
use cgroup_monitor.Prelude.Words.{ℤ, pos, negsuc}
use cgroup_monitor.Floats.{Floats}

mutual
  pub data Value (F : Floats) : Type 0 where
    long : ℤ → Value F
    float : F.Float → Value F
    str : Text → Value F
    bool : Bool → Value F
    arr : Array F → Value F
    dic : Dict F → Value F

  pub data Array (F : Floats) : Type 0 where
    items_end : Array F
    item : Value F → Array F → Array F

  -- A `std::map`: in the order of its keys.
  pub data Dict (F : Floats) : Type 0 where
    entries_end : Dict F
    entry : Text → Value F → Dict F → Dict F

pub data Kind : Type 0 where
  long_kind float_kind str_kind bool_kind arr_kind dic_kind : Kind

pub data ConfigError : Type 0 where
  not_found : Text → ConfigError
  incompatible : Kind → Kind → ConfigError
  out_of_array : ℕ → ℕ → ConfigError
  -- An error of the parser, with its line.
  unexpected : ℕ → ConfigError

-- What is returned, or thrown.
pub data Outcome (A : Type 0) : Type 0 where
  returns : A → Outcome A
  throws : ConfigError → Outcome A

infixl 5 ◌>>=◌
abbrev pub ◌>>=◌ : {A B : Type 0} → Outcome A → (A → Outcome B) → Outcome B
returns a >>= f = f a
throws e >>= f = throws e

-- The conversion of a `long` to `int`.
unfoldable pub to_int : ℤ → ℤ
to_int (pos n) =
    if ltb (n % 2 ^ 32) (2 ^ 31) then pos (n % 2 ^ 32) else negsuc (2 ^ 32 - 1 - n % 2 ^ 32)
to_int (negsuc n) =
    if ltb (n % 2 ^ 32) (2 ^ 31) then negsuc (n % 2 ^ 32) else pos (2 ^ 32 - 1 - n % 2 ^ 32)

unfoldable pub same_kind : Kind → Kind → Bool
same_kind long_kind long_kind = true
same_kind float_kind float_kind = true
same_kind str_kind str_kind = true
same_kind bool_kind bool_kind = true
same_kind arr_kind arr_kind = true
same_kind dic_kind dic_kind = true
same_kind _ _ = false

module _ {F : Floats} where
  open F use {Float, float_of_int, to_long}

  unfoldable pub kind_of : Value F → Kind
  kind_of (long n) = long_kind
  kind_of (float x) = float_kind
  kind_of (str s) = str_kind
  kind_of (bool b) = bool_kind
  kind_of (arr a) = arr_kind
  kind_of (dic d) = dic_kind

  -- What `get_int` and `get_float` do with a value that they have found.
  unfoldable pub int_of : Value F → Outcome ℤ
  int_of (long n) = returns (to_int n)
  int_of (float x) = returns (to_int (to_long x))
  int_of v = throws (incompatible (kind_of v) long_kind)

  -- The error of the `get_float` of a dict names `long`, that of the others `float`.
  unfoldable pub float_from : Kind → Value F → Outcome Float
  float_from k (long n) = returns (float_of_int n)
  float_from k (float x) = returns x
  float_from k v = throws (incompatible (kind_of v) k)

  -- And the other instances of `get`.
  unfoldable pub of_kind : Kind → Value F → Outcome (Value F)
  of_kind k v = if same_kind (kind_of v) k then returns v else throws (incompatible (kind_of v) k)

  -- The instances of `get` and `getOr` for texts and dicts, with the content.
  unfoldable pub text_in : Value F → Outcome Text
  text_in (str s) = returns s
  text_in v = throws (incompatible (kind_of v) str_kind)

  unfoldable pub dict_in : Value F → Outcome (Dict F)
  dict_in (dic d) = returns d
  dict_in v = throws (incompatible (kind_of v) dic_kind)

  unfoldable pub is_number : Value F → Bool
  is_number (long n) = true
  is_number (float x) = true
  is_number v = false

  unfoldable pub size : Array F → ℕ
  size items_end = 0
  size (item v a) = suc (size a)

  unfoldable pub push : Array F → Value F → Array F
  push items_end v = item v items_end
  push (item w a) v = item w (push a v)

  unfoldable pub nth : Array F → ℕ → Option (Value F)
  nth items_end i = none
  nth (item v a) zero = some v
  nth (item v a) (suc i) = nth a i

  -- The three `get` of an array, by what they do with the value.
  abbrev pub at : {B : Type 0} → (Value F → Outcome B) → Array F → ℕ → Outcome B
  at use_it a i = elim (nth a i) [ none ↦ throws (out_of_array i (size a)) | some v ↦ use_it v ]

  unfoldable pub array_get_int : Array F → ℕ → Outcome ℤ
  array_get_int a i = at int_of a i

  unfoldable pub array_get_float : Array F → ℕ → Outcome Float
  array_get_float a i = at (float_from float_kind) a i

  unfoldable pub array_get : Kind → Array F → ℕ → Outcome (Value F)
  array_get k a i = at (of_kind k) a i

  -- `find` of the map.
  unfoldable pub lookup : Text → Dict F → Option (Value F)
  lookup k entries_end = none
  lookup k (entry j v d) = let rest = lookup k d in if text_eq k j then some v else rest

  -- `operator[]` and an assignment: in order, in place of what the key had.
  unfoldable pub insert : Text → Value F → Dict F → Dict F
  insert k v entries_end = entry k v entries_end
  insert k v (entry j w d) =
      let rest = insert k v d in
      if text_eq k j
      then entry j v d
      else (if text_less k j then entry k v (entry j w d) else entry j w rest)

  -- The template `insert`, by `emplace`: a key that is there keeps its value.
  unfoldable pub emplace : Text → Value F → Dict F → Dict F
  unfolding insert
  emplace k v d = elim (lookup k d) [ none ↦ insert k v d | some w ↦ d ]

  unfoldable pub keys : Dict F → List Text
  keys entries_end = []
  keys (entry k v d) = k ∷ keys d

  abbrev pub under : {B : Type 0} → (Value F → Outcome B) → Outcome B → Text → Dict F → Outcome B
  under use_it missing k d = elim (lookup k d) [ none ↦ missing | some v ↦ use_it v ]

  unfoldable pub get_int : Text → Dict F → Outcome ℤ
  get_int k d = under int_of (throws (not_found k)) k d

  unfoldable pub get_float : Text → Dict F → Outcome Float
  get_float k d = under (float_from long_kind) (throws (not_found k)) k d

  unfoldable pub get : Kind → Text → Dict F → Outcome (Value F)
  get kind k d = under (of_kind kind) (throws (not_found k)) k d

  unfoldable pub get_or_int : Text → ℤ → Dict F → Outcome ℤ
  get_or_int k v d = under int_of (returns v) k d

  unfoldable pub get_or_float : Text → Float → Dict F → Outcome Float
  get_or_float k x d = under (float_from float_kind) (returns x) k d

  unfoldable pub get_or : Kind → Text → Value F → Dict F → Outcome (Value F)
  get_or kind k v d = under (of_kind kind) (returns v) k d

  unfoldable pub get_text : Text → Dict F → Outcome Text
  get_text k d = under text_in (throws (not_found k)) k d

  unfoldable pub get_dict : Text → Dict F → Outcome (Dict F)
  get_dict k d = under dict_in (throws (not_found k)) k d

  unfoldable pub get_or_text : Text → Text → Dict F → Outcome Text
  get_or_text k s d = under text_in (returns s) k d

  abbrev pub holds : (Value F → Bool) → Text → Dict F → Bool
  holds test k d = elim (lookup k d) [ none ↦ false | some v ↦ test v ]

  -- `has_int` and `has_float`, which have one body.
  unfoldable pub has_number : Text → Dict F → Bool
  unfolding is_number
  has_number k d = holds is_number k d

  unfoldable pub has : Kind → Text → Dict F → Bool
  has kind k d = holds (λ v. same_kind (kind_of v) kind) k d

-- The deep copy.
unfoldable mutual
  unfolding insert

  pub clone_value : {F : Floats} → Value F → Value F
  clone_value (long n) = long n
  clone_value (float x) = float x
  clone_value (str s) = str s
  clone_value (bool b) = bool b
  clone_value (arr a) = arr (clone_array a)
  clone_value (dic d) = dic (clone_into d entries_end)

  pub clone_array : {F : Floats} → Array F → Array F
  clone_array items_end = items_end
  clone_array (item v a) = item (clone_value v) (clone_array a)

  pub clone_into : {F : Floats} → Dict F → Dict F → Dict F
  clone_into entries_end copy = copy
  clone_into (entry k v d) copy = clone_into d (insert k (clone_value v) copy)
