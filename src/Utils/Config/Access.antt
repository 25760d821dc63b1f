-- ===== src/Utils/Config/Access.antt =====
-- The typed reads of a dict, against each other and against the writes.
use cgroup_monitor.Prelude.{
  ◌≡◌, ◌≢◌, ◌↔◌, ◌⊎◌, inl, inr, refl, Bool, true, false, Option, none, some, Text,
}
use cgroup_monitor.Prelude.Words.{ℤ}
use cgroup_monitor.Floats.{Floats}
use cgroup_monitor.Utils.Config.{
  Kind, Value, long, float, str, bool, arr, dic, Dict, lookup, get_int, get_float, get, get_or_int,
  get_or, has_number, of_kind, int_of, float_from, is_number, Outcome, returns, throws, not_found,
  long_kind,
}

module _ {F : Floats} where
  -- What an optional read does under a name, against the strict one.
  abbrev pub Defaults : {B : Type 0} → Option (Value F) → B → Outcome B → Outcome B → Type 0
  Defaults found b strict optional =
      ((found ≡ none) × (optional ≡ returns b)) ⊎ ((found ≢ none) × (optional ≡ strict))

  is_number-int : (v : Value F) → (is_number v ≡ true) ↔ ((n : ℤ) × (int_of v ≡ returns n))
  unfolding is_number int_of
  is_number-int (long n) = (λ h. (_, refl), λ h. refl)
  is_number-int (float x) = (λ h. (_, refl), λ h. refl)
  is_number-int (str s) = (λ h. cc, λ (n, e). cc)
  is_number-int (bool b) = (λ h. cc, λ (n, e). cc)
  is_number-int (arr a) = (λ h. cc, λ (n, e). cc)
  is_number-int (dic d) = (λ h. cc, λ (n, e). cc)

  is_number-float :
      (v : Value F) → (is_number v ≡ true) ↔ ((x : F.Float) × (float_from long_kind v ≡ returns x))
  unfolding is_number float_from
  is_number-float (long n) = (λ h. (_, refl), λ h. refl)
  is_number-float (float x) = (λ h. (_, refl), λ h. refl)
  is_number-float (str s) = (λ h. cc, λ (n, e). cc)
  is_number-float (bool b) = (λ h. cc, λ (n, e). cc)
  is_number-float (arr a) = (λ h. cc, λ (n, e). cc)
  is_number-float (dic d) = (λ h. cc, λ (n, e). cc)

  -- The cases of a lookup, for any test that says whether a use of the value returns.
  found-Returns :
      {B : Type 0} (test : Value F → Bool) (use_it : Value F → Outcome B) (k : Text)
      → ((v : Value F) → (test v ≡ true) ↔ ((b : B) × (use_it v ≡ returns b)))
      → (o : Option (Value F))
      → (elim o [ none ↦ false | some v ↦ test v ] ≡ true)
        ↔ ((b : B) × (elim o [ none ↦ throws (not_found k) | some v ↦ use_it v ] ≡ returns b))
  found-Returns test use_it k each none = (λ h. cc, λ (b, e). cc)
  found-Returns test use_it k each (some v) = each v

  found-Defaults :
      {B : Type 0} (use_it : Value F → Outcome B) (k : Text) (b : B) (o : Option (Value F))
      → Defaults o b
          (elim o [ none ↦ throws (not_found k) | some v ↦ use_it v ])
          (elim o [ none ↦ returns b | some v ↦ use_it v ])
  found-Defaults use_it k b none = inl (refl, refl)
  found-Defaults use_it k b (some v) = inr (λ e. cc, refl)

  -- `has_int` says exactly when `get_int` returns, and `has_float` when `get_float` does.
  pub has_number-get :
      (k : Text) (d : Dict F)
      → ((has_number k d ≡ true) ↔ ((n : ℤ) × (get_int k d ≡ returns n)))
        × ((has_number k d ≡ true) ↔ ((x : F.Float) × (get_float k d ≡ returns x)))
  unfolding has_number get_int get_float
  has_number-get k d = (
    found-Returns is_number int_of k is_number-int (lookup k d),
    found-Returns is_number (float_from long_kind) k is_number-float (lookup k d),
  )

  -- The optional reads of a whole number and of a value of a given kind: the default for a name that
  -- is not there, and what the strict read does, its error included, for one that is.
  pub get_or-Defaults :
      (k : Text) (n : ℤ) (kind : Kind) (v : Value F) (d : Dict F)
      → Defaults (lookup k d) n (get_int k d) (get_or_int k n d)
        × Defaults (lookup k d) v (get kind k d) (get_or kind k v d)
  unfolding get_or_int get_int get_or get
  get_or-Defaults k n kind v d =
      (found-Defaults int_of k n (lookup k d), found-Defaults (of_kind kind) k v (lookup k d))
