-- ===== src/Libvirt/Actions.antt =====
-- What the methods of src/monitor/libvirt/client.cc do to the host, and how they end.
use cgroup_monitor.Prelude.Words.{sub64}
use cgroup_monitor.Prelude.{
  length, take, min, ℕ, Bool, Option, none, some, List, [], ◌∷◌, ◌++◌, Text, if◌then◌else◌,
}

-- What is done to the host: calls on the file system, subprocesses that are waited for, and calls
-- of libvirt on a domain.
pub data Action : Type 0 where
  create_directories : Text → Action
  copy_file : Text → Text → Action
  chmod : Text → ℕ → Action
  write_file : Text → Text → Action
  remove_file : Text → Action
  sub_process : Text → List Text → Text → Action
  destroy_domain undefine_domain : Option ℕ → Action

-- How a method ends, with its actions: with a result, by a `LibvirtError`, by `exit`, or not yet.
pub data Run (A : Type 0) : Type 0 where
  did : List Action → A → Run A
  throws : List Action → Run A
  exits : List Action → Run A
  waits : List Action → Run A

unfoldable pub after : {A : Type 0} → List Action → Run A → Run A
after acts (did more a) = did (acts ++ more) a
after acts (throws more) = throws (acts ++ more)
after acts (exits more) = exits (acts ++ more)
after acts (waits more) = waits (acts ++ more)

infixl 5 ◌>>=◌ ◌>>◌
unfoldable pub ◌>>=◌ : {A B : Type 0} → Run A → (A → Run B) → Run B
unfolding after
did acts a >>= f = after acts (f a)
throws acts >>= f = throws acts
exits acts >>= f = exits acts
waits acts >>= f = waits acts

unfoldable pub ◌>>◌ : {B : Type 0} → Run (Unit {0}) → Run B → Run B
unfolding ◌>>=◌
m >> n = m >>= λ _. n

unfoldable pub act : Action → Run (Unit {0})
act a = did (a ∷ []) tt

-- The first result of a loop that asks again and again; `none` says that it still asks.
unfoldable pub await : {A B : Type 0} → (A → Option B) → List A → Option B
await f [] = none
await f (x ∷ xs) = let rest = await f xs in elim (f x) [ none ↦ rest | some b ↦ some b ]

-- A subprocess whose failure is only printed.
unfoldable pub process : Text → List Text → Text → Run (Unit {0})
unfolding act
process cmd args dir = act (sub_process cmd args dir)

-- An action that throws when it fails.
unfoldable pub attempt : (Action → Bool) → Action → Run (Unit {0})
unfolding act
attempt succeeds a = if succeeds a then act a else throws []

-- A text without its last byte.
unfoldable pub chop : Text → Text
chop s = take (min (sub64 (length s) 1) (length s)) s
