-- ===== src/Libvirt/Paths.antt =====
-- What src/monitor/libvirt uses of `std::filesystem::path`.
use cgroup_monitor.Prelude.{Bool, true, false, [], ◌∷◌, ◌++◌, Text, if◌then◌else◌, ◌==◌}

abbrev pub is_absolute : Text → Bool
is_absolute [] = false
is_absolute (c ∷ cs) = c == b'/'

-- Nothing is put between the empty path, or one that ends with a slash, and the next name.
unfoldable pub needs_slash : Text → Bool
needs_slash [] = false
needs_slash (c ∷ []) = if c == b'/' then false else true
needs_slash (c ∷ d ∷ cs) = needs_slash (d ∷ cs)

-- `operator/`.
unfoldable pub join : Text → Text → Text
join p q = if is_absolute q then q else (if needs_slash p then p ++ b'/' ∷ q else p ++ q)
