-- ===== src/Tests/Configs.antt =====
-- Configurations at concrete values and texts.
use cgroup_monitor.Prelude.{
  Bool, false, arith, ℕ, ◌+◌, ◌*◌, ◌-◌, ◌≡◌, inl, inr, refl, true, some, none, Option, [], ◌∷◌,
  Text, codes, text_eq, text_less,
}
use cgroup_monitor.Prelude.Words.{pos}
use cgroup_monitor.Floats.{plus, fixed}
use cgroup_monitor.Utils.Tokenizer.{
  new_tokenizer, is_prefix, find, scan, width, advance, next_pure, skip_comment, next, rewind,
  one_of, skip,
}
use cgroup_monitor.Libvirt.Vcpu.{Garbage}
use cgroup_monitor.Libvirt.Vm.{Vm, new_vm}
use cgroup_monitor.Libvirt.Vm.Fresh.{Describes, IsFresh, new_vm-IsFresh}
use cgroup_monitor.Utils.Config.{
  dict_in, get_dict, text_in, get_text, is_number, long, str, bool, arr, dic, items_end, item, push,
  Dict, entries_end, entry, lookup, insert, get_int, get, get_or_int, get_or, returns, str_kind,
}
use cgroup_monitor.Utils.Config.Lookup.{IsSorted}
use cgroup_monitor.Utils.Config.Access.{Defaults, get_or-Defaults}
use cgroup_monitor.Utils.Toml.Total.{Outcome, parse-Outcome}
use cgroup_monitor.Utils.Toml.{
  fails, Numbers, Parsed, done, token, back, assert_msg, parse_int, parse_float, string_loop,
  parse_string, start_of, parse_value, parse_sections, parse,
}

-- Digits only.
abbrev digits : Text → ℕ → ℕ
digits [] n = n
digits (c ∷ cs) n = digits cs (n * 10 + (c - 48))

abbrev pub numbers : Numbers fixed
numbers = record { stoi = λ x. some (pos (digits x 0)); stof = λ x. some (plus (digits x 0)) }

abbrev vm_section : Dict fixed
vm_section = entry (codes "disk") (long (pos 100)) (
    entry (codes "name") (str (codes "v 1"))
      (entry (codes "ports") (arr (item (long (pos 22)) (item (bool true) items_end))) entries_end))

abbrev configuration : Dict fixed
configuration = entry (codes "vm") (dic vm_section) entries_end

abbrev result_of : Parsed (Dict fixed) → Option (Dict fixed)
result_of (done d t) = some d
result_of _ = none

parsed :
    result_of (parse numbers 20 (codes "[vm] # one\nname = \"v 1\"\nports=[22, true]\ndisk = 100"))
    ≡ some configuration
unfolding parse parse_sections parse_value parse_int parse_float parse_string string_loop start_of
    token back assert_msg next one_of text_eq next_pure advance width scan find is_prefix
    new_tokenizer skip_comment rewind skip insert text_less push
parsed = refl

parse-Outcome_example : Outcome numbers (parse numbers 60 (codes "[vm]\nname = 'a b\n"))
parse-Outcome_example =
    parse-Outcome numbers 60 (codes "[vm]\nname = 'a b\n") (omega arith) (omega arith)

abbrev pub garbage : ℕ → Garbage fixed
garbage i = record { last_frequency = 7; micro_delta = plus 3; allocated = 5; buying = 11 }

abbrev image_section : Dict fixed
image_section = insert (codes "image") (str (codes "os.img")) vm_section

abbrev imaged : Dict fixed
imaged = entry (codes "vm") (dic image_section) entries_end

image_section-Describes : Describes image_section
unfolding lookup insert text_eq text_less is_number
image_section-Describes = record {
  user = inl refl;
  disk = inr (long (pos 100), refl, refl);
  vcpus = inl refl;
  memory = inl refl;
  frequency = inl refl;
  memory_sla = inl refl;
  ssh_key = inl refl;
}

new_vm-IsFresh_example :
    (vm : Vm fixed) × (new_vm garbage true imaged ≡ returns vm)
    × (vm.id ≡ codes "v 1")
    × (vm.qcow ≡ codes "os.img")
    × IsFresh garbage true vm
unfolding lookup insert text_less text_eq get_dict dict_in get_text text_in
new_vm-IsFresh_example =
    new_vm-IsFresh garbage true imaged image_section (codes "v 1") (codes "os.img") refl refl refl
      image_section-Describes

vm_section-IsSorted : IsSorted vm_section
unfolding text_less
vm_section-IsSorted = ((refl, (refl, tt)), ((refl, tt), (tt, tt)))

get_or-Defaults_example :
    Defaults
      (lookup (codes "disk") vm_section)
      (pos 7)
      (get_int (codes "disk") vm_section)
      (get_or_int (codes "disk") (pos 7) vm_section)
    × Defaults
        (lookup (codes "disk") vm_section)
        (bool true)
        (get str_kind (codes "disk") vm_section)
        (get_or str_kind (codes "disk") (bool true) vm_section)
get_or-Defaults_example = get_or-Defaults (codes "disk") (pos 7) str_kind (bool true) vm_section

abbrev is_refused : Parsed (Dict fixed) → Bool
is_refused (fails e) = true
is_refused _ = false

-- A hash within quotes begins a comment, so the string is not closed.
hash_in_string : is_refused (parse numbers 60 (codes "[a]\nb = 'x#y'\nc = 1\n")) ≡ true
unfolding parse parse_sections parse_value parse_int parse_float parse_string string_loop start_of
    token back assert_msg next one_of text_eq next_pure advance width scan find is_prefix
    new_tokenizer skip_comment rewind skip insert text_less push
hash_in_string = refl
