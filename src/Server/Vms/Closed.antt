-- ===== src/Server/Vms/Closed.antt =====
-- A connection that failed, or that brings nothing.
use cgroup_monitor.Prelude.{
  ℕ, suc, ◌≡◌, ◌⊎◌, inl, inr, refl, ap, ◌∙◌, false, Option, none, some, [], Text, text_eq, arith,
  Bool-cases,
}
use cgroup_monitor.Floats.{Floats}
use cgroup_monitor.Libvirt.Proto.{provision_code}
use cgroup_monitor.Net.Stream.{TcpStream, receive_int, receive}
use cgroup_monitor.Server.Vms.{
  Daemon, serves, Host, treat, dispatch, treat_provision, get_text_of_length, provision_parsed,
  provision_file, refuse,
}
use cgroup_monitor.Utils.Config.{entries_end, lookup, get_dict}
use cgroup_monitor.Utils.Tokenizer.{
  Tokenizer, new_tokenizer, is_prefix, find, scan, width, advance, next_pure, next, one_of,
}
use cgroup_monitor.Utils.Toml.{Numbers, done, token, assert_msg, parse_sections, parse}

-- The text with nothing in it is a configuration with nothing in it.
parse-nil :
    {F : Floats} (N : Numbers F) (fuel : ℕ)
    → (t : Tokenizer) × (parse N (suc fuel) [] ≡ done entries_end t)
unfolding parse parse_sections token assert_msg next one_of text_eq next_pure advance width scan
    find is_prefix new_tokenizer
parse-nil N fuel = (_, refl)

-- A `read` gives nothing, because the stream is closed or because the other side has ended it with nothing sent.
abbrev pub IsSilent : TcpStream → Type 0
IsSilent s = (s.is_open ≡ false) ⊎ ((s.incoming ≡ []) × (s.reads ≡ []))

receive_int-IsSilent :
    (s : TcpStream) → IsSilent s → (s' : TcpStream) × (receive_int s ≡ (0, s')) × IsSilent s'
unfolding receive_int
receive_int-IsSilent s (inl shut) = (s, rw (shut) refl, inl shut)
receive_int-IsSilent s (inr (nothing, whole)) = elim (Bool-cases s.is_open) [
  | inl is_open ↦
      (record s { incoming = [] }, ground (arith, nothing, whole, is_open), inr (refl, whole))
  | inr shut ↦ (s, rw (shut) refl, inl shut)
]

receive-IsSilent : (s : TcpStream) → IsSilent s → (s' : TcpStream) × (receive 0 s ≡ some ([], s'))
unfolding receive
receive-IsSilent s (inl shut) = (s, rw (shut) refl)
receive-IsSilent s (inr (nothing, whole)) = elim (Bool-cases s.is_open) [
  | inl is_open ↦ (s, ground (arith, nothing, whole, is_open))
  | inr shut ↦ (s, rw (shut) refl)
]

module _ {F : Floats} (h : Host F) (d : Daemon F) where
  empty-refused :
      (fuel : ℕ) → h.fuel ≡ suc fuel → (s : TcpStream) → provision_file h d [] s ≡ refuse d s
  unfolding get_dict lookup
  empty-refused fuel e s =
      let (t, p) = parse-nil h.numbers fuel in
      ap (λ (n : ℕ). provision_parsed h d (parse h.numbers n []) s) e
      ∙ ap (λ r. provision_parsed h d r s) p

  -- A connection that failed in `accept`, or that the client ends without sending anything, reads as a request
  -- to provision an empty configuration, which parses, if the parser has fuel: the daemon changes nothing and
  -- does not crash.
  pub treat-IsSilent :
      (fuel : ℕ) (s : TcpStream)
      → h.fuel ≡ suc fuel
      → IsSilent s
      → (behind s' : TcpStream) × (t : Tokenizer) × ((receive_int s).0 ≡ provision_code)
        × (treat h d s ≡ provision_file h d [] behind)
        × (parse h.numbers h.fuel [] ≡ done entries_end t)
        × (treat h d s ≡ some (serves d, s'))
  unfolding treat dispatch treat_provision get_text_of_length refuse
  treat-IsSilent fuel s e v =
      let (s1, e1, v1) = receive_int-IsSilent s v in
      let (s2, e2, v2) = receive_int-IsSilent s1 v1 in
      let (s3, e3) = receive-IsSilent s2 v2 in
      let (t, p) = parse-nil h.numbers fuel in
      let read : treat h d s ≡ provision_file h d [] s3 =
        ap (λ (r : ℕ × TcpStream). dispatch h d r.0 r.1) e1
        ∙ ap
            (λ (r : ℕ × TcpStream). elim (receive r.0 r.1) [
              | none ↦ none
              | some (x, y) ↦ provision_file h d x y
            ])
            e2
        ∙ ap
            (λ (o : Option (Text × TcpStream)). elim o [
              | none ↦ none
              | some (x, y) ↦ provision_file h d x y
            ])
            e3 in
      (
        s3,
        _,
        t,
        ap (λ (r : ℕ × TcpStream). r.0) e1,
        read,
        ap (λ (n : ℕ). parse h.numbers n []) e ∙ p,
        read ∙ empty-refused fuel e s3,
      )
