-- ===== src/Net/Addr/Packed.antt =====
-- An address packed into one number.
use cgroup_monitor.Prelude.{ℕ, ◌+◌, ◌*◌, ◌/◌, ◌%◌, ◌^◌, ◌<◌, ◌≡◌, arith}
use cgroup_monitor.Prelude.Words.{ℤ, pos, negsuc}
use cgroup_monitor.Net.Addr.{Ipv4, wrap, ipv4_of_full, to_n}

-- The four parts are bytes.
pub record AreBytes (i : Ipv4) : Type 0 where
  pub a_fits : i.a < 256
  pub b_fits : i.b < 256
  pub c_fits : i.c < 256
  pub d_fits : i.d < 256

wrap_lt : (full : ℤ) → wrap (2 ^ 32) full < 2 ^ 32
wrap_lt (pos n) = omega arith
wrap_lt (negsuc n) = omega arith

abbrev parts : ℕ → ℕ
parts n =
    n % 256
    + 256 * (n / 256 % 256)
    + 65_536 * (n / 65_536 % 256)
    + 16_777_216 * (n / 16_777_216 % 256)

parts_lem : (n : ℕ) → n < 2 ^ 32 → parts n ≡ n
parts_lem n h =
    let b : n / 65_536 ≡ n / 256 / 256 = omega arith in
    let c : n / 16_777_216 ≡ n / 65_536 / 256 = omega arith in omega arith

-- Packed means with the first part in the lowest byte. An address made of any `int` has four bytes and packs
-- into the same 32 bits. An address of four bytes packs into less than 2 ^ 32, from which the same address is
-- made again.
pub to_n-ipv4_of_full :
    (full : ℤ) (i : Ipv4)
    → AreBytes i
    → AreBytes (ipv4_of_full full)
      × (to_n (ipv4_of_full full) ≡ wrap (2 ^ 32) full)
      × (to_n i < 2 ^ 32)
      × (ipv4_of_full (pos (to_n i)) ≡ i)
unfolding ipv4_of_full to_n
to_n-ipv4_of_full full i r =
    let n = wrap (2 ^ 32) full in
    let m = to_n i in
    let fits : m < 2 ^ 32 = omega (arith, r.a_fits, r.b_fits, r.c_fits, r.d_fits) in
    let small : m % 2 ^ 32 ≡ m = omega (arith, fits) in
    let a : m % 2 ^ 32 % 256 ≡ i.a = omega (arith, small, r.a_fits) in
    let b : m % 2 ^ 32 / 256 % 256 ≡ i.b = omega (arith, small, r.a_fits, r.b_fits) in
    let c : m % 2 ^ 32 / 65_536 % 256 ≡ i.c = omega (arith, small, r.a_fits, r.b_fits, r.c_fits) in
    let d : m % 2 ^ 32 / 16_777_216 % 256 ≡ i.d =
      omega (arith, small, r.a_fits, r.b_fits, r.c_fits, r.d_fits) in
    (
      record {
        a_fits = omega arith;
        b_fits = omega arith;
        c_fits = omega arith;
        d_fits = omega arith;
      },
      parts_lem n (wrap_lt full),
      fits,
      λ k. record { a = a k; b = b k; c = c k; d = d k },
    )
