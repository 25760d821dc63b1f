-- ===== src/Server/Market/Sale/Bounds.antt =====
-- What the sale of the base cycles to one vCPU guarantees.
use cgroup_monitor.Prelude.{
  ℕ, ◌-◌, ◌≤◌, ◌<◌, ◌≡◌, refl, ◌⊎◌, true, false, arith, min, max, if◌then◌else◌,
}
use cgroup_monitor.Prelude.Words.{word, add64, sub64}
use cgroup_monitor.Floats.{Floats}
use cgroup_monitor.Libvirt.Vcpu.{Vcpu, absolute_capping}
use cgroup_monitor.Server.Market.Sale.{
  Config, Sale, deal, sell_base, nominal_cycles, stable_wish, falling_wish, rising_wish, usage,
  is_stable, min_cycles, max_cycles,
}

module _ {F : Floats} where
  open F use {to_ulong_lt, double_to_ulong_lt, flt}

  -- What a vCPU wants: a little more than it used while it is stable, less after a fall below the
  -- lower trigger, more after a rise above the upper one, and otherwise its capping again.
  unfoldable pub wish : Config F → Vcpu F → ℕ
  wish cfg v =
      if is_stable v
      then stable_wish v
      else (if flt (usage v) cfg.trigger_decrement
          then falling_wish cfg v
          else (if flt cfg.trigger_increment (usage v)
              then rising_wish cfg v
              else absolute_capping v))

  falling_wish-ge : (cfg : Config F) (v : Vcpu F) → min_cycles ≤ falling_wish cfg v
  unfolding falling_wish
  falling_wish-ge cfg v = omega arith

  stable_wish-lt : (v : Vcpu F) → stable_wish v < word
  unfolding stable_wish
  stable_wish-lt v = omega arith

  falling_wish-lt : (cfg : Config F) (v : Vcpu F) → v.consumption < word → falling_wish cfg v < word
  unfolding falling_wish
  falling_wish-lt cfg v h = omega (
    arith,
    double_to_ulong_lt (
        F.dmul (F.double_of (absolute_capping v))
          (F.dsub (F.double_lit 1 1) (F.widen cfg.decreasing_speed))),
  )

  rising_wish-lt : (cfg : Config F) (v : Vcpu F) → rising_wish cfg v < word
  unfolding rising_wish
  rising_wish-lt cfg v = double_to_ulong_lt _

  absolute_capping-lt : (v : Vcpu F) → absolute_capping v < word
  unfolding absolute_capping
  absolute_capping-lt v = to_ulong_lt _

  wish-lt : (cfg : Config F) (v : Vcpu F) → v.consumption < word → wish cfg v < word
  unfolding wish
  wish-lt cfg v h = ground (
    arith,
    stable_wish-lt v,
    falling_wish-lt cfg v h,
    rising_wish-lt cfg v,
    absolute_capping-lt v,
  )

  -- The end of the sale to a vCPU that wants `w`.
  abbrev pub Sells : Vcpu F → (nominal w money market : ℕ) → Sale F → Type 0
  Sells v nominal w money market s =
      (s.vcpu.allocated ≡ max min_cycles (min nominal w))
      × (s.market ≡ sub64 market s.vcpu.allocated)
      × ((nominal < w)
            × (s.buys ≡ true)
            × (s.vcpu.buying ≡ min (max_cycles - nominal) (w - nominal))
            × (s.money ≡ money)
          ⊎ (w ≤ nominal)
            × (s.buys ≡ false)
            × (s.vcpu.buying ≡ v.buying)
            × (s.money ≡ add64 money (nominal - w)))

  deal-Sells :
      (v : Vcpu F) (current w nominal money market : ℕ)
      → nominal ≤ max_cycles
      → w < word
      → current ≡ max min_cycles (min nominal w)
      → Sells v nominal w money market (deal v current w nominal money market)
  unfolding deal
  deal-Sells v current w nominal money market h k e = ground arith

  sell_base-eq-deal :
      (cfg : Config F) (v : Vcpu F) (money market : ℕ)
      → min_cycles ≤ nominal_cycles cfg v
      → sell_base cfg v money market
        ≡ deal v
            (max min_cycles (min (nominal_cycles cfg v) (wish cfg v)))
            (wish cfg v)
            (nominal_cycles cfg v)
            money
            market
  unfolding sell_base wish
  sell_base-eq-deal cfg v money market lo = ground (arith, falling_wish-ge cfg v)

  -- When the nominal share of a vCPU lies between the minimum and a full second, it is sold its
  -- wish cut to the range from the minimum to that share, in all four cases of the code. What it
  -- wants beyond the share, up to a full second, it will try to buy, at no charge yet. What it
  -- leaves of its share is credited to its machine.
  pub sell_base-Sells :
      (cfg : Config F) (v : Vcpu F) (money market : ℕ)
      → min_cycles ≤ nominal_cycles cfg v
      → nominal_cycles cfg v ≤ max_cycles
      → v.consumption < word
      → Sells v (nominal_cycles cfg v) (wish cfg v) money market (sell_base cfg v money market)
  sell_base-Sells cfg v money market lo hi small = rw (sell_base-eq-deal cfg v money market lo) (
      deal-Sells v _ (wish cfg v) (nominal_cycles cfg v) money market hi (wish-lt cfg v small) refl)
