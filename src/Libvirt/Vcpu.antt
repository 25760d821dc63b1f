-- ===== src/Libvirt/Vcpu.antt =====
-- src/monitor/libvirt/controller/vcpu.{hh,cc}: the controller of one virtual CPU.
-- The machine that a controller belongs to is the one whose list it stands in.
pub mod History
pub mod Usage
use cgroup_monitor.Prelude.{
  ℕ, ◌+◌, ◌/◌, Bool, Option, none, some, List, [], ◌∷◌, ◌++◌, Text, if◌then◌else◌, ◌==◌, ltb, leb,
  length, get_elem?, drop,
}
use cgroup_monitor.Prelude.Words.{add64, sub64}
use cgroup_monitor.Floats.{Floats}
use cgroup_monitor.Libvirt.Cgroup.{Cgroup, new_cgroup, set_limit, read_usage, minus_one}

pub record Vcpu (F : Floats) : Type 0 where
  pub id : ℕ
  pub nominal_freq : ℕ
  pub cgroup : Cgroup
  pub period : ℕ
  pub quota : ℕ
  pub history : List F.Float
  pub max_history : ℕ
  pub slope : F.Double
  pub sum_frequency : ℕ
  pub last_frequency : ℕ
  pub sum_consumption : ℕ
  pub nb_micros : ℕ
  pub micro_consumption : ℕ
  pub last_micro_consumption : ℕ
  pub consumption : ℕ
  pub micro_delta : F.Float
  pub sum_delta : F.Float
  pub delta : F.Float
  pub allocated : ℕ
  pub buying : ℕ

-- The members that the constructor leaves as it finds them.
pub record Garbage (F : Floats) : Type 0 where
  pub last_frequency : ℕ
  pub micro_delta : F.Float
  pub allocated : ℕ
  pub buying : ℕ

-- One reading: the processor of the vCPU, its usage counter, the seconds since the last reading.
pub record Sample (F : Floats) : Type 0 where
  pub cpu : ℕ
  pub counter : ℕ
  pub elapsed : F.Float

module _ (F : Floats) where
  open F use {Float, Double, double_lit, double_of, widen, dadd, dsub, dmul, ddiv}

  -- The first loop of `computeSlope`: the sums of the positions and of the values.
  unfoldable pub sums : ℕ → Double → Double → List Float → Double × Double
  sums x sum_x sum_y [] = (sum_x, sum_y)
  sums x sum_x sum_y (h ∷ hs) = sums (x + 1) (dadd sum_x (double_of x)) (dadd sum_y (widen h)) hs

  -- Its second loop: the squares of the positions and the products.
  unfoldable pub products : Double → Double → ℕ → Double → Double → List Float → Double × Double
  products m_x m_y x ss_x sp [] = (ss_x, sp)
  products m_x m_y x ss_x sp (h ∷ hs) =
      let d = dsub (double_of x) m_x in
      products m_x m_y (x + 1) (dadd ss_x (dmul d d)) (dadd sp (dmul d (dsub (widen h) m_y))) hs

  unfoldable pub slope_of : List Float → Double
  unfolding sums products
  slope_of history =
      let zero_d = double_lit 0 1 in
      let (sum_x, sum_y) = sums 0 zero_d zero_d history in
      let n = double_of (length history) in
      let (ss_x, sp) = products (ddiv sum_x n) (ddiv sum_y n) 0 zero_d zero_d history in
      ddiv sp ss_x

abbrev pub trim {ℓ} : {A : Type ℓ} → ℕ → List A → List A
trim limit history = if ltb limit (length history) then drop 1 history else history

module _ {F : Floats} where
  open F use {Float, float_lit, double_lit, float_of, narrow, to_ulong, fadd, fmul, fdiv}

  unfoldable pub new_vcpu :
      Garbage F → (id : ℕ) (name : Text) (v2 : Bool) (freq max_history : ℕ) → Vcpu F
  unfolding new_cgroup
  new_vcpu u id name v2 freq max_history = record {
    id = id;
    nominal_freq = freq;
    cgroup = new_cgroup name v2;
    period = 10_000;
    quota = minus_one;
    history = [];
    max_history = max_history;
    slope = double_lit 0 1;
    sum_frequency = 0;
    last_frequency = u.last_frequency;
    sum_consumption = 0;
    nb_micros = 0;
    micro_consumption = 0;
    last_micro_consumption = 0;
    consumption = 0;
    micro_delta = u.micro_delta;
    sum_delta = float_lit 0 1;
    delta = float_lit 0 1;
    allocated = u.allocated;
    buying = u.buying;
  }

  -- `none` is the read of `freq` out of its bounds.
  unfoldable pub update : List ℕ → Sample F → Vcpu F → Option (Vcpu F)
  unfolding read_usage
  update freq s v =
      let micro = read_usage v.cgroup s.counter in
      let spent = sub64 micro v.micro_consumption in
      let used = fdiv (float_of spent) (float_lit 1_000_000 1) in
      elim (get_elem? freq s.cpu) [
        | none ↦ none
        | some f ↦ some (record v {
          last_micro_consumption = v.micro_consumption;
          micro_consumption = micro;
          micro_delta = s.elapsed;
          sum_frequency =
              add64 v.sum_frequency (to_ulong (fmul (float_of f) (fdiv used s.elapsed)));
          sum_consumption = add64 v.sum_consumption spent;
          sum_delta = fadd v.sum_delta s.elapsed;
          nb_micros = add64 v.nb_micros 1;
        })
      ]

  unfoldable pub absolute_consumption : Vcpu F → ℕ
  absolute_consumption v = to_ulong (fdiv (float_of v.consumption) v.delta)

  unfoldable pub absolute_capping : Vcpu F → ℕ
  absolute_capping v =
      to_ulong (fdiv (fmul (float_of v.quota) (float_lit 1_000_000 1)) (float_of v.period))

  unfoldable pub percentage_consumption : Vcpu F → Float
  unfolding absolute_consumption
  percentage_consumption v =
      fmul (fdiv (float_of (absolute_consumption v)) (float_lit 1_000_000 1)) (float_lit 100 1)

  unfoldable pub relative_percent_consumption : Vcpu F → Float
  unfolding absolute_consumption absolute_capping
  relative_percent_consumption v =
      fmul (fdiv (float_of (absolute_consumption v)) (float_of (absolute_capping v)))
        (float_lit 100 1)

  unfoldable pub get_slope : Vcpu F → Float
  get_slope v = narrow v.slope

  unfoldable pub compute_slope : Vcpu F → Vcpu F
  unfolding slope_of
  compute_slope v = record v { slope = slope_of F v.history }

  unfoldable pub add_to_history : Vcpu F → Vcpu F
  unfolding compute_slope percentage_consumption
  add_to_history v =
      let v' : Vcpu F = record v {
        history = trim v.max_history (v.history ++ percentage_consumption v ∷ []);
      } in
      if length v'.history == v.max_history then compute_slope v' else v'

  -- What `updateBeforeMarket` assigns before it calls `addToHistory`.
  unfoldable pub publish : Vcpu F → Vcpu F
  publish v = record v {
    last_frequency = v.sum_frequency / v.nb_micros;
    consumption = v.sum_consumption;
    delta = v.sum_delta;
    sum_consumption = 0;
    sum_frequency = 0;
    nb_micros = 0;
    sum_delta = float_lit 0 1;
    allocated = 0;
    buying = 0;
  }

  -- `none` is the division by zero when no reading was made since the last call.
  unfoldable pub update_before_market : Vcpu F → Option (Vcpu F)
  unfolding add_to_history publish
  update_before_market v = if v.nb_micros == 0 then none else some (add_to_history (publish v))

module _ (F : Floats) where
  open F use {float_lit, double_lit, widen, dmul, double_to_ulong}

  -- From 85 percent of a second on, a vCPU is not capped.
  unfoldable pub uncapped_from : ℕ
  uncapped_from = double_to_ulong (dmul (widen (float_lit 1_000_000 1)) (double_lit 85 100))

module _ {F : Floats} where
  open F use {float_lit, float_of, to_ulong, fmul, fdiv}

  -- The quota in microseconds of a period that stands for `nb_micros` in a second.
  unfoldable pub scaled_quota : Vcpu F → ℕ → ℕ → ℕ
  scaled_quota v nb_micros period =
      to_ulong (fmul (fdiv (float_of nb_micros) (float_lit 1_000_000 1)) (float_of period))

  unfoldable pub set_quota : Vcpu F → ℕ → ℕ → Vcpu F
  unfolding scaled_quota uncapped_from set_limit
  set_quota v nb_micros period =
      let cap = scaled_quota v nb_micros period in
      record v {
        period = period;
        quota = cap;
        cgroup =
            set_limit v.cgroup (if leb (uncapped_from F) nb_micros then minus_one else cap) period;
      }

  unfoldable pub unlimit : Vcpu F → Vcpu F
  unfolding set_quota
  unlimit v = set_quota v minus_one 10_000
