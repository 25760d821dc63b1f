-- ===== src/Server/Control/Settings.antt =====
-- src/server/control.cc: `readCpuMarketConfig`, with the library for JSON as a parameter.
use cgroup_monitor.Prelude.{ℕ, Bool, true, false, Option, none, some, Text, codes, if◌then◌else◌}
use cgroup_monitor.Prelude.Words.{ℤ}
use cgroup_monitor.Floats.{Floats}
use cgroup_monitor.Server.Market.Sale.{Config}
use cgroup_monitor.Server.Control.{Controller, ◌>>=◌}

-- What the source uses of the library; `none` is an exception.
pub record Json (F : Floats) : Type 1 where
  pub Node : Type 0
  pub parse : Text → Option Node
  pub contains : Text → Node → Bool
  pub at : Text → Node → Option Node
  pub is_boolean : Node → Bool
  pub get_bool : Node → Option Bool
  pub get_int : Node → Option ℤ
  pub get_float : Node → Option F.Float
  pub get_unsigned_long : Node → Option ℕ

module _ {F : Floats} (J : Json F) where
  abbrev pub enabled_of : Bool → J.Node → Option Bool
  enabled_of old j =
      if J.contains (codes "enable") j
      then (do e ← J.at (codes "enable") j; if J.is_boolean e then J.get_bool e else some old)
      else some old

  -- A number in percent.
  abbrev pub percent : Text → J.Node → Option F.Float
  percent name j = do x ← J.at name j; p ← J.get_float x; some (F.fdiv p (F.float_lit 100 1))

  unfoldable pub market_config : J.Node → Option (Config F)
  market_config j = do
    f ← J.at (codes "frequency") j
    freq ← J.get_int f
    up ← percent (codes "trigger-increment") j
    down ← percent (codes "trigger-decrement") j
    faster ← percent (codes "increment-speed") j
    slower ← percent (codes "decrement-speed") j
    w ← J.at (codes "window-size") j
    window ← J.get_unsigned_long w
    some (record {
      cpu_freq = freq;
      trigger_increment = up;
      trigger_decrement = down;
      increasing_speed = faster;
      decreasing_speed = slower;
      window_size = window;
    })

  abbrev pub configured : Controller F → J.Node → Bool → Option (Controller F)
  configured c j enabled =
      if enabled
      then (do config ← market_config j; some (record c { market_enabled = true; config = config }))
      else some (record c { market_enabled = false })

  -- The content of the file is `none` if it cannot be opened; the result is `none` if an exception leaves
  -- the method, and with it the constructor of the controller.
  unfoldable pub read_cpu_market_config : Option Text → Controller F → Option (Controller F)
  unfolding market_config
  read_cpu_market_config none c = some (record c { market_enabled = false })
  read_cpu_market_config (some content) c = do
    j ← J.parse content
    enabled ← enabled_of c.market_enabled j
    configured c j enabled
