-- ===== src/Server/Rapl/Total.antt =====
-- What the readings of the energy counters add up to.
use cgroup_monitor.Prelude.{ℕ, ◌≡◌, ◌<◌, ap, ◌∙◌, Text, drop, List, [], ◌∷◌, arith}
use cgroup_monitor.Prelude.Words.{add64, sub64, word}
use cgroup_monitor.Server.Rapl.{Rapl, readings}

add64-sub64 :
    (a m f : ℕ) → a < word → m < word → f < word → add64 (sub64 m a) (sub64 f m) ≡ sub64 f a
add64-sub64 a m f ha hm hf = omega arith

module _ (extract : Text → ℕ) where
  readings-bound :
      ((content : Text) → extract content < word)
      → (cs : List (Text × Text)) (r : Rapl) → r.value0 < word
      → r.value1 < word
      → ((readings extract cs r).2.value0 < word) × ((readings extract cs r).2.value1 < word)
  unfolding readings
  readings-bound bound [] r a b = (a, b)
  readings-bound bound ((c0, c1) ∷ cs) r a b =
      readings-bound bound cs (record r { value0 = extract c0; value1 = extract (drop 1 c1) })
        (bound c0) (bound (drop 1 c1))

  -- If the extraction gives an `unsigned long`, the reports of each counter over any number of
  -- readings add up, modulo 2 ^ 64, to the difference of the last value that is kept and the one
  -- before the first reading.
  pub readings_total :
      ((content : Text) → extract content < word)
      → (cs : List (Text × Text)) (r : Rapl) → r.value0 < word
      → r.value1 < word
      → let (s0, s1, r') = readings extract cs r in
        (s0 ≡ sub64 r'.value0 r.value0) × (s1 ≡ sub64 r'.value1 r.value1)
  unfolding readings
  readings_total bound [] r a b = (omega arith, omega arith)
  readings_total bound ((c0, c1) ∷ cs) r a b =
      let m : Rapl = record r { value0 = extract c0; value1 = extract (drop 1 c1) } in
      let (h0, h1) = readings_total bound cs m (bound c0) (bound (drop 1 c1)) in
      let (l0, l1) = readings-bound bound cs m (bound c0) (bound (drop 1 c1)) in
      (
        ap (add64 (sub64 (extract c0) r.value0)) h0
            ∙ add64-sub64 r.value0 (extract c0) _ a (bound c0) l0,
        ap (add64 (sub64 (extract (drop 1 c1)) r.value1)) h1
            ∙ add64-sub64 r.value1 (extract (drop 1 c1)) _ b (bound (drop 1 c1)) l1,
      )
