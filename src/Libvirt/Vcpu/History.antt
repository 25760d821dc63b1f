-- ===== src/Libvirt/Vcpu/History.antt =====
-- The window of the last percentages that a controller keeps, and when the slope follows it.
use cgroup_monitor.Prelude.{
  drop-append, ℕ, zero, suc, ◌-◌, ◌≤◌, ◌≡◌, refl, ap, ◌∙◌, List, [], ◌∷◌, ◌++◌, arith, length,
  length-append, length-drop, drop, ◌==◌, ltb, Bool-cases, inl, inr, if◌then◌else◌,
}
use cgroup_monitor.Floats.{Floats}
use cgroup_monitor.Libvirt.Vcpu.{
  Vcpu, trim, add_to_history, percentage_consumption, slope_of, compute_slope,
}

-- The last `n` entries of a list.
abbrev pub last_of {ℓ} : {A : Type ℓ} → ℕ → List A → List A
last_of n xs = drop (length xs - n) xs

module _ {ℓ} {A : Type ℓ} where
  drop-suc : (k : ℕ) (xs : List A) → drop (suc k) xs ≡ drop 1 (drop k xs)
  drop-suc zero xs = refl
  drop-suc (suc k) [] = refl
  drop-suc (suc k) (x ∷ xs) = drop-suc k xs

  last_of-short : (n : ℕ) (xs : List A) → length xs ≤ n → last_of n xs ≡ xs
  last_of-short n xs b = ap (λ (k : ℕ). drop k xs) {y = 0} (omega arith)

  last_of-long :
      (n : ℕ) (xs : List A) (y : A)
      → n ≤ length xs
      → last_of n (xs ++ y ∷ []) ≡ drop 1 (last_of n xs ++ y ∷ [])
  last_of-long n xs y b =
      ap (λ (k : ℕ). drop k (xs ++ y ∷ [])) next
      ∙ drop-suc (length xs - n) (xs ++ y ∷ [])
      ∙ ap (drop 1) (drop-append (length xs - n) xs (y ∷ []) (omega arith))
    where
      next : length (xs ++ y ∷ []) - n ≡ suc (length xs - n)
      next = omega (arith, length-append xs (y ∷ []))

  -- The trim after a push moves the window on by one entry.
  pub trim-last_of :
      (n : ℕ) (xs : List A) (y : A) → trim n (last_of n xs ++ y ∷ []) ≡ last_of n (xs ++ y ∷ [])
  trim-last_of n xs y = elim (Bool-cases (ltb (length xs) n)) [
    | inl short ↦
        rw
          (
            last_of-short n xs (ground arith),
            last_of-short n (xs ++ y ∷ []) (ground (arith, length-append xs (y ∷ []))),
          )
          (ground (arith, length-append xs (y ∷ [])))
    | inr long ↦
        rw (last_of-long n xs y (ground arith))
          (ground (arith, length-append (last_of n xs) (y ∷ []), length-drop (length xs - n) xs))
  ]

module _ {F : Floats} where
  -- If the history is the window of the last `max_history` entries of a log of percentages, then
  -- after `addToHistory` it is the window of that log with the current percentage behind it. The
  -- slope is that of the new window when the window is full, and as before otherwise.
  pub add_to_history-last_of :
      (v : Vcpu F) (log : List F.Float)
      → v.history ≡ last_of v.max_history log
      → let v' = add_to_history v in
        let log' = log ++ percentage_consumption v ∷ [] in
        (v'.history ≡ last_of v.max_history log')
        × (v'.slope ≡ (
            if length (last_of v.max_history log') == v.max_history
            then slope_of F (last_of v.max_history log')
            else v.slope))
  unfolding add_to_history compute_slope
  add_to_history-last_of v log e =
      let moved : trim v.max_history (v.history ++ percentage_consumption v ∷ [])
          ≡ last_of v.max_history (log ++ percentage_consumption v ∷ []) =
        ap (λ h. trim v.max_history (h ++ percentage_consumption v ∷ [])) e
        ∙ trim-last_of v.max_history log (percentage_consumption v) in
      ground (arith, moved)
