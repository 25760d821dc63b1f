-- ===== src/Utils/Tokenizer/Separators.antt =====
-- The scan of `nextPure` when every token is a single byte: it finds the nearest separator.
use cgroup_monitor.Prelude.{
  ℕ, suc, ◌+◌, ◌^◌, ◌<◌, ◌≡◌, refl, ap, sym, subst, ◌∙◌, ◌⊎◌, inl, inr, Bool, true, false, ◌||◌,
  none, some, List, [], ◌∷◌, ◌++◌, map, Text, All, ◌==◌, Bool-cases, Option-cases, arith, length,
}
use cgroup_monitor.Utils.Tokenizer.{is_prefix, find, offset, consider, scan}

abbrev pub mem : ℕ → List ℕ → Bool
mem x [] = false
mem x (y ∷ ys) = (y == x) || mem x ys

-- No byte of the text is x.
abbrev pub Lacks : Text → ℕ → Type 0
Lacks w x = All (λ c. (x == c) ≡ false) w

find-hit :
    (w : Text) (x : ℕ) (more : Text) → Lacks w x → find (x ∷ []) (w ++ x ∷ more) ≡ some (length w)
unfolding find is_prefix
find-hit [] x more l = ground arith
find-hit (c ∷ w) x more (n, l) = rw (n, find-hit w x more l) refl

find-miss :
    (w : Text) (x sep : ℕ) (more : Text)
    → Lacks w x
    → (x == sep) ≡ false
    → (find (x ∷ []) (w ++ sep ∷ more) ≡ none)
      ⊎ ((i : ℕ) × (find (x ∷ []) (w ++ sep ∷ more) ≡ some i) × (length w < i))
unfolding find is_prefix
find-miss [] x sep more l n = elim (Option-cases (find (x ∷ []) more)) [
  | inl gone ↦ inl (rw (n, gone) refl)
  | inr (i, e) ↦ inr (suc i, rw (n, e) refl, omega arith)
]
find-miss (c ∷ w) x sep more (m, l) n = elim (find-miss w x sep more l n) [
  | inl gone ↦ inl (rw (m, gone) refl)
  | inr (i, e, far) ↦ inr (suc i, rw (m, e) refl, omega arith)
]

offset-hit :
    (w : Text) (x : ℕ) (more : Text) (cursor : ℕ)
    → Lacks w x
    → offset (find (x ∷ []) (w ++ x ∷ more)) cursor ≡ length w
offset-hit w x more cursor l = rw (find-hit w x more l) refl

offset-miss :
    (w : Text) (x sep : ℕ) (more : Text) (cursor : ℕ)
    → Lacks w x
    → (x == sep) ≡ false
    → cursor + length w < 2 ^ 31
    → length w < offset (find (x ∷ []) (w ++ sep ∷ more)) cursor
offset-miss w x sep more cursor l n short = elim (find-miss w x sep more l n) [
  | inl gone ↦ rw (gone) (omega arith)
  | inr (i, e, far) ↦ rw (e) far
]

-- The separator at k is the best token so far.
abbrev pub Settled : ℕ → ℕ × ℕ → Type 0
Settled k r = (r.0 ≡ 1) × (r.1 ≡ k)

abbrev pub Open : ℕ → ℕ × ℕ → Type 0
Open k r = Settled k r ⊎ (k < r.1)

consider-hit :
    (k best beg id : ℕ)
    → k < 2 ^ 31
    → id ≡ k
    → Open k (best, beg)
    → Settled k (consider id 1 best beg)
consider-hit k best beg id short e o = ground arith

consider-miss : (k best beg id : ℕ) → k < id → Open k (best, beg) → Open k (consider id 1 best beg)
consider-miss k best beg id far o = ground arith

consider-Settled :
    (k best beg id : ℕ) → k < id → Settled k (best, beg) → Settled k (consider id 1 best beg)
consider-Settled k best beg id far o = ground arith

abbrev pub singles : List ℕ → List Text
singles = map (λ x. x ∷ [])

pub scan-Settled :
    (seps : List ℕ) (w : Text) (sep : ℕ) (more : Text) (cursor best beg : ℕ)
    → All (Lacks w) seps
    → cursor + length w < 2 ^ 31
    → Open (length w) (best, beg)
    → (mem sep seps ≡ true) ⊎ Settled (length w) (best, beg)
    → Settled (length w) (scan (w ++ sep ∷ more) cursor (singles seps) best beg)
unfolding scan
scan-Settled [] w sep more cursor best beg l short o (inl m) = cc
scan-Settled [] w sep more cursor best beg l short o (inr s) = s
scan-Settled (x ∷ xs) w sep more cursor best beg (l, ls) short o g =
    let id = offset (find (x ∷ []) (w ++ sep ∷ more)) cursor in
    let (best', beg') = consider id 1 best beg in
    elim (Bool-cases (x == sep)) [
      | inl same ↦
          let e : x ≡ sep = ground (arith, same) in
          let at : id ≡ length w =
            subst (λ y. offset (find (y ∷ []) (w ++ sep ∷ more)) cursor ≡ length w) (sym e)
              (offset-hit w sep more cursor (subst (Lacks w) e l)) in
          let s = consider-hit (length w) best beg id (omega arith) at o in
          scan-Settled xs w sep more cursor best' beg' ls short (inl s) (inr s)
      | inr other ↦
          let far = offset-miss w x sep more cursor l other short in
          scan-Settled xs w sep more cursor best' beg' ls short
            (consider-miss (length w) best beg id far o)
            (elim g [
              | inl m ↦ inl (ground (arith, m, other))
              | inr s ↦ inr (consider-Settled (length w) best beg id far s)
            ])
    ]

-- Without a separator, nothing changes.
pub find-none : (w : Text) (x : ℕ) → Lacks w x → find (x ∷ []) w ≡ none
unfolding find is_prefix
find-none [] x l = refl
find-none (c ∷ w) x (n, l) = rw (n, find-none w x l) refl

pub scan-none :
    (seps : List ℕ) (w : Text) (cursor : ℕ)
    → All (Lacks w) seps
    → cursor + length w < 2 ^ 31
    → scan w cursor (singles seps) 0 (length w) ≡ (0, length w)
unfolding scan
scan-none [] w cursor l short = refl
scan-none (x ∷ xs) w cursor (l, ls) short =
    let kept : consider (offset (find (x ∷ []) w) cursor) 1 0 (length w) ≡ (0, length w) =
      rw (find-none w x l) (ground arith) in
    ap (λ (r : ℕ × ℕ). scan w cursor (singles xs) r.0 r.1) kept ∙ scan-none xs w cursor ls short
