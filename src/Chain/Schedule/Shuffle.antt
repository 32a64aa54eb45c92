-- ===== src/Chain/Schedule/Shuffle.antt =====
-- The shuffle of the scheduled witnesses.
use vidpow.Prelude.{
  ℕ, zero, suc, ◌+◌, ◌%◌, ◌<◌, ◌≤◌, ◌≡◌, refl, ◌∙◌, ap, ◌==◌, if◌then◌else◌, some, Option-cases,
  List, [], ◌∷◌, length, get_elem?, set, get_elem?-set_self, get_elem?-set_ne, subst, ◌⊎◌,
  Bool-cases, inl, inr, ◌*◌, ◌^◌, arith,
}
use native.Mathlib.Nat.{mod-lt}
use vidpow.Chain.Schedule.{random, swap, shuffle, shuffle_witnesses}

-- How often a name stands in a list.
abbrev pub occurrences : ℕ → List ℕ → ℕ
occurrences a [] = 0
occurrences a (x ∷ xs) = (if x == a then 1 else 0) + occurrences a xs

one_if : ℕ → ℕ → ℕ
one_if a x = if x == a then 1 else 0

occurrences-set :
    (a : ℕ) (xs : List ℕ) (i v : ℕ) {x : ℕ}
    → get_elem? xs i ≡ some x
    → occurrences a (set xs i v) + one_if a x ≡ occurrences a xs + one_if a v
unfolding one_if
occurrences-set a [] i v e = cc
occurrences-set a (y ∷ xs) zero v {x} e = ground arith
occurrences-set a (y ∷ xs) (suc i) v {x} e = omega (arith, occurrences-set a xs i v {x = x} e)

get_elem?-lt : (xs : List ℕ) (i : ℕ) {x : ℕ} → get_elem? xs i ≡ some x → i < length xs
get_elem?-lt [] i e = cc
get_elem?-lt (y ∷ xs) zero e = omega arith
get_elem?-lt (y ∷ xs) (suc i) {x} e = omega (arith, get_elem?-lt xs i {x = x} e)

-- The other position still has its name after the first write.
get_elem?-written :
    (xs : List ℕ) (i j : ℕ) {x y : ℕ}
    → get_elem? xs i ≡ some x
    → get_elem? xs j ≡ some y
    → get_elem? (set xs i y) j ≡ some y
get_elem?-written xs i j {x} {y} ex ey = elim (Bool-cases (i == j)) [
  | inl t ↦
      let e : i ≡ j = ground arith in
      subst (λ k. get_elem? (set xs i y) k ≡ some y) e
        (get_elem?-set_self xs i y (get_elem?-lt xs i {x = x} ex))
  | inr f ↦ get_elem?-set_ne xs {i = i} {j = j} y (λ e. ground arith) ∙ ey
]

-- A swap writes two names, or there is nothing to swap.
swap-cases :
    (i j : ℕ) (xs : List ℕ)
    → (swap i j xs ≡ xs)
      ⊎ ((x : ℕ) × (y : ℕ) × (get_elem? xs i ≡ some x)
          × (get_elem? xs j ≡ some y)
          × (swap i j xs ≡ set (set xs i y) j x))
unfolding swap
swap-cases i j xs = elim (Option-cases (get_elem? xs i)) [
  | inl n ↦ inl (ground arith)
  | inr (x, ex) ↦ elim (Option-cases (get_elem? xs j)) [
    | inl n ↦ inl (ground arith)
    | inr (y, ey) ↦ inr (x, y, ex, ey, ground arith)
  ]
]

occurrences-swap : (a i j : ℕ) (xs : List ℕ) → occurrences a (swap i j xs) ≡ occurrences a xs
occurrences-swap a i j xs = elim (swap-cases i j xs) [
  | inl e ↦ ap (occurrences a) e
  | inr (x, y, ex, ey, e) ↦
      let first = occurrences-set a xs i y {x = x} ex in
      let second =
        occurrences-set a (set xs i y) j x {x = y} (get_elem?-written xs i j {x = x} ex ey) in
      ap (occurrences a) e ∙ omega (arith, first, second)
]

shuffle-occurrences :
    (a now_hi count i : ℕ) (xs : List ℕ)
    → occurrences a (shuffle now_hi count i xs) ≡ occurrences a xs
unfolding shuffle
shuffle-occurrences a now_hi zero i xs = refl
shuffle-occurrences a now_hi (suc count) i xs =
    let j = i + random now_hi i % suc count % 2 ^ 32 in
    shuffle-occurrences a now_hi count (suc i) (swap i j xs) ∙ occurrences-swap a i j xs

-- What stays behind the scheduled witnesses: a round swaps two positions in front of them.
get_elem?-swap :
    (i j k : ℕ) (xs : List ℕ) → i < k → j < k → get_elem? (swap i j xs) k ≡ get_elem? xs k
get_elem?-swap i j k xs hi hj = elim (swap-cases i j xs) [
  | inl e ↦ ap (λ zs. get_elem? zs k) e
  | inr (x, y, ex, ey, e) ↦
      ap (λ zs. get_elem? zs k) e
      ∙ get_elem?-set_ne (set xs i y) {i = j} {j = k} x (λ q. omega arith)
      ∙ get_elem?-set_ne xs {i = i} {j = k} y (λ q. omega arith)
]

shuffle-behind :
    (now_hi count i k : ℕ) (xs : List ℕ)
    → i + count ≤ k
    → get_elem? (shuffle now_hi count i xs) k ≡ get_elem? xs k
unfolding shuffle
shuffle-behind now_hi zero i k xs h = refl
shuffle-behind now_hi (suc count) i k xs h =
    let r = random now_hi i in
    let j = i + r % suc count % 2 ^ 32 in
    shuffle-behind now_hi count (suc i) k (swap i j xs) (omega arith)
    ∙ get_elem?-swap i j k xs (omega arith) (omega (arith, mod-lt r {m = suc count} (omega arith)))

-- The shuffle at any time keeps how often each name stands among the witnesses, and changes no
-- place behind those that are scheduled.
pub shuffle_witnesses-occurrences :
    (time num_scheduled : ℕ) (xs : List ℕ)
    → ((a : ℕ) → occurrences a (shuffle_witnesses time num_scheduled xs) ≡ occurrences a xs)
      × ((k : ℕ)
          → num_scheduled ≤ k
          → get_elem? (shuffle_witnesses time num_scheduled xs) k ≡ get_elem? xs k)
unfolding shuffle_witnesses
shuffle_witnesses-occurrences time num_scheduled xs = (
  λ a. (shuffle-occurrences a (time * 2 ^ 32 % 2 ^ 64) num_scheduled 0 xs),
  λ k h. shuffle-behind (time * 2 ^ 32 % 2 ^ 64) num_scheduled 0 k xs (omega arith),
)
