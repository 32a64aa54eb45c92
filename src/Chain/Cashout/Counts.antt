-- ===== src/Chain/Cashout/Counts.antt =====
-- database.cpp: how many comments are due, and the first of them in the index `by_cashout_time`.
use vidpow.Prelude.{
  ℕ, suc, ◌<◌, ◌≤◌, ◌≡◌, refl, sym, ◌∙◌, ap, Bool, true, false, Bool-cases, inl, inr, some, none,
  List, [], ◌∷◌, map, leb, ◌==◌, if◌then◌else◌, arith, find, In, All, All-In, length, insert_by,
  sort_by,
}
use vidpow.Prelude.Sums.{replace_first}
use vidpow.Chain.Ledger.Content.{Comment}
use vidpow.Chain.Ledger.State.{Chain}
use vidpow.Chain.Cashout.{is_comment}
use vidpow.Chain.Cashout.Rounds.{by_cashout_time, first_due}
use vidpow.Chain.Cashout.Dates.{dates}

-- No two comments have one id.
abbrev pub Distinct : List ℕ → Type 0
Distinct [] = Unit
Distinct (i ∷ is) = All (λ j. (i == j) ≡ false) is × Distinct is

abbrev pub ids : List (ℕ × ℕ) → List ℕ
ids ks = map (λ k. k.0) ks

In-ids : (i t : ℕ) (ks : List (ℕ × ℕ)) → In (i, t) ks → In i (ids ks)
In-ids i t [] m = elim m [ ]
In-ids i t (k ∷ ks) (inl e) = inl (ap (λ (p : ℕ × ℕ). p.0) e)
In-ids i t (k ∷ ks) (inr m) = inr (In-ids i t ks m)

-- How many comments are due.
abbrev pub due_count : ℕ → List (ℕ × ℕ) → ℕ
due_count now [] = 0
due_count now ((i, t) ∷ ks) = if leb t now then suc (due_count now ks) else due_count now ks

pub due_count-le : (now : ℕ) (xs : List Comment) → due_count now (dates xs) ≤ length xs
due_count-le now [] = omega arith
due_count-le now (x ∷ xs) = ground (arith, due_count-le now xs)

pub In-dates : (x : Comment) (xs : List Comment) → In x xs → In (x.id, x.cashout_time) (dates xs)
In-dates x [] m = elim m [ ]
In-dates x (y ∷ ys) (inl e) = inl (ap (λ z. (z.id, z.cashout_time)) e)
In-dates x (y ∷ ys) (inr m) = inr (In-dates x ys m)

-- A comment that is due is found by its id, and one fewer is due after it gets another date.
pub count-replace :
    (now id t : ℕ) (x y : Comment) (xs : List Comment)
    → Distinct (ids (dates xs))
    → In (id, t) (dates xs)
    → t ≤ now
    → find (is_comment id) xs ≡ some x
    → y.id ≡ x.id
    → now < y.cashout_time
    → (suc (due_count now (dates (replace_first (is_comment id) y xs))) ≡ due_count now (dates xs))
      × (ids (dates (replace_first (is_comment id) y xs)) ≡ ids (dates xs))
count-replace now id t x y [] u m d f e l = elim m [ ]
count-replace now id t x y (z ∷ zs) (a, u) m d f e l = elim (Bool-cases (z.id == id)) [
  | inl q ↦
      let s : z ≡ x = ground (arith, f) in
      let zi : z.id ≡ id = ground (arith, q) in
      let due : leb z.cashout_time now ≡ true = elim m [
        | inl k ↦ let c : t ≡ z.cashout_time = ap (λ (p : ℕ × ℕ). p.1) k in rw (← c) (ground arith)
        | inr k ↦
            let n =
              All-In (λ j. (z.id == j) ≡ false) id (ids (dates zs)) a (In-ids id t (dates zs) k) in
            absurd (ground (arith, q, n))
      ] in
      let late : leb y.cashout_time now ≡ false = ground arith in
      (rw (q, due, late) refl, rw q (ap (λ i. i ∷ ids (dates zs)) (e ∙ ap (λ w. w.id) (sym s))))
  | inr q ↦
      let g : find (is_comment id) zs ≡ some x = ground (arith, f) in
      let k : In (id, t) (dates zs) = elim m [
        | inl p ↦ absurd (other (ap (λ (r : ℕ × ℕ). r.0) p) q)
        | inr p ↦ p
      ] in
      let (n, i) = count-replace now id t x y zs u k d g e l in
      (
        rw q (kept (dates (replace_first (is_comment id) y zs)) (dates zs) n),
        rw q (ap (λ ks. z.id ∷ ks) i),
      )
]
  where
    other : {j : ℕ} → id ≡ j → (j == id) ≡ false → ⊥
    other e' f' = ground arith

    kept :
        (ks ls : List (ℕ × ℕ))
        → suc (due_count now ks) ≡ due_count now ls
        → suc (if leb z.cashout_time now then suc (due_count now ks) else due_count now ks)
          ≡ (if leb z.cashout_time now then suc (due_count now ls) else due_count now ls)
    kept ks ls n = ground (arith, n)

insert_by-In :
    (before : Comment → Comment → Bool) (x y : Comment) (xs : List Comment)
    → In x (insert_by before y xs)
    → In x (y ∷ xs)
insert_by-In before x y [] m = m
insert_by-In before x y (z ∷ zs) m = elim (Bool-cases (before z y)) [
  | inl t ↦ elim (rw t at m) [
    | inl e ↦ inr (inl e)
    | inr k ↦ elim (insert_by-In before x y zs k) [ inl e ↦ inl e | inr i ↦ inr (inr i) ]
  ]
  | inr f ↦ rw f at m
]

sort_by-In :
    (before : Comment → Comment → Bool) (x : Comment) (xs : List Comment)
    → In x (sort_by before xs)
    → In x xs
sort_by-In before x [] m = m
sort_by-In before x (y ∷ ys) m = elim (insert_by-In before x y (sort_by before ys) m) [
  | inl e ↦ inl e
  | inr k ↦ inr (sort_by-In before x ys k)
]

pub first_due-In :
    (c : Chain) (x : Comment)
    → first_due c ≡ some x
    → In x c.comments × (x.cashout_time ≤ c.gpo.time)
unfolding first_due
first_due-In c x e = go (by_cashout_time c.comments) (λ i. sort_by-In _ x c.comments i) e
  where
    go :
        (ys : List Comment)
        → (In x ys → In x c.comments)
        → elim ys [ [] ↦ none | y ∷ more ↦ if leb y.cashout_time c.gpo.time then some y else none ]
          ≡ some x
        → In x c.comments × (x.cashout_time ≤ c.gpo.time)
    go [] k e = cc
    go (y ∷ ys) k e = elim (Bool-cases (leb y.cashout_time c.gpo.time)) [
      | inl t ↦ let s : y ≡ x = ground (arith, e) in (k (inl (sym s)), rw (← s) (ground arith))
      | inr f ↦ absurd (ground (arith, e))
    ]
