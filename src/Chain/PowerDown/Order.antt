-- ===== src/Chain/PowerDown/Order.antt =====
-- database.cpp: the walk along the index `by_next_vesting_withdrawal`.
use vidpow.Prelude.{
  ℕ, suc, ◌≤◌, ◌<◌, ◌≡◌, refl, sym, ap, subst, true, false, Bool-cases, ◌⊎◌, inl, inr, some, List,
  [], ◌∷◌, ltb, ltb→lt, ◌==◌, if◌then◌else◌, arith, find, In, All, All-In, length,
}
use vidpow.Chain.Ledger.State.{Account, named}
use vidpow.Chain.PowerDown.{least_from, behind}

-- No two accounts have one name, as the index `by_name` has it.
abbrev pub Unique : List Account → Type 0
Unique [] = Unit
Unique (x ∷ xs) = All (λ y. (x.name == y.name) ≡ false) xs × Unique xs

-- The place of the row that a name leads to.
abbrev pub position : ℕ → List Account → ℕ
position n [] = 0
position n (x ∷ xs) = if x.name == n then 0 else suc (position n xs)

pub position-lt :
    (n : ℕ) (xs : List Account) {a : Account}
    → find (named n) xs ≡ some a
    → position n xs < length xs
position-lt n [] f = cc
position-lt n (x ∷ xs) {a} f = ground (arith, position-lt n xs {a = a})

pub found :
    (b : Account) (xs : List Account) → Unique xs → In b xs → find (named b.name) xs ≡ some b
found b [] u m = elim m [ ]
found b (x ∷ xs) u (inl e) =
    let t : (x.name == b.name) ≡ true = rw e (ground arith) in rw t (ap some (sym e))
found b (x ∷ xs) u (inr m) =
    let t = All-In (λ y. (x.name == y.name) ≡ false) b xs u.0 m in rw t (found b xs u.1 m)

pub named-name : (n : ℕ) (xs : List Account) {a : Account} → find (named n) xs ≡ some a → a.name ≡ n
named-name n [] f = cc
named-name n (x ∷ xs) {a} f = ground (arith, named-name n xs {a = a})

least_from-In : (a : Account) (xs : List Account) → In (least_from a xs) (a ∷ xs)
least_from-In a [] = inl refl
least_from-In a (b ∷ bs) =
    elim (Bool-cases (ltb b.next_vesting_withdrawal a.next_vesting_withdrawal)) [
      | inl t ↦
          let e : kept ≡ b = ap (λ w. if w then b else a) t in
          subst within (sym e) (inr (least_from-In b bs))
      | inr f ↦
          let e : kept ≡ a = ap (λ w. if w then b else a) f in
          subst within (sym e) (elim (least_from-In a bs) [ inl q ↦ inl q | inr m ↦ inr (inr m) ])
    ]
  where
    kept : Account
    kept = if ltb b.next_vesting_withdrawal a.next_vesting_withdrawal then b else a

    within : Account → Type 0
    within z = In (least_from z bs) (a ∷ b ∷ bs)

pub least-In :
    (xs : List Account) {n : ℕ}
    → vidpow.Chain.PowerDown.least xs ≡ some n
    → (b : Account) × In b xs × (b.name ≡ n)
least-In [] e = cc
least-In (x ∷ xs) e = (least_from x xs, least_from-In x xs, ground arith)

-- The rows behind one that was met are due no earlier.
behind-met :
    (a b : Account) (xs : List Account)
    → In b (behind a true xs)
    → In b xs
      × ((a.name == b.name) ≡ false)
      × (a.next_vesting_withdrawal ≤ b.next_vesting_withdrawal)
behind-met a b [] m = elim m [ ]
behind-met a b (x ∷ xs) m = ground (arith, behind-met a b xs)

-- The rows behind one that is to be met are due later, or on the same date at a later place.
pub behind-later :
    (a b : Account) (xs : List Account)
    → Unique xs
    → In b (behind a false xs)
    → In b xs
      × ((a.name == b.name) ≡ false)
      × ((a.next_vesting_withdrawal < b.next_vesting_withdrawal)
          ⊎ ((a.next_vesting_withdrawal ≤ b.next_vesting_withdrawal)
              × (position a.name xs < position b.name xs)))
behind-later a b [] u m = elim m [ ]
behind-later a b (x ∷ xs) u m = elim (Bool-cases (x.name == a.name)) [
  | inl t ↦
      let (i, n, l) = behind-met a b xs (rw t at m) in
      let p : (x.name == b.name) ≡ false = All-In _ b xs u.0 i in
      (inr i, n, inr (l, rw (t, p) (omega arith)))
  | inr f ↦ elim (Bool-cases (ltb a.next_vesting_withdrawal x.next_vesting_withdrawal)) [
    | inl lt ↦ elim (rw (f, lt) at m) [
      | inl e ↦ (inl e, rw e (ground arith), inl (rw e (ltb→lt _ _ lt)))
      | inr k ↦ rest f (behind-later a b xs u.1 k)
    ]
    | inr ge ↦ rest f (behind-later a b xs u.1 (rw (f, ge) at m))
  ]
]
  where
    rest :
        (x.name == a.name) ≡ false
        → In b xs
          × ((a.name == b.name) ≡ false)
          × ((a.next_vesting_withdrawal < b.next_vesting_withdrawal)
              ⊎ ((a.next_vesting_withdrawal ≤ b.next_vesting_withdrawal)
                  × (position a.name xs < position b.name xs)))
        → In b (x ∷ xs)
          × ((a.name == b.name) ≡ false)
          × ((a.next_vesting_withdrawal < b.next_vesting_withdrawal)
              ⊎ ((a.next_vesting_withdrawal ≤ b.next_vesting_withdrawal)
                  × (position a.name (x ∷ xs) < position b.name (x ∷ xs))))
    rest f (i, n, l) =
        let p : (x.name == b.name) ≡ false = All-In _ b xs u.0 i in
        (inr i, n, elim l [ inl lt ↦ inl lt | inr le ↦ inr (le.0, rw (f, p) (omega arith)) ])
