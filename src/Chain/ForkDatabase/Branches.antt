-- ===== src/Chain/ForkDatabase/Branches.antt =====
-- fork_database.cpp: the branches that `fetch_branch_from` returns, and the walk to a number.
use mathlib.Core.List.{append_assoc}
use vidpow.Prelude.{
  ℕ, zero, suc, ◌<◌, ◌≡◌, sym, ◌∙◌, ap, subst, subst₂, ◌≢◌, inl, inr, Option, some, List, [], ◌∷◌,
  ◌++◌, ◌==◌, ltb, arith, Option-cases, Bool-cases,
}
use vidpow.Prelude.{
  ok, err, assertion, out_of_fuel, or_throw, or_throw-ok, ok-injective, >>=-eq-ok, >>=-ne,
  Result-cases,
}
use vidpow.Protocol.Block.{BlockHash}
use vidpow.Chain.ForkDatabase.{
  ForkItem, ForkDb, previous_id, find_id, lock, descend, BranchPair, descend_both,
  fetch_branch_from,
}
use vidpow.Chain.ForkDatabase.Invariant.{Live, Inv}
use vidpow.Chain.ForkDatabase.Reaches.{lock-Live, find_id-In}

-- Following `prev` from `x` through the items `xs`, `x` first, leads to `z`.
pub data Descent (db : ForkDb) : ForkItem → List ForkItem → ForkItem → Type 0 where
  stop : (x : ForkItem) → Descent db x [] x
  step :
      {x y z : ForkItem} {xs : List ForkItem}
      → lock db x ≡ some y
      → Descent db y xs z
      → Descent db x (x ∷ xs) z

descend-Descent :
    (db : ForkDb) (fuel n : ℕ) (x : ForkItem) {xs : List ForkItem} {z : ForkItem}
    → descend db fuel n x ≡ ok (xs, z)
    → Descent db x xs z
unfolding descend
descend-Descent db zero n x e = cc
descend-Descent db (suc fuel) n x {xs} {z} e = elim (Bool-cases (ltb n x.num)) [
  | inr f ↦
      let p : (◌≡◌ {A = List ForkItem} [] xs) × (x ≡ z) = ground arith in
      subst₂ (Descent db x) p.0 p.1 (stop x)
  | inl t ↦ elim (Option-cases (lock db x)) [
    | inl l ↦ absurd (ground arith)
    | inr (y, l) ↦ elim (Result-cases (descend db fuel n y)) [
      | inr (er, d) ↦ absurd (ground arith)
      | inl (r, d) ↦
          let p : (x ∷ r.0 ≡ xs) × (r.1 ≡ z) = ground arith in
          subst₂ (Descent db x) p.0 p.1
            (step l (descend-Descent db fuel n y {xs = r.0} {z = r.1} d))
    ]
  ]
]

-- Both branches end where their blocks have the same previous block.
pub record Meets (db : ForkDb) (x y : ForkItem) (r : BranchPair) : Type 0 where
  pub last_first : ForkItem
  pub last_second : ForkItem
  pub passed_first : List ForkItem
  pub passed_second : List ForkItem
  pub firsts : r.firsts ≡ passed_first ++ last_first ∷ []
  pub seconds : r.seconds ≡ passed_second ++ last_second ∷ []
  pub descent_first : Descent db x passed_first last_first
  pub descent_second : Descent db y passed_second last_second
  pub common : last_first.data_block.previous ≡ last_second.data_block.previous

descend_both-Meets :
    (db : ForkDb) (fuel : ℕ) (x y : ForkItem) {r : BranchPair}
    → descend_both db fuel x y ≡ ok r
    → Meets db x y r
unfolding descend_both previous_id
descend_both-Meets db zero x y e = cc
descend_both-Meets db (suc fuel) x y {r} e = elim (Bool-cases (previous_id x == previous_id y)) [
  | inl t ↦ record {
    last_first = x;
    last_second = y;
    passed_first = [];
    passed_second = [];
    firsts = ground arith;
    seconds = ground arith;
    descent_first = stop x;
    descent_second = stop y;
    common = ground arith;
  }
  | inr f ↦ elim (Option-cases (lock db x)) [
    | inl l ↦ absurd (ground arith)
    | inr (x', l) ↦ elim (Option-cases (lock db y)) [
      | inl m ↦ absurd (ground arith)
      | inr (y', m) ↦ elim (Result-cases (descend_both db fuel x' y')) [
        | inr (er, d) ↦ absurd (ground arith)
        | inl (s, d) ↦
            let h = descend_both-Meets db fuel x' y' {r = s} d in
            record {
              last_first = h.last_first;
              last_second = h.last_second;
              passed_first = x ∷ h.passed_first;
              passed_second = y ∷ h.passed_second;
              firsts = ground (arith, h.firsts);
              seconds = ground (arith, h.seconds);
              descent_first = step l h.descent_first;
              descent_second = step m h.descent_second;
              common = h.common;
            }
      ]
    ]
  ]
]

Descent-trans :
    {db : ForkDb} {x y z : ForkItem} {xs ys : List ForkItem}
    → Descent db x xs y
    → Descent db y ys z
    → Descent db x (xs ++ ys) z
Descent-trans (stop x) d = d
Descent-trans (step l r) d = step l (Descent-trans r d)

Meets-extend :
    {db : ForkDb} {x y a b : ForkItem} {xs ys : List ForkItem} {s r : BranchPair}
    → Descent db x xs a
    → Descent db y ys b
    → Meets db a b s
    → record { firsts = xs ++ s.firsts; seconds = ys ++ s.seconds } ≡ r
    → Meets db x y r
Meets-extend {xs = xs} {ys = ys} d f m e = record {
  last_first = m.last_first;
  last_second = m.last_second;
  passed_first = xs ++ m.passed_first;
  passed_second = ys ++ m.passed_second;
  firsts = sym (ap (λ b. b.firsts) e) ∙ ap (◌++◌ xs) m.firsts ∙ sym (append_assoc xs _ _);
  seconds = sym (ap (λ b. b.seconds) e) ∙ ap (◌++◌ ys) m.seconds ∙ sym (append_assoc ys _ _);
  descent_first = Descent-trans d m.descent_first;
  descent_second = Descent-trans f m.descent_second;
  common = m.common;
}

-- Where `fetch_branch_from` returns, the two branches start at the items with the given ids, each
-- goes on along `prev`, and they end at two items whose blocks have the same previous block.
pub fetch_branch_from-Meets :
    (db : ForkDb) (first second : ℕ) {r : BranchPair}
    → fetch_branch_from db first second ≡ ok r
    → (x : ForkItem) × (y : ForkItem) × (find_id first db.index ≡ some x)
      × (find_id second db.index ≡ some y)
      × Meets db x y r
unfolding fetch_branch_from
fetch_branch_from-Meets db first second {r} e =
    let (x, fx, e1) = >>=-eq-ok (or_throw (find_id first db.index) assertion) _ e in
    let (y, fy, e2) = >>=-eq-ok (or_throw (find_id second db.index) assertion) _ e1 in
    let (p, dp, e3) = >>=-eq-ok (descend db db.next_address y.num x) _ e2 in
    let (q, dq, e4) = >>=-eq-ok (descend db db.next_address p.1.num y) _ e3 in
    let (s, ds, e5) = >>=-eq-ok (descend_both db db.next_address p.1 q.1) _ e4 in
    (
      x,
      y,
      or_throw-ok _ assertion fx,
      or_throw-ok _ assertion fy,
      Meets-extend (descend-Descent db db.next_address y.num x {xs = p.0} {z = p.1} dp)
          (descend-Descent db db.next_address p.1.num y {xs = q.0} {z = q.1} dq)
          (descend_both-Meets db db.next_address p.1 q.1 {r = s} ds) (ok-injective e5),
    )

or_throw-ne : (o : Option ForkItem) → or_throw o assertion ≢ err out_of_fuel
or_throw-ne o = ground arith

module _ (hash : BlockHash) (db : ForkDb) (v : Inv hash db) where
  -- One step along `prev` reaches an older item, and a block whose id the data names.
  pub lock_step :
      (x : ForkItem) {y : ForkItem}
      → Live db x
      → lock db x ≡ some y
      → Live db y × (y.address < x.address) × (y.id ≡ x.data_block.previous)
  lock_step x {y} l e =
      let (m, p) = lock-Live db x {y = y} e in (m, v.older x y.address l p, v.linked x y l m p)

  descend_total :
      (fuel n : ℕ) (x : ForkItem)
      → Live db x
      → x.address < fuel
      → descend db fuel n x ≢ err out_of_fuel
  unfolding descend
  descend_total zero n x l h = absurd (omega arith)
  descend_total (suc fuel) n x l h = elim (Option-cases (lock db x)) [
    | inl e ↦ ground arith
    | inr (y, e) ↦ let s = lock_step x {y = y} l e in ground (arith, s, descend_total fuel n y)
  ]

  descend-Live :
      (fuel n : ℕ) (x : ForkItem) {xs : List ForkItem} {z : ForkItem}
      → Live db x
      → descend db fuel n x ≡ ok (xs, z)
      → Live db z
  unfolding descend
  descend-Live zero n x l e = cc
  descend-Live (suc fuel) n x {xs} {z} l e = elim (Bool-cases (ltb n x.num)) [
    | inr f ↦ subst (Live db) (ground arith) l
    | inl t ↦ elim (Option-cases (lock db x)) [
      | inl k ↦ absurd (ground arith)
      | inr (y, k) ↦ elim (Result-cases (descend db fuel n y)) [
        | inr (er, d) ↦ absurd (ground arith)
        | inl (r, d) ↦
            subst (Live db) (ground arith)
              (descend-Live fuel n y {xs = r.0} {z = r.1} (lock_step x {y = y} l k).0 d)
      ]
    ]
  ]

  descend_both_total :
      (fuel : ℕ) (x y : ForkItem)
      → Live db x
      → Live db y
      → x.address < fuel
      → descend_both db fuel x y ≢ err out_of_fuel
  unfolding descend_both
  descend_both_total zero x y l m h = absurd (omega arith)
  descend_both_total (suc fuel) x y l m h = elim (Option-cases (lock db x)) [
    | inl e ↦ ground arith
    | inr (x', e) ↦ elim (Option-cases (lock db y)) [
      | inl f ↦ ground arith
      | inr (y', f) ↦
          let s = lock_step x {y = x'} l e in
          let t = lock_step y {y = y'} m f in
          ground (arith, s, descend_both_total fuel x' y' s.0 t.0)
    ]
  ]

  -- On a database that keeps the invariant all three loops of `fetch_branch_from` end: the number
  -- of addresses given out bounds their rounds.
  pub fetch_branch_from_total :
      (first second : ℕ) → fetch_branch_from db first second ≢ err out_of_fuel
  unfolding fetch_branch_from
  fetch_branch_from_total first second =
      >>=-ne _ _ out_of_fuel (or_throw-ne (find_id first db.index)) λ x fx.
        >>=-ne _ _ out_of_fuel (or_throw-ne (find_id second db.index)) λ y fy.
          let lx = inr (find_id-In first db.index {x = x} (or_throw-ok _ assertion fx)) in
          let ly = inr (find_id-In second db.index {x = y} (or_throw-ok _ assertion fy)) in
          >>=-ne _ _ out_of_fuel (descend_total db.next_address y.num x lx (v.fresh x lx)) λ p dp.
            >>=-ne _ _ out_of_fuel (descend_total db.next_address p.1.num y ly (v.fresh y ly))
              λ q dq.
                let lp = descend-Live db.next_address y.num x {xs = p.0} {z = p.1} lx dp in
                let lq = descend-Live db.next_address p.1.num y {xs = q.0} {z = q.1} ly dq in
                >>=-ne _ _ out_of_fuel
                  (descend_both_total db.next_address p.1 q.1 lp lq (v.fresh p.1 lp))
                  λ r dr e. ground arith
