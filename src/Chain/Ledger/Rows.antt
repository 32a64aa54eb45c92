-- ===== src/Chain/Ledger/Rows.antt =====
-- database.cpp: the rows of the accounts before and after an operation, one by one.
use vidpow.Prelude.{
  ℕ, zero, suc, ◌≡◌, refl, sym, ◌∙◌, subst, Bool-cases, true, false, inl, inr, some, List, [], ◌∷◌,
  ◌==◌, arith, find,
}
use vidpow.Prelude.{Result, ok, Ensures, after, finally}
use vidpow.Prelude.Int.{ℤ}
use vidpow.Prelude.Sums.{replace_first}
use vidpow.Protocol.Asset.{IsExact}
use vidpow.Chain.Ledger.State.{
  ProxiedVotes, Account, Chain, named, proxy_to_self, get_account, modify_account,
  modify_account-ok,
}
use vidpow.Chain.Ledger.Votes.{
  adjust_witness_votes, proxy_votes, adjust_proxied, adjust_proxied_witness_votes,
}
use vidpow.Chain.Ledger.Conservation.{adjust_each-Still}

-- Rows that stand at the same place are related.
abbrev pub Each : (Account → Account → Type 0) → List Account → List Account → Type 0
Each R [] [] = Unit
Each R [] (y ∷ ys) = ⊥
Each R (x ∷ xs) [] = ⊥
Each R (x ∷ xs) (y ∷ ys) = R x y × Each R xs ys

pub Each-map :
    {R S : Account → Account → Type 0} (xs ys : List Account)
    → ((a b : Account) → R a b → S a b)
    → Each R xs ys
    → Each S xs ys
Each-map [] [] k e = tt
Each-map [] (y ∷ ys) k e = elim e [ ]
Each-map (x ∷ xs) [] k e = elim e [ ]
Each-map (x ∷ xs) (y ∷ ys) k e = (k x y e.0, Each-map xs ys k e.1)

-- The time, the routes and the comments stay, and so do the rows up to a relation.
pub record Related (R : Account → Account → Type 0) (c c' : Chain) : Type 0 where
  pub rows : Each R c.accounts c'.accounts
  pub time : c'.gpo.time ≡ c.gpo.time
  pub routes : c'.routes ≡ c.routes
  pub comments : c'.comments ≡ c.comments

-- A relation for a sequence of operations.
pub record IsPreorder (R : Account → Account → Type 0) : Type 0 where
  pub same : (a : Account) → R a a
  pub then_by : (a b d : Account) → R a b → R b d → R a d

module _ (R : Account → Account → Type 0) (p : IsPreorder R) where
  pub Each-refl : (xs : List Account) → Each R xs xs
  Each-refl [] = tt
  Each-refl (x ∷ xs) = (p.same x, Each-refl xs)

  Each-trans : (xs ys zs : List Account) → Each R xs ys → Each R ys zs → Each R xs zs
  Each-trans [] [] [] e f = tt
  Each-trans [] [] (z ∷ zs) e f = elim f [ ]
  Each-trans [] (y ∷ ys) zs e f = elim e [ ]
  Each-trans (x ∷ xs) [] zs e f = elim e [ ]
  Each-trans (x ∷ xs) (y ∷ ys) [] e f = elim f [ ]
  Each-trans (x ∷ xs) (y ∷ ys) (z ∷ zs) e f = (p.then_by x y z e.0 f.0, Each-trans xs ys zs e.1 f.1)

  pub Related-refl : (c : Chain) → Related R c c
  Related-refl c = record {
    rows = Each-refl c.accounts;
    time = refl;
    routes = refl;
    comments = refl;
  }

  pub Related-trans : {c d e : Chain} → Related R c d → Related R d e → Related R c e
  Related-trans {c} {d} {e} r s = record {
    rows = Each-trans c.accounts d.accounts e.accounts r.rows s.rows;
    time = s.time ∙ r.time;
    routes = s.routes ∙ r.routes;
    comments = s.comments ∙ r.comments;
  }

  Each-replace :
      (n : ℕ) (a a' : Account) (xs : List Account)
      → find (named n) xs ≡ some a
      → R a a'
      → Each R xs (replace_first (named n) a' xs)
  Each-replace n a a' [] f r = tt
  Each-replace n a a' (x ∷ xs) f r = elim (Bool-cases (x.name == n)) [
    | inl t ↦
        let e : x ≡ a = ground (arith, f) in rw t (subst (λ y. R y a') (sym e) r, Each-refl xs)
    | inr b ↦
        let g : find (named n) xs ≡ some a = ground (arith, f) in
        rw b (p.same x, Each-replace n a a' xs g r)
  ]

  -- An operation that modifies the row that a name leads to.
  pub modify_account-Related :
      (n : ℕ) (change : Account → Result Account) (c : Chain)
      → ((a a' : Account) → find (named n) c.accounts ≡ some a → change a ≡ ok a' → R a a')
      → Ensures (modify_account n change c) (Related R c)
  modify_account-Related n change c k = record {
    on_ok = λ c' e.
        let (a, a', f, ca, q) = modify_account-ok n change c {c' = c'} e in
        subst (Related R c) q (record {
          rows = Each-replace n a a' c.accounts f (k a a' f ca);
          time = refl;
          routes = refl;
          comments = refl;
        });
  }

  module _ (safe : ℤ → Result ℤ) (exact : IsExact safe) where
    adjust_witness_votes-Related :
        (name : ℕ) (delta : ℤ) (c : Chain)
        → Ensures (adjust_witness_votes safe name delta c) (Related R c)
    unfolding adjust_witness_votes
    adjust_witness_votes-Related name delta c = record {
      on_ok = λ c' e.
          let (a, f, g, r, m) =
            adjust_each-Still safe exact name delta c.witness_votes c {c' = c'} e in
          record {
            rows = subst (Each R c.accounts) (sym a) (Each-refl c.accounts);
            time = rw g refl;
            routes = r;
            comments = m;
          };
    }

    -- A walk along the proxies, where a change of the proxied votes keeps to the relation.
    module _
        (proxied : (a : Account) (v : ProxiedVotes)
          → R a (record a { proxied_vsf_votes = v })) where
      proxy_votes-R :
          (depth : ℕ) (delta : ℤ) (a : Account) → Ensures (proxy_votes safe depth delta a) (R a)
      unfolding proxy_votes
      proxy_votes-R depth delta a = after _ (λ v _. finally (proxied a v))

      adjust_proxied-Related :
          (left depth name : ℕ) (delta : ℤ) (c : Chain)
          → Ensures (adjust_proxied safe left depth name delta c) (Related R c)
      unfolding adjust_proxied
      adjust_proxied-Related zero depth name delta c = after (get_account name c) (λ a _.
          elim (Bool-cases (a.proxy == proxy_to_self)) [
            | inl t ↦ rw t (adjust_witness_votes-Related a.name delta c)
            | inr b ↦ rw b (finally (Related-refl c))
          ])
      adjust_proxied-Related (suc left) depth name delta c = after (get_account name c) (λ a _.
          elim (Bool-cases (a.proxy == proxy_to_self)) [
            | inl t ↦ rw t (adjust_witness_votes-Related a.name delta c)
            | inr b ↦ rw b (
                after (modify_account a.proxy (proxy_votes safe depth delta) c) (λ d ed. record {
                  on_ok = λ c' e.
                      Related-trans
                        ((modify_account-Related a.proxy (proxy_votes safe depth delta) c
                            (λ x x' _ ex. (proxy_votes-R depth delta x).on_ok x' ex)).on_ok
                          d ed)
                        ((adjust_proxied-Related left (suc depth) a.proxy delta d).on_ok c' e);
                }))
          ])

      pub adjust_proxied_witness_votes-Related :
          (name : ℕ) (delta : ℤ) (c : Chain)
          → Ensures (adjust_proxied_witness_votes safe name delta c) (Related R c)
      unfolding adjust_proxied_witness_votes
      adjust_proxied_witness_votes-Related name delta c = adjust_proxied-Related 4 0 name delta c

-- The row that a name leads to after an operation that keeps the names.
pub find-Each :
    (R : Account → Account → Type 0) (n : ℕ) (xs ys : List Account) {a : Account}
    → ((x y : Account) → R x y → y.name ≡ x.name)
    → Each R xs ys
    → find (named n) xs ≡ some a
    → (b : Account) × (find (named n) ys ≡ some b) × R a b
find-Each R n [] [] k e f = cc
find-Each R n [] (y ∷ ys) k e f = elim e [ ]
find-Each R n (x ∷ xs) [] k e f = elim e [ ]
find-Each R n (x ∷ xs) (y ∷ ys) {a} k e f = elim (Bool-cases (x.name == n)) [
  | inl t ↦
      let s : x ≡ a = ground (arith, f) in
      let u : (y.name == n) ≡ true = rw (k x y e.0) t in (y, rw u refl, subst (λ z. R z y) s e.0)
  | inr t ↦
      let g : find (named n) xs ≡ some a = ground (arith, f) in
      let u : (y.name == n) ≡ false = rw (k x y e.0) t in
      let (b, fb, r) = find-Each R n xs ys {a = a} k e.1 g in (b, rw u fb, r)
]
