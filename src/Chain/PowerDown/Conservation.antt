-- ===== src/Chain/PowerDown/Conservation.antt =====
-- database.cpp: the loop over the withdrawals against the sums of `validate_invariants`.
use vidpow.Prelude.{
  ℕ, ◌-◌, ◌^◌, ◌≡◌, refl, sym, subst, Bool, Bool-cases, inl, inr, some, Option, List, [], ◌∷◌, ◌++◌,
  arith, find, All, drop, filter,
}
use vidpow.Prelude.{Result, ok, Ensures, after, finally, Ensures-if}
use vidpow.Prelude.Int.{ℤ, pos, ◌-ℤ◌, ◌≤ℤ◌, ltb_ℤ, int_laws}
use vidpow.Protocol.Asset.{IsExact, IsWord64}
use vidpow.Chain.Ledger.State.{Account, WithdrawRoute, Chain, named}
use vidpow.Chain.Ledger.Invariants.{Balanced}
use vidpow.Chain.Ledger.Rows.{Each}
use vidpow.Chain.Ledger.Debts.{Balanced-Debts}
use vidpow.Chain.Ledger.Supply.{wls}
use vidpow.Chain.Evaluators.Withdrawals.{is_route}
use vidpow.Chain.PowerDown.{
  min_ℤ, routes_to, routes_of, least, amount_due, first_pass, second_pass, withdraw,
  process_vesting_withdrawals,
}
use vidpow.Chain.PowerDown.Rows.{first_pass-Kept}
use vidpow.Chain.PowerDown.Turns.{Solvent, Turned, withdraw-Turned}
use vidpow.Chain.PowerDown.Order.{Unique, named-name}
use vidpow.Chain.PowerDown.Runs.{
  Loop, at_end, not_due, thrown, turn, Unique-Each, process_vesting_withdrawals-Loop,
}
use vidpow.Chain.PowerDown.Balances.{Debts-cast, IsLowWord, IsPercent, first_pass-Debts}
use vidpow.Chain.PowerDown.Conversion.{second_pass-Debts, convert_rest-Balanced}

-- The documented behaviour of `%`: it keeps the sign of the dividend.
abbrev pub KeepsSign : (ℤ → ℤ → Result ℤ) → Type 0
KeepsSign remainder = (x y r : ℤ) → pos 0 ≤ℤ x → pos 0 ≤ℤ y → remainder x y ≡ ok r → pos 0 ≤ℤ r

-- A state that the withdrawals start from and leave.
pub record Withdrawable (c : Chain) : Type 0 where
  pub balanced : Balanced c
  pub solvent : All Solvent c.accounts
  pub percents : All IsPercent c.routes
  pub unique : Unique c.accounts

All-filter :
    (P : WithdrawRoute → Type 0) (p : WithdrawRoute → Bool) (rs : List WithdrawRoute)
    → All P rs
    → All P (filter p rs)
All-filter P p [] h = tt
All-filter P p (r ∷ rs) (hr, h) = elim (Bool-cases (p r)) [
  | inl t ↦ rw t (hr, All-filter P p rs h)
  | inr f ↦ rw f (All-filter P p rs h)
]

All-append :
    (P : WithdrawRoute → Type 0) (rs qs : List WithdrawRoute)
    → All P rs
    → All P qs
    → All P (rs ++ qs)
All-append P [] qs h k = k
All-append P (r ∷ rs) qs (hr, h) k = (hr, All-append P rs qs h k)

routes_to-All :
    (P : WithdrawRoute → Type 0) (from : ℕ) (xs : List Account) (rs : List WithdrawRoute)
    → All P rs
    → All P (routes_to from xs rs)
unfolding routes_to
routes_to-All P from [] rs h = tt
routes_to-All P from (x ∷ xs) rs h =
    All-append P (filter (is_route from x.name) rs) (routes_to from xs rs)
      (All-filter P (is_route from x.name) rs h) (routes_to-All P from xs rs h)

All-Each :
    (R : Account → Account → Type 0) (P : Account → Type 0) (xs ys : List Account)
    → ((x y : Account) → R x y → P x → P y)
    → Each R xs ys
    → All P xs
    → All P ys
All-Each R P [] [] k e h = tt
All-Each R P [] (y ∷ ys) k e h = elim e [ ]
All-Each R P (x ∷ xs) [] k e h = elim e [ ]
All-Each R P (x ∷ xs) (y ∷ ys) k (r, e) (hx, h) = (k x y r hx, All-Each R P xs ys k e h)

All-find :
    (P : Account → Type 0) (n : ℕ) (xs : List Account) {a : Account}
    → All P xs
    → find (named n) xs ≡ some a
    → P a
All-find P n [] h f = cc
All-find P n (x ∷ xs) {a} (hx, h) f = elim (Bool-cases (named n x)) [
  | inl t ↦ let e : x ≡ a = ground (arith, f) in subst P e hx
  | inr t ↦ let g : find (named n) xs ≡ some a = ground (arith, f) in All-find P n xs {a = a} h g
]

module _ (safe : ℤ → Result ℤ) (exact : IsExact safe) (fits : IsWord64 safe)
    (remainder : ℤ → ℤ → Result ℤ) (sign : KeepsSign remainder) (to_uint64 : ℕ → Result ℕ)
    (words : IsLowWord to_uint64) where
  amount_due-bounds :
      (a : Account)
      → Solvent a
      → Ensures
          (amount_due safe remainder to_uint64 a)
          (λ tw. (pos 0 ≤ℤ tw) × (tw ≤ℤ pos (2 ^ 63 - 1)))
  unfolding amount_due
  amount_due-bounds a s = after (safe (a.to_withdraw -ℤ a.withdrawn)) (λ left _.
      Ensures-if (ltb_ℤ left a.vesting_withdraw_rate) _ _
        (λ _.
          after (remainder a.to_withdraw a.vesting_withdraw_rate)
            (λ r er. finally (bounds r (sign _ _ r s.wanted s.rate er))))
        (λ _. finally (bounds a.vesting_withdraw_rate s.rate)))
    where
      bounds :
          (x : ℤ)
          → pos 0 ≤ℤ x
          → (pos 0 ≤ℤ min_ℤ a.vesting_shares x) × (min_ℤ a.vesting_shares x ≤ℤ pos (2 ^ 63 - 1))
      bounds x p = let l = s.small in let z = s.shares in ground (arith, l, z)

  routes_of-percents : (n : ℕ) (c : Chain) → All IsPercent c.routes → All IsPercent (routes_of n c)
  unfolding routes_of
  routes_of-percents n c h = routes_to-All IsPercent n (drop 1 c.accounts) c.routes h

  withdraw-Balanced :
      (a : Account) (c : Chain)
      → Solvent a
      → All IsPercent c.routes
      → Balanced c
      → Ensures (withdraw safe remainder to_uint64 a c) Balanced
  unfolding withdraw
  withdraw-Balanced a c s h b = after (amount_due safe remainder to_uint64 a) (λ tw et.
      after (first_pass safe remainder to_uint64 tw (pos 0) (routes_of a.name c) c) (λ r er.
        after
          (second_pass safe remainder to_uint64 tw (pos 0) (wls (pos 0)) (routes_of a.name r.1) r.1)
          (λ q eq. after (safe (tw -ℤ q.0)) (λ l el. after (safe (l -ℤ r.0)) (λ rest es. record {
            on_ok = λ c' e.
                let (z, w) = (amount_due-bounds a s).on_ok tw et in
                let k =
                  (first_pass-Kept safe exact fits remainder to_uint64 tw (pos 0)
                      (routes_of a.name c) c).on_ok
                    r er in
                let h1 = routes_of-percents a.name c h in
                let h2 = routes_of-percents a.name r.1 (subst (All IsPercent) (sym k.routes) h) in
                let v1 = pos 0 -ℤ (r.0 -ℤ pos 0) in
                let b1 =
                  (first_pass-Debts safe exact remainder to_uint64 words tw (pos 0) (pos 0) (pos 0)
                      (pos 0) (routes_of a.name c) c h1 z w (Balanced-Debts b)).on_ok
                    r er in
                let b2 =
                  (second_pass-Debts safe exact remainder to_uint64 words tw (pos 0) (wls (pos 0))
                      (pos 0) v1 v1 (routes_of a.name r.1) r.1 h2 z w b1).on_ok
                    q eq in
                let v2 = v1 -ℤ (q.0 -ℤ pos 0) in
                let t = settled tw r.0 q.0 l rest (exact _ l el) (exact _ rest es) in
                (convert_rest-Balanced safe exact remainder to_uint64 a.name tw rest q.1 z
                    (Debts-cast (pos 0) v2 v2 (pos 0) (rest -ℤ tw) (rest -ℤ tw) refl t t b2)).on_ok
                  c' e;
          })))))
    where
      settled :
          (tw vests steem l rest : ℤ)
          → tw -ℤ steem ≡ l
          → l -ℤ vests ≡ rest
          → pos 0 -ℤ (vests -ℤ pos 0) -ℤ (steem -ℤ pos 0) ≡ rest -ℤ tw
      settled tw vests steem l rest e f = grind (int_laws, e, f)

  turn-Withdrawable :
      (n : ℕ) (a : Account) (c c' : Chain)
      → find (named n) c.accounts ≡ some a
      → Withdrawable c
      → withdraw safe remainder to_uint64 a c ≡ ok c'
      → Withdrawable c'
  turn-Withdrawable n a c c' f w e =
      let own =
        subst (λ m. find (named m) c.accounts ≡ some a) (sym (named-name n c.accounts {a = a} f))
          f in
      let r = (withdraw-Turned safe exact fits remainder to_uint64 a c own).on_ok c' e in
      let s = All-find Solvent n c.accounts {a = a} w.solvent f in
      record {
        balanced = (withdraw-Balanced a c s w.percents w.balanced).on_ok c' e;
        solvent =
            All-Each (Turned a.name) Solvent c.accounts c'.accounts (λ x y t. t.solvent) r.rows
              w.solvent;
        percents = subst (All IsPercent) (sym r.routes) w.percents;
        unique =
            Unique-Each (Turned a.name) (λ x y t. t.name) c.accounts c'.accounts r.rows w.unique;
      }

  Loop-Withdrawable :
      (m : Option ℕ) (c : Chain) (r : Result Chain)
      → Loop safe exact fits remainder to_uint64 m c r
      → Withdrawable c
      → Ensures r Withdrawable
  Loop-Withdrawable _ _ _ (at_end c) w = finally w
  Loop-Withdrawable _ _ _ (not_due n a c f d) w = finally w
  Loop-Withdrawable _ _ _ (thrown n a c e f d q) w = record { on_ok = λ c' h. cc }
  Loop-Withdrawable _ _ _ (turn n a c c' r f d q l) w =
      Loop-Withdrawable _ c' r l (turn-Withdrawable n a c c' f w q)

  -- From a state with the four sums of `validate_invariants` in order, where names are unique, the
  -- amounts of each withdrawal are not negative, shares fit in 63 bits and no route has more than
  -- 100%, the withdrawals of a block that return leave such a state: the shares that are deposited,
  -- converted and withdrawn, and their votes, add up. The arithmetic on shares returns only exact
  -- values of 64 bits, `%` keeps the sign, and `to_uint64` returns a number of 64 bits as it is.
  pub process_vesting_withdrawals-Withdrawable :
      (c : Chain) {c' : Chain}
      → Withdrawable c
      → process_vesting_withdrawals safe remainder to_uint64 c ≡ ok c'
      → Withdrawable c'
  process_vesting_withdrawals-Withdrawable c {c'} w e =
      (Loop-Withdrawable (least c.accounts) c
          (process_vesting_withdrawals safe remainder to_uint64 c)
          (process_vesting_withdrawals-Loop safe exact fits remainder to_uint64 c w.unique) w).on_ok
        c' e
