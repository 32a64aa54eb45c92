-- ===== src/Chain/PowerDown/Turns.antt =====
-- database.cpp: what a turn of the loop over the withdrawals does to the rows of the accounts.
use vidpow.Prelude.{
  ℕ, ◌^◌, ◌-◌, ◌≡◌, refl, sym, ◌∙◌, ap, subst, false, not, Bool-cases, inl, inr, some, ◌==◌, ◌||◌,
  arith, find,
}
use vidpow.Prelude.{Result, ok, assert, Ensures, after, finally, Ensures-if}
use vidpow.Prelude.Int.{ℤ, pos, ◌+ℤ◌, ◌-ℤ◌, ◌≤ℤ◌, ltb_ℤ, int_laws}
use vidpow.Protocol.Asset.{IsExact, IsWord64, Asset, asset_add, mul_price}
use vidpow.Chain.Ledger.State.{ProxiedVotes, Account, Chain, named, modify_account}
use vidpow.Chain.Ledger.Rows.{
  Each-map, find-Each, Related, IsPreorder, Related-refl, Related-trans, modify_account-Related,
  adjust_proxied_witness_votes-Related,
}
use vidpow.Chain.Ledger.Supply.{eq_ℤ, wls, vests, get_vesting_share_price}
use vidpow.Chain.PowerDown.{
  min_ℤ, routes_of, amount_due, first_pass, take_fund, second_pass, reschedule, withdraw_shares,
  convert_rest, withdraw,
}
use vidpow.Chain.PowerDown.Rows.{
  Kept, Kept-IsPreorder, first_pass-Kept, second_pass-Kept, take_fund-Related,
}

-- The amounts of an account's withdrawal are not negative.
pub record Solvent (a : Account) : Type 0 where
  pub shares : pos 0 ≤ℤ a.vesting_shares
  pub wanted : pos 0 ≤ℤ a.to_withdraw
  pub rate : pos 0 ≤ℤ a.vesting_withdraw_rate
  pub small : a.vesting_shares ≤ℤ pos (2 ^ 63 - 1)

-- Only the account that withdraws gets another date, and amounts do not become negative.
pub record Turned (from : ℕ) (a b : Account) : Type 0 where
  pub name : b.name ≡ a.name
  pub due : (a.name == from) ≡ false → b.next_vesting_withdrawal ≡ a.next_vesting_withdrawal
  pub solvent : Solvent a → Solvent b

pub Turned-IsPreorder : (from : ℕ) → IsPreorder (Turned from)
Turned-IsPreorder from = record {
  same = λ a. record { name = refl; due = λ _. refl; solvent = λ s. s };
  then_by = λ a b d r s. record {
    name = s.name ∙ r.name;
    due = λ e. s.due (ap (λ n. n == from) r.name ∙ e) ∙ r.due e;
    solvent = λ h. s.solvent (r.solvent h);
  };
}

Kept-Turned : (from : ℕ) (a b : Account) → Kept a b → Turned from a b
Kept-Turned from a b k = record {
  name = k.name;
  due = λ _. k.due;
  solvent = λ s. record {
    shares = omega (arith, k.shares, s.shares);
    wanted = rw k.wanted s.wanted;
    rate = rw k.rate s.rate;
    small = k.small s.small;
  };
}

turned : (from : ℕ) {c d : Chain} → Related Kept c d → Related (Turned from) c d
turned from {c} {d} r = record {
  rows = Each-map c.accounts d.accounts (Kept-Turned from) r.rows;
  time = r.time;
  routes = r.routes;
  comments = r.comments;
}

proxied-Turned :
    (from : ℕ) (a : Account) (v : ProxiedVotes) → Turned from a (record a { proxied_vsf_votes = v })
proxied-Turned from a v = record {
  name = refl;
  due = λ _. refl;
  solvent = λ s. record { shares = s.shares; wanted = s.wanted; rate = s.rate; small = s.small };
}

reschedule-Solvent : (a : Account) → Solvent a → Solvent (reschedule a)
unfolding reschedule
reschedule-Solvent a s =
    let b = not (ltb_ℤ a.withdrawn a.to_withdraw) || eq_ℤ a.vesting_shares (pos 0) in
    elim (Bool-cases b) [
      | inl t ↦
          rw t
            (record { shares = s.shares; wanted = s.wanted; rate = omega arith; small = s.small })
      | inr f ↦
          rw f (record { shares = s.shares; wanted = s.wanted; rate = s.rate; small = s.small })
    ]

reschedule-name : (a : Account) → (reschedule a).name ≡ a.name
unfolding reschedule
reschedule-name a =
    let b = not (ltb_ℤ a.withdrawn a.to_withdraw) || eq_ℤ a.vesting_shares (pos 0) in
    elim (Bool-cases b) [ inl t ↦ rw t refl | inr f ↦ rw f refl ]

module _ (safe : ℤ → Result ℤ) (exact : IsExact safe) (fits : IsWord64 safe)
    (remainder : ℤ → ℤ → Result ℤ) (to_uint64 : ℕ → Result ℕ) where
  -- No more is withdrawn than the account has.
  amount_due-le :
      (a : Account) → Ensures (amount_due safe remainder to_uint64 a) (λ tw. tw ≤ℤ a.vesting_shares)
  unfolding amount_due
  amount_due-le a = after (safe (a.to_withdraw -ℤ a.withdrawn)) (λ left _.
      Ensures-if (ltb_ℤ left a.vesting_withdraw_rate) _ _
        (λ _.
          after (remainder a.to_withdraw a.vesting_withdraw_rate) (λ rest _. finally (least rest)))
        (λ _. finally (least a.vesting_withdraw_rate)))
    where
      least : (x : ℤ) → min_ℤ a.vesting_shares x ≤ℤ a.vesting_shares
      least x = ground arith

  withdraw_shares-Turned :
      (tw : ℤ) (converted : Asset) (a : Account)
      → tw ≤ℤ a.vesting_shares
      → Ensures (withdraw_shares safe remainder to_uint64 tw converted a) (Turned a.name a)
  unfolding withdraw_shares
  withdraw_shares-Turned tw converted a h = after (safe (a.vesting_shares -ℤ tw)) (λ x ex.
      after (asset_add safe (wls a.balance) converted) (λ b _.
        after (safe (a.withdrawn +ℤ tw)) (λ w _.
          let e = exact _ x ex in
          let a' = record a { vesting_shares = x; balance = b.amount; withdrawn = w } in
          finally {x = reschedule a'} (record {
            name = reschedule-name a';
            due = λ ne. absurd (different a.name ne);
            solvent = λ s. reschedule-Solvent a' (record {
              shares = rw (← e) (omega (int_laws, h));
              wanted = s.wanted;
              rate = s.rate;
              small = fits _ x ex;
            });
          }))))
    where
      different : (n : ℕ) → (n == n) ≡ false → ⊥
      different n e = ground arith

  convert_rest-Turned :
      (a : Account) (tw rest : ℤ) (c : Chain)
      → find (named a.name) c.accounts ≡ some a
      → tw ≤ℤ a.vesting_shares
      → Ensures (convert_rest safe remainder to_uint64 a.name tw rest c) (Related (Turned a.name) c)
  unfolding convert_rest
  convert_rest-Turned a tw rest c f h =
      let T = Turned a.name in
      let p = Turned-IsPreorder a.name in
      after (assert (not (ltb_ℤ rest (pos 0)))) (λ _ _.
        after (mul_price (vests rest) (get_vesting_share_price c.gpo)) (λ converted _.
          after (modify_account a.name (withdraw_shares safe remainder to_uint64 tw converted) c)
            (λ c1 e1. after (take_fund safe remainder to_uint64 converted rest c1) (λ c2 e2.
              record {
                on_ok = λ c3 e3.
                    Related-trans T p
                      (Related-trans T p
                        ((modify_account-Related T p a.name
                            (withdraw_shares safe remainder to_uint64 tw converted) c
                            (λ x y fx ex. row converted x y (same x fx) ex)).on_ok
                          c1 e1)
                        ((take_fund-Related safe exact fits remainder to_uint64 T p converted rest
                            c1).on_ok
                          c2 e2))
                      ((Ensures-if (ltb_ℤ (pos 0) tw) _ _
                          (λ _. after (safe (pos 0 -ℤ tw)) (λ lost _.
                            adjust_proxied_witness_votes-Related T p safe exact
                              (proxied-Turned a.name) a.name lost c2))
                          (λ _. finally (Related-refl T p c2))).on_ok
                        c3 e3);
              }))))
    where
      same : (x : Account) → find (named a.name) c.accounts ≡ some x → a ≡ x
      same x fx = ground (arith, f, fx)

      row :
          (converted : Asset) (x y : Account)
          → a ≡ x
          → withdraw_shares safe remainder to_uint64 tw converted x ≡ ok y
          → Turned a.name x y
      row converted x y e ey =
          subst
            (λ z.
              withdraw_shares safe remainder to_uint64 tw converted z ≡ ok y → Turned a.name z y)
            e (λ q. (withdraw_shares-Turned tw converted a h).on_ok y q) ey

  pub withdraw-Turned :
      (a : Account) (c : Chain)
      → find (named a.name) c.accounts ≡ some a
      → Ensures (withdraw safe remainder to_uint64 a c) (Related (Turned a.name) c)
  unfolding withdraw
  withdraw-Turned a c f = after (amount_due safe remainder to_uint64 a) (λ tw et.
      after (first_pass safe remainder to_uint64 tw (pos 0) (routes_of a.name c) c) (λ r er.
        after
          (second_pass safe remainder to_uint64 tw (pos 0) (wls (pos 0)) (routes_of a.name r.1) r.1)
          (λ s es. after (safe (tw -ℤ s.0)) (λ l _. after (safe (l -ℤ r.0)) (λ rest _. record {
            on_ok = λ c' e.
                let k1 =
                  (first_pass-Kept safe exact fits remainder to_uint64 tw (pos 0)
                      (routes_of a.name c) c).on_ok
                    r er in
                let k2 =
                  (second_pass-Kept safe exact fits remainder to_uint64 tw (pos 0) (wls (pos 0))
                      (routes_of a.name r.1) r.1).on_ok
                    s es in
                let k = Related-trans Kept Kept-IsPreorder k1 k2 in
                let (b, fb, kb) =
                  find-Each Kept a.name c.accounts s.1.accounts {a = a} (λ x y q. q.name) k.rows
                    f in
                let most = (amount_due-le a).on_ok tw et in
                let le : tw ≤ℤ b.vesting_shares = omega (arith, most, kb.shares) in
                Related-trans (Turned a.name) (Turned-IsPreorder a.name) (turned a.name k) (
                  subst
                    (λ n.
                      convert_rest safe remainder to_uint64 n tw rest s.1 ≡ ok c'
                      → Related (Turned n) s.1 c')
                    kb.name
                    (λ q.
                      (convert_rest-Turned b tw rest s.1
                          (subst (λ n. find (named n) s.1.accounts ≡ some b) (sym kb.name) fb)
                          le).on_ok
                        c' q)
                    e);
          })))))
