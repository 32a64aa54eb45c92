-- ===== src/Chain/PowerDown/Conversion.antt =====
-- database.cpp: the shares of a withdrawal that are converted to tokens, against the sums of
-- `validate_invariants`.
use vidpow.Prelude.{
  ℕ, ◌-◌, ◌^◌, ◌≡◌, refl, sym, ◌∙◌, subst, not, Bool-cases, inl, inr, some, List, [], ◌∷◌, ◌==◌,
  ◌||◌, if◌then◌else◌, find, All,
}
use vidpow.Prelude.{Result, ok, assert, ◌>>=◌, Ensures, after, finally, Ensures-if}
use vidpow.Prelude.Int.{ℤ, pos, ◌+ℤ◌, ◌-ℤ◌, ◌≤ℤ◌, ltb_ℤ, int_laws}
use vidpow.Protocol.Asset.{IsExact, Asset, asset_add, asset_sub, mul_price}
use vidpow.Chain.Ledger.State.{
  named, Account, WithdrawRoute, Chain, proxy_to_self, get_account, modify_account,
}
use vidpow.Chain.Ledger.Invariants.{held, vesting_of, vsf_votes, Balanced}
use vidpow.Chain.Ledger.Effects.{
  asset_add-amount, asset_sub-amount, Effect, modify_account-Moves, add_balance-Effect,
}
use vidpow.Chain.Ledger.Votes.{adjust_proxied_witness_votes}
use vidpow.Chain.Ledger.Conservation.{walked}
use vidpow.Chain.Ledger.Flight.{once}
use vidpow.Chain.Ledger.Debts.{Debts, Debts-Balanced, Moves-Debts, walk-Debts}
use vidpow.Chain.Ledger.Supply.{eq_ℤ, wls, vests, get_vesting_share_price, add_balance}
use vidpow.Chain.PowerDown.{
  route_part, take_fund, deposit_steem, second_pass, reschedule, withdraw_shares, convert_rest,
}
use vidpow.Chain.PowerDown.Balances.{Debts-cast, IsLowWord, IsPercent, route_part-pos, zero_of}

-- The date and the rate of a withdrawal are in no sum.
reschedule-sums :
    (a : Account)
    → (held (reschedule a) ≡ held a)
      × (vesting_of (reschedule a) ≡ vesting_of a)
      × (vsf_votes (reschedule a) ≡ vsf_votes a)
      × ((reschedule a).reward_vesting_steem ≡ a.reward_vesting_steem)
      × ((reschedule a).name ≡ a.name)
      × ((reschedule a).proxy ≡ a.proxy)
unfolding reschedule
reschedule-sums a =
    let b = not (ltb_ℤ a.withdrawn a.to_withdraw) || eq_ℤ a.vesting_shares (pos 0) in
    elim (Bool-cases b) [
      | inl t ↦ rw t (refl, refl, refl, refl, refl, refl)
      | inr f ↦ rw f (refl, refl, refl, refl, refl, refl)
    ]

module _ (safe : ℤ → Result ℤ) (exact : IsExact safe) (remainder : ℤ → ℤ → Result ℤ)
    (to_uint64 : ℕ → Result ℕ) where
  take_fund-Debts :
      (converted : Asset) (d k v n : ℤ) (c : Chain)
      → Debts c k v n
      → Ensures
          (take_fund safe remainder to_uint64 converted d c)
          (λ c'. Debts c' (k +ℤ converted.amount) (v -ℤ d) (n -ℤ d))
  unfolding take_fund
  take_fund-Debts converted d k v n c b =
      after (asset_sub safe (wls c.gpo.total_vesting_fund_steem) converted) (λ f ef.
        after (safe (c.gpo.total_vesting_shares -ℤ d)) (λ t et.
          let qf =
            (asset_sub-amount safe exact (wls c.gpo.total_vesting_fund_steem) converted).on_ok f
              ef in
          let qt = exact _ t et in
          finally (record {
            supply = rw qf (grind (int_laws, b.supply));
            vesting = rw (← qt) (grind (int_laws, b.vesting));
            votes = rw (← qt) (grind (int_laws, b.votes));
            pending = b.pending;
          })))

  take_fund-accounts :
      (converted : Asset) (d : ℤ) (c : Chain)
      → Ensures (take_fund safe remainder to_uint64 converted d c) (λ c'. c'.accounts ≡ c.accounts)
  unfolding take_fund
  take_fund-accounts converted d c =
      after (asset_sub safe (wls c.gpo.total_vesting_fund_steem) converted)
        (λ _ _. after (safe (c.gpo.total_vesting_shares -ℤ d)) (λ _ _. finally refl))

  deposit_steem-Debts :
      (to : ℕ) (converted : Asset) (d k v n : ℤ) (c : Chain)
      → Debts c k v n
      → Ensures
          (deposit_steem safe remainder to_uint64 to converted d c)
          (λ c'. Debts c' k (v -ℤ d) (n -ℤ d))
  unfolding deposit_steem
  deposit_steem-Debts to converted d k v n c b =
      after (modify_account to (add_balance safe converted) c) (λ c1 e1.
        let (_, _, m, _, _) =
          modify_account-Moves safe exact to (add_balance safe converted) converted.amount (pos 0)
            (λ a. pos 0) (pos 0) c {c' = c1} (add_balance-Effect safe exact converted) e1 in
        let b1 = Moves-Debts k v n converted.amount (pos 0) (pos 0) m b in
        record {
          on_ok = λ c2 e2.
              Debts-cast (k -ℤ converted.amount +ℤ converted.amount) (v -ℤ pos 0 -ℤ d)
                (n -ℤ pos 0 -ℤ d) k (v -ℤ d) (n -ℤ d) (omega int_laws) (omega int_laws)
                (omega int_laws)
                ((take_fund-Debts converted d (k -ℤ converted.amount) (v -ℤ pos 0) (n -ℤ pos 0) c1
                    b1).on_ok
                  c2 e2);
        })

  withdraw_shares-Effect :
      (tw : ℤ) (converted : Asset)
      → Effect safe exact
          (withdraw_shares safe remainder to_uint64 tw converted)
          converted.amount
          (pos 0 -ℤ tw)
          (λ a. if a.proxy == proxy_to_self then pos 0 -ℤ tw else pos 0)
          (pos 0)
  unfolding withdraw_shares
  withdraw_shares-Effect tw converted a a' e = (ensured a).on_ok a' e
    where
      ensured :
          (a : Account)
          → Ensures (withdraw_shares safe remainder to_uint64 tw converted a) (λ a'.
            (held a' ≡ held a +ℤ converted.amount)
            × (vesting_of a' ≡ vesting_of a +ℤ (pos 0 -ℤ tw))
            × (vsf_votes a'
                ≡ vsf_votes a +ℤ (if a.proxy == proxy_to_self then pos 0 -ℤ tw else pos 0))
            × (a'.reward_vesting_steem ≡ a.reward_vesting_steem +ℤ pos 0)
            × (a'.name ≡ a.name)
            × (a'.proxy ≡ a.proxy))
      ensured a = after (safe (a.vesting_shares -ℤ tw)) (λ x ex.
          after (asset_add safe (wls a.balance) converted) (λ y ey.
            after (safe (a.withdrawn +ℤ tw)) (λ w _.
              let qx = exact _ x ex in
              let qy = (asset_add-amount safe exact (wls a.balance) converted).on_ok y ey in
              let (s1, s2, s3, s4, s5, s6) =
                reschedule-sums
                  (record a { vesting_shares = x; balance = y.amount; withdrawn = w }) in
              finally (
                s1 ∙ rw qy (omega int_laws),
                s2 ∙ rw (← qx) (omega int_laws),
                s3 ∙ elim (Bool-cases (a.proxy == proxy_to_self)) [
                  | inl t ↦ rw (← qx, t) (omega int_laws)
                  | inr f ↦ rw f (omega int_laws)
                ],
                s4 ∙ omega int_laws,
                s5,
                s6,
              ))))

  pub second_pass-Debts :
      (words : IsLowWord to_uint64) (tw total : ℤ) (steem : Asset) (k v n : ℤ)
      (routes : List WithdrawRoute) (c : Chain)
      → All IsPercent routes
      → pos 0 ≤ℤ tw
      → tw ≤ℤ pos (2 ^ 63 - 1)
      → Debts c k v n
      → Ensures
          (second_pass safe remainder to_uint64 tw total steem routes c)
          (λ r. Debts r.1 k (v -ℤ (r.0 -ℤ total)) (n -ℤ (r.0 -ℤ total)))
  unfolding second_pass
  second_pass-Debts words tw total steem k v n [] c h z s b = finally (
      Debts-cast k v n k (v -ℤ (total -ℤ total)) (n -ℤ (total -ℤ total)) refl (omega int_laws)
        (omega int_laws) b)
  second_pass-Debts words tw total steem k v n (route ∷ routes) c h z s b =
      Ensures-if route.auto_vest _ _
        (λ _. second_pass-Debts words tw total steem k v n routes c h.1 z s b)
        (λ _. after (get_account route.to_account c) (λ a _.
          after (route_part safe remainder to_uint64 tw route) (λ d ed.
            after (safe (total +ℤ d)) (λ t et.
              after (mul_price (vests d) (get_vesting_share_price c.gpo)) (λ converted _.
                after (asset_add safe steem converted) (λ more _.
                  after
                    (if ltb_ℤ (pos 0) d
                      then deposit_steem safe remainder to_uint64 a.name converted d c
                      else ok c)
                    (λ c1 e1. record {
                      on_ok = λ r e.
                          let q = exact _ t et in
                          let p =
                            (route_part-pos safe exact remainder to_uint64 words tw route h.0 z
                                s).on_ok
                              d ed in
                          let b1 =
                            (Ensures-if {P = λ c'. Debts c' k (v -ℤ d) (n -ℤ d)} (ltb_ℤ (pos 0) d) _
                                _ (λ _. deposit_steem-Debts a.name converted d k v n c b)
                                (λ f. finally (
                                  let o = zero_of safe exact remainder to_uint64 words d p f in
                                  Debts-cast k v n k (v -ℤ d) (n -ℤ d) refl (rw o (omega int_laws))
                                    (rw o (omega int_laws)) b))).on_ok
                              c1 e1 in
                          let b2 =
                            (second_pass-Debts words tw t more k (v -ℤ d) (n -ℤ d) routes c1 h.1 z s
                                b1).on_ok
                              r e in
                          Debts-cast k (v -ℤ d -ℤ (r.0 -ℤ t)) (n -ℤ d -ℤ (r.0 -ℤ t)) k
                            (v -ℤ (r.0 -ℤ total)) (n -ℤ (r.0 -ℤ total)) refl
                            (rw (← q) (omega int_laws)) (rw (← q) (omega int_laws)) b2;
                    })))))))

  -- What is left of a withdrawal settles the shares and the votes that the passes left in flight.
  pub convert_rest-Balanced :
      (from : ℕ) (tw rest : ℤ) (c : Chain)
      → pos 0 ≤ℤ tw
      → Debts c (pos 0) (rest -ℤ tw) (rest -ℤ tw)
      → Ensures (convert_rest safe remainder to_uint64 from tw rest c) Balanced
  unfolding convert_rest
  convert_rest-Balanced from tw rest c z b =
      let k = pos 0 in
      let v = rest -ℤ tw in
      let own = λ (a : Account). if a.proxy == proxy_to_self then pos 0 -ℤ tw else pos 0 in
      after (assert (not (ltb_ℤ rest (pos 0)))) (λ _ _.
        after (mul_price (vests rest) (get_vesting_share_price c.gpo)) (λ converted _.
          after (modify_account from (withdraw_shares safe remainder to_uint64 tw converted) c)
            (λ c1 e1. after (take_fund safe remainder to_uint64 converted rest c1) (λ c2 e2.
              let (a, a', m, found, kept) =
                modify_account-Moves safe exact from
                  (withdraw_shares safe remainder to_uint64 tw converted) converted.amount
                  (pos 0 -ℤ tw) own (pos 0) c {c' = c1} (withdraw_shares-Effect tw converted) e1 in
              let b1 = Moves-Debts k v v converted.amount (pos 0 -ℤ tw) (own a) m b in
              let b2 =
                (take_fund-Debts converted rest (k -ℤ converted.amount) (v -ℤ (pos 0 -ℤ tw))
                    (v -ℤ own a) c1 b1).on_ok
                  c2 e2 in
              let f2 =
                subst (λ xs. find (named from) xs ≡ some a')
                  (sym ((take_fund-accounts converted rest c1).on_ok c2 e2)) found in
              settle c2 a a' (k -ℤ converted.amount +ℤ converted.amount)
                (v -ℤ (pos 0 -ℤ tw) -ℤ rest) (v -ℤ own a -ℤ rest) kept f2 (omega int_laws)
                (omega int_laws) refl b2))))
    where
      settle :
          (d : Chain) (a a' : Account) (k v n : ℤ)
          → a'.proxy ≡ a.proxy
          → find (named from) d.accounts ≡ some a'
          → k ≡ pos 0
          → v ≡ pos 0
          → n ≡ rest -ℤ tw -ℤ (if a.proxy == proxy_to_self then pos 0 -ℤ tw else pos 0) -ℤ rest
          → Debts d k v n
          → Ensures
              (if ltb_ℤ (pos 0) tw
                then (safe (pos 0 -ℤ tw) >>= λ lost. adjust_proxied_witness_votes safe from lost d)
                else ok d)
              Balanced
      settle d a a' k v n kept f ek ev en b =
          Ensures-if (ltb_ℤ (pos 0) tw) _ _
            (λ _. after (safe (pos 0 -ℤ tw)) (λ lost el. record {
              on_ok = λ d' e.
                  let q = exact _ lost el in
                  let sum = once safe exact a a' lost kept in
                  let own : n
                      ≡ rest -ℤ tw -ℤ (if a.proxy == proxy_to_self then lost else pos 0) -ℤ rest =
                    subst
                      (λ x.
                        n ≡ rest -ℤ tw -ℤ (if a.proxy == proxy_to_self then x else pos 0) -ℤ rest)
                      q en in
                  Debts-Balanced k v (n -ℤ walked safe exact 4 a' lost) ek ev
                    (grind (int_laws, sum, own, q))
                    (walk-Debts safe exact from lost a' {c = d} {c' = d'} k v n f b e);
            }))
            (λ low. finally (
              let o : tw ≡ pos 0 = grind int_laws in
              Debts-Balanced k v n ek ev
                (en ∙ elim (Bool-cases (a.proxy == proxy_to_self)) [
                  | inl t ↦ rw (t, o) (omega int_laws)
                  | inr t ↦ rw (t, o) (omega int_laws)
                ])
                b))
