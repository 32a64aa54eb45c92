-- ===== src/Chain/Evaluators/Tokens.antt =====
-- wls_evaluator.cpp: the operations on tokens, against the sums of `validate_invariants`.
use vidpow.Prelude.{ℕ, ◌≡◌, refl, sym, subst, false, ◌==◌, if◌then◌else◌}
use vidpow.Prelude.{Result, ok, ◌>>=◌, Bool-cases, inl, inr, assert, Ensures, after, finally}
use vidpow.Prelude.Int.{ℤ, pos, ◌+ℤ◌, ◌-ℤ◌, int_laws}
use vidpow.Protocol.Asset.{
  asset_le, asset_ge, wls_symbol, IsExact, Asset, asset_neg, asset_add, asset_sub,
}
use vidpow.Chain.Ledger.State.{get_account, modify_account, Account, Chain, proxy_to_self}
use vidpow.Chain.Ledger.Invariants.{
  held, vesting_of, vsf_votes, Moves, Balanced, InFlight, Balanced-InFlight, InFlight-Balanced,
}
use vidpow.Chain.Ledger.Effects.{
  asset_neg-amount, asset_add-amount, asset_sub-amount, Effect, modify_account-Moves,
}
use vidpow.Chain.Ledger.Flight.{
  once, adjust_balance-InFlight, adjust_reward_balance-InFlight, create_vesting-InFlight,
}
use vidpow.Chain.Ledger.Supply.{
  wls, get_balance, adjust_balance, adjust_reward_balance, create_vesting, vests,
}
use vidpow.Chain.Ledger.Votes.{adjust_proxied, adjust_proxied_witness_votes}
use vidpow.Chain.Ledger.Conservation.{walked, adjust_proxied-Moves}
use vidpow.Chain.Evaluators.{
  steem_to_move, claim_shares, claim_fund, transfer, transfer_to_vesting, claim_reward_balance,
}

module _ (safe : ℤ → Result ℤ) (exact : IsExact safe) where
  -- What is taken from one side is given to the other.
  paid :
      (amount : Asset) {debit : Asset} {c : Chain}
      → asset_neg safe amount ≡ ok debit
      → InFlight c (pos 0 -ℤ debit.amount -ℤ amount.amount)
      → Balanced c
  paid amount {debit} e b =
      let z : pos 0 -ℤ debit.amount -ℤ amount.amount ≡ pos 0 =
        rw ((asset_neg-amount safe exact amount).on_ok debit e) (omega int_laws) in
      InFlight-Balanced (pos 0 -ℤ debit.amount -ℤ amount.amount) z b

  transfer-Ensures :
      (from to : ℕ) (amount : Asset) (c : Chain)
      → Balanced c
      → Ensures (transfer safe from to amount c) Balanced
  unfolding transfer
  transfer-Ensures from to amount c b = after (get_account from c) (λ f _.
      after (get_account to c) (λ t _. after (get_balance f amount.symbol) (λ balance _.
        after (asset_ge balance amount) (λ sufficient _. after (assert sufficient) (λ _ _.
          after (asset_neg safe amount) (λ debit ed.
            after (adjust_balance safe f.name debit c) (λ d ec. record {
              on_ok = λ c' e. paid amount ed (
                  adjust_balance-InFlight safe exact t.name amount (pos 0 -ℤ debit.amount) d
                    (adjust_balance-InFlight safe exact f.name debit (pos 0) c (Balanced-InFlight b)
                      ec)
                    e);
            })))))))

  transfer_to_vesting-Ensures :
      (from to : ℕ) (amount : Asset) (c : Chain)
      → Balanced c
      → Ensures (transfer_to_vesting safe from to amount c) Balanced
  unfolding transfer_to_vesting
  transfer_to_vesting-Ensures from to amount c b = after (get_account from c) (λ f _.
      after (if to == 0 then ok f else get_account to c) (λ t _.
        after (get_balance f wls_symbol) (λ balance _.
          after (asset_ge balance amount) (λ sufficient _. after (assert sufficient) (λ _ _.
            after (asset_neg safe amount) (λ debit ed.
              after (adjust_balance safe f.name debit c) (λ d ec.
                after (create_vesting safe t.name amount false d) (λ r er. finally (
                  paid amount ed (
                    create_vesting-InFlight safe exact t.name amount false (pos 0 -ℤ debit.amount) d
                      (adjust_balance-InFlight safe exact f.name debit (pos 0) c
                        (Balanced-InFlight b) ec)
                      er))))))))))

  claim_shares-Ensures :
      (rv : Asset) (moved : ℤ) (a : Account)
      → Ensures (claim_shares safe rv moved a) (λ a'.
        (held a' ≡ held a +ℤ pos 0)
        × (vesting_of a' ≡ vesting_of a +ℤ pos 0)
        × (vsf_votes a' ≡ vsf_votes a +ℤ (if a.proxy == proxy_to_self then rv.amount else pos 0))
        × (a'.reward_vesting_steem ≡ a.reward_vesting_steem +ℤ (pos 0 -ℤ moved))
        × (a'.name ≡ a.name)
        × (a'.proxy ≡ a.proxy))
  unfolding claim_shares
  claim_shares-Ensures rv moved a = after (asset_add safe (vests a.vesting_shares) rv) (λ v ev.
      after (asset_sub safe (vests a.reward_vesting_balance) rv) (λ w ew.
        after (safe (a.reward_vesting_steem -ℤ moved)) (λ s es.
          let av = (asset_add-amount safe exact (vests a.vesting_shares) rv).on_ok v ev in
          let aw = (asset_sub-amount safe exact (vests a.reward_vesting_balance) rv).on_ok w ew in
          let kept = exact _ s es in
          finally (
            omega int_laws,
            rw (av, aw) (omega int_laws),
            rw av (elim (Bool-cases (a.proxy == proxy_to_self)) [
              | inl b ↦ rw b (omega int_laws)
              | inr b ↦ rw b (omega int_laws)
            ]),
            rw (← kept) (omega int_laws),
            refl,
            refl,
          ))))

  claim_shares-Effect :
      (reward_vests : Asset) (moved : ℤ)
      → Effect safe exact
          (claim_shares safe reward_vests moved)
          (pos 0)
          (pos 0)
          (λ a. if a.proxy == proxy_to_self then reward_vests.amount else pos 0)
          (pos 0 -ℤ moved)
  unfolding claim_shares
  claim_shares-Effect rv moved a a' e = (claim_shares-Ensures rv moved a).on_ok a' e

  abbrev claimed : ℤ → ℤ → Chain → Chain
  claimed shares moved c =
      let g = c.gpo in
      record c {
        gpo = record g {
          total_vesting_shares = g.total_vesting_shares +ℤ shares;
          total_vesting_fund_steem = g.total_vesting_fund_steem +ℤ moved;
          pending_rewarded_vesting_shares = g.pending_rewarded_vesting_shares -ℤ shares;
          pending_rewarded_vesting_steem = g.pending_rewarded_vesting_steem -ℤ moved;
        };
      }

  claim_fund-ok :
      (rv : Asset) (moved : ℤ) (c : Chain)
      → Ensures (claim_fund safe rv moved c) (λ c'. claimed rv.amount moved c ≡ c')
  unfolding claim_fund
  claim_fund-ok rv moved c =
      let g = c.gpo in
      after (asset_add safe (vests g.total_vesting_shares) rv) (λ v ev.
        after (safe (g.total_vesting_fund_steem +ℤ moved)) (λ f ef.
          after (asset_sub safe (vests g.pending_rewarded_vesting_shares) rv) (λ pv epv.
            after (safe (g.pending_rewarded_vesting_steem -ℤ moved)) (λ pf epf.
              let av = (asset_add-amount safe exact (vests g.total_vesting_shares) rv).on_ok v ev in
              let apv =
                (asset_sub-amount safe exact (vests g.pending_rewarded_vesting_shares) rv).on_ok pv
                  epv in
              let af = exact _ f ef in let apf = exact _ pf epf in finally cc))))

  claimed-Balanced :
      (shares moved n w : ℤ) {c d c' : Chain}
      → n +ℤ w ≡ shares
      → Moves c d (pos 0) (pos 0) n (pos 0 -ℤ moved)
      → Moves (claimed shares moved d) c' (pos 0) (pos 0) w (pos 0)
      → Balanced c
      → Balanced c'
  claimed-Balanced shares moved n w {c} {d} {c'} sum m r b = record {
    supply = rw (r.gpo, r.funds, r.held, m.gpo, m.funds, m.held) (grind (int_laws, b.supply));
    vesting = rw (r.gpo, r.vesting, m.gpo, m.vesting) (grind (int_laws, b.vesting));
    votes = rw (r.gpo, r.votes, m.gpo, m.votes) (grind (int_laws, b.votes, sum));
    pending = rw (r.gpo, r.pending, m.gpo, m.pending) (grind (int_laws, b.pending));
  }

  proxied_votes :
      (name : ℕ) (delta : ℤ) (c : Chain) {c' : Chain}
      → adjust_proxied_witness_votes safe name delta c ≡ ok c'
      → adjust_proxied safe 4 0 name delta c ≡ ok c'
  unfolding adjust_proxied_witness_votes
  proxied_votes name delta c e = e

  -- From the account's shares on, with the balances settled.
  claim_rest-Balanced :
      (name : ℕ) (rv : Asset) (moved : ℤ) (c : Chain)
      → Balanced c
      → Ensures
          (modify_account name (claim_shares safe rv moved) c >>= λ c3.
            claim_fund safe rv moved c3 >>= λ c4.
            adjust_proxied_witness_votes safe name rv.amount c4)
          Balanced
  claim_rest-Balanced name rv moved c b =
      let n = λ (a : Account). if a.proxy == proxy_to_self then rv.amount else pos 0 in
      after (modify_account name (claim_shares safe rv moved) c) (λ c3 e3.
        let (a, a', m, found, kept) =
          modify_account-Moves safe exact name (claim_shares safe rv moved) (pos 0) (pos 0) n
            (pos 0 -ℤ moved) c {c' = c3} (claim_shares-Effect rv moved) e3 in
        after (claim_fund safe rv moved c3) (λ c4 e4. record {
          on_ok = λ c' e.
              let q = (claim_fund-ok rv moved c3).on_ok c4 e4 in
              let w =
                adjust_proxied-Moves safe exact 4 0 name rv.amount (claimed rv.amount moved c3)
                  {c' = c'} a' refl found
                  (proxied_votes name rv.amount (claimed rv.amount moved c3) (
                    subst (λ d. adjust_proxied_witness_votes safe name rv.amount d ≡ ok c') (sym q)
                      e)) in
              claimed-Balanced rv.amount moved (n a) (walked safe exact 4 a' rv.amount)
                (once safe exact a a' rv.amount kept) m w b;
        }))

  claim_reward_balance-Ensures :
      (to_uint64 : ℕ → Result ℕ) (account : ℕ) (reward_steem reward_vests : Asset) (c : Chain)
      → Balanced c
      → Ensures (claim_reward_balance safe to_uint64 account reward_steem reward_vests c) Balanced
  unfolding claim_reward_balance
  claim_reward_balance-Ensures to_uint64 account rs rv c b = after (get_account account c) (λ a _.
      after (asset_le rs (wls a.reward_steem_balance)) (λ enough _. after (assert enough) (λ _ _.
        after (asset_le rv (vests a.reward_vesting_balance)) (λ more _. after (assert more) (λ _ _.
          after (steem_to_move safe to_uint64 rv a) (λ moved _.
            after (asset_neg safe rs) (λ debit ed.
              after (adjust_reward_balance safe a.name debit c) (λ c1 e1.
                after (adjust_balance safe a.name rs c1) (λ c2 e2.
                  claim_rest-Balanced a.name rv moved c2 (
                    paid rs ed (
                      adjust_balance-InFlight safe exact a.name rs (pos 0 -ℤ debit.amount) c1
                        (adjust_reward_balance-InFlight safe exact a.name debit (pos 0) c
                          (Balanced-InFlight b) e1)
                        e2)))))))))))

  -- A transfer that is applied to a state with the four sums of `validate_invariants` in order
  -- leaves a state with them in order, where the arithmetic on shares returns only exact values.
  pub transfer-Balanced :
      (from to : ℕ) (amount : Asset) (c : Chain) {c' : Chain}
      → Balanced c
      → transfer safe from to amount c ≡ ok c'
      → Balanced c'
  transfer-Balanced from to amount c {c'} b e = (transfer-Ensures from to amount c b).on_ok c' e

  -- A transfer to vesting that is applied to a state with the four sums of `validate_invariants` in
  -- order leaves a state with them in order, where the arithmetic on shares returns only exact
  -- values: the tokens paid are in the vesting fund, and the shares they buy are counted once in
  -- the votes.
  pub transfer_to_vesting-Balanced :
      (from to : ℕ) (amount : Asset) (c : Chain) {c' : Chain}
      → Balanced c
      → transfer_to_vesting safe from to amount c ≡ ok c'
      → Balanced c'
  transfer_to_vesting-Balanced from to amount c {c'} b e =
      (transfer_to_vesting-Ensures from to amount c b).on_ok c' e

  -- A claim of rewards that is applied to a state with the four sums of `validate_invariants` in
  -- order leaves a state with them in order, where the arithmetic on shares returns only exact
  -- values.
  pub claim_reward_balance-Balanced :
      (to_uint64 : ℕ → Result ℕ) (account : ℕ) (reward_steem reward_vests : Asset) (c : Chain)
      {c' : Chain}
      → Balanced c
      → claim_reward_balance safe to_uint64 account reward_steem reward_vests c ≡ ok c'
      → Balanced c'
  claim_reward_balance-Balanced to_uint64 account rs rv c {c'} b e =
      (claim_reward_balance-Ensures to_uint64 account rs rv c b).on_ok c' e
