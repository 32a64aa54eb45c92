-- ===== src/Chain/Funds/Balances.antt =====
-- database.cpp: the tokens that a block issues against the sums of `validate_invariants`.
use vidpow.Prelude.{ℕ, ◌*◌, ◌≡◌, refl, false, not, List, [], ◌∷◌}
use vidpow.Prelude.{Result, ok, assert, Ensures, after, finally}
use vidpow.Prelude.Int.{ℤ, pos, ◌+ℤ◌, ◌-ℤ◌, ltb_ℤ, int_laws}
use vidpow.Prelude.Sums.{sum_by}
use vidpow.Protocol.Asset.{IsExact}
use vidpow.Chain.Ledger.State.{RewardFund, Chain, get_account, get_witness, modify_account}
use vidpow.Chain.Ledger.Invariants.{
  Balanced, InFlight, Balanced-InFlight, InFlight-Balanced, Moves-InFlight,
}
use vidpow.Chain.Ledger.Supply.{wls, add_balance, create_vesting}
use vidpow.Chain.Ledger.Effects.{modify_account-Moves, add_balance-Effect}
use vidpow.Chain.Ledger.Flight.{create_vesting-InFlight}
use vidpow.Chain.Slots.{blocks_per_year, get_current_inflation_rate}
use vidpow.Chain.Funds.{
  dev_fund, part_of, pay_each, pay_reward_funds, witness_pay, add_supply, process_funds,
}

module _ (safe : ℤ → Result ℤ) (exact : IsExact safe) (divide : ℤ → ℕ → Result ℤ) where
  abbrev funded : List RewardFund → ℤ
  funded fs = sum_by (λ f. f.reward_balance) fs

  pay_each-funded :
      (reward used : ℤ) (fs : List RewardFund)
      → Ensures (pay_each safe divide reward used fs) (λ r. funded r.1 +ℤ used ≡ funded fs +ℤ r.0)
  unfolding pay_each
  pay_each-funded reward used [] = finally refl
  pay_each-funded reward used (f ∷ fs) =
      after (part_of safe divide reward f.percent_content_rewards 10000) (λ r _.
        after (safe (f.reward_balance +ℤ r)) (λ b eb. after (safe (used +ℤ r)) (λ u eu.
          after (assert (not (ltb_ℤ reward u))) (λ _ _.
            after (pay_each safe divide reward u fs) (λ rest er.
              let ih = (pay_each-funded reward u fs).on_ok rest er in
              let kb = exact _ b eb in
              let ku = exact _ u eu in finally (grind (int_laws, ih, kb, ku)))))))

  -- What the funds are paid comes out of the tokens in flight.
  pay_reward_funds-InFlight :
      (reward k : ℤ) (c : Chain)
      → InFlight c k
      → Ensures (pay_reward_funds safe divide reward c) (λ r. InFlight r.1 (k -ℤ r.0))
  unfolding pay_reward_funds
  pay_reward_funds-InFlight reward k c b =
      after (pay_each safe divide reward (pos 0) c.funds) (λ r er.
        let e = (pay_each-funded reward (pos 0) c.funds).on_ok r er in
        finally (record {
          supply = grind (int_laws, b.supply, e);
          vesting = b.vesting;
          votes = b.votes;
          pending = b.pending;
        }))

  add_supply-InFlight :
      (new_steem k : ℤ) (c : Chain)
      → InFlight c k
      → Ensures (add_supply safe divide new_steem c) (λ c'. InFlight c' (k +ℤ new_steem))
  unfolding add_supply
  add_supply-InFlight new_steem k c b = after (safe (c.gpo.current_supply +ℤ new_steem)) (λ s es.
      let e = exact _ s es in
      finally (record {
        supply = grind (int_laws, b.supply, e);
        vesting = b.vesting;
        votes = b.votes;
        pending = b.pending;
      }))

  process_funds-Ensures : (c : Chain) → Balanced c → Ensures (process_funds safe divide c) Balanced
  unfolding process_funds
  process_funds-Ensures c b =
      let rate = get_current_inflation_rate c.gpo.head_block_number in
      after (part_of safe divide c.gpo.current_supply rate (10000 * blocks_per_year)) (λ issued _.
        after (part_of safe divide issued 8500 10000) (λ content _.
          after (pay_reward_funds safe divide content c) (λ r er.
            after (part_of safe divide issued 500 10000) (λ dev _.
              after (safe (issued -ℤ r.0)) (λ l _. after (safe (l -ℤ dev)) (λ rest _.
                after (get_witness r.1.gpo.current_witness r.1) (λ cwit _.
                  after (witness_pay safe divide rest cwit.schedule r.1.schedule) (λ pay _.
                    after (safe (r.0 +ℤ dev)) (λ most em. after (safe (most +ℤ pay)) (λ new en.
                      after (add_supply safe divide new r.1) (λ c2 e2.
                        after (get_account cwit.owner c2) (λ owner _.
                          after (create_vesting safe owner.name (wls pay) false c2) (λ v ev.
                            let b1 =
                              (pay_reward_funds-InFlight content (pos 0) c
                                  (Balanced-InFlight b)).on_ok
                                r er in
                            let b2 = (add_supply-InFlight new (pos 0 -ℤ r.0) r.1 b1).on_ok c2 e2 in
                            let b3 =
                              create_vesting-InFlight safe exact owner.name (wls pay) false
                                (pos 0 -ℤ r.0 +ℤ new) c2 {shares = v.0} {c' = v.1} b2 ev in
                            settle dev (pos 0 -ℤ r.0 +ℤ new -ℤ pay) v.1
                              (settled r.0 dev pay (exact _ most em) (exact _ new en))
                              b3)))))))))))))
    where
      settled :
          (content dev pay : ℤ) {most new : ℤ}
          → content +ℤ dev ≡ most
          → most +ℤ pay ≡ new
          → pos 0 -ℤ content +ℤ new -ℤ pay ≡ dev
      settled content dev pay e f = grind (int_laws, e, f)

      settle :
          (dev k : ℤ) (d : Chain)
          → k ≡ dev
          → InFlight d k
          → Ensures (modify_account dev_fund (add_balance safe (wls dev)) d) Balanced
      settle dev k d e f = record {
        on_ok = λ c' q.
            let (_, _, m, _, _) =
              modify_account-Moves safe exact dev_fund (add_balance safe (wls dev)) dev (pos 0)
                (λ a. pos 0) (pos 0) d {c' = c'} (add_balance-Effect safe exact (wls dev)) q in
            InFlight-Balanced (k -ℤ dev) (rw e (omega int_laws)) (Moves-InFlight k dev m f);
      }

  -- The payments of a block that are made from a state with the four sums of `validate_invariants`
  -- in order leave a state with them in order, where the arithmetic on shares returns only exact
  -- values: the supply grows by what the reward funds, the producer and the developers are paid.
  pub process_funds-Balanced :
      (c : Chain) {c' : Chain} → Balanced c → process_funds safe divide c ≡ ok c' → Balanced c'
  process_funds-Balanced c {c'} b e = (process_funds-Ensures c b).on_ok c' e
