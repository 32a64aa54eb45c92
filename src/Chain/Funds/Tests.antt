-- ===== src/Chain/Funds/Tests.antt =====
-- Tests of the payments of a block, at a chain whose supply issues 1000 tokens for it.
use vidpow.Prelude.{ℕ, zero, suc, ◌/◌, ◌≡◌, refl, [], ◌∷◌, ◌++◌}
use vidpow.Prelude.{Result, ok, err, assertion, ok-injective}
use vidpow.Prelude.Int.{ℤ, pos, negsuc, ◌+ℤ◌, ◌-ℤ◌, ◌*ℤ◌}
use vidpow.Protocol.Asset.{
  IsExact, mul_price, convert, symbol_name, same_text, c_string, signed64, to_u128,
}
use vidpow.Chain.Rewards.{linear}
use vidpow.Chain.Ledger.State.{
  post_fund, Account, Chain, top19, get_account, get_witness, modify_account,
}
use vidpow.Chain.Ledger.Votes.{
  adjust_each, adjust_witness_votes, adjust_proxied, adjust_proxied_witness_votes,
}
use vidpow.Chain.Ledger.Supply.{
  get_vesting_share_price, add_balance, new_vesting, add_vesting, add_fund, create_vesting,
}
use vidpow.Chain.Ledger.Invariants.{Balanced}
use vidpow.Chain.Slots.{get_current_inflation_rate, start_rate, rate_in_year}
use vidpow.Chain.Evaluators.Tests.{chain, account, witness}
use vidpow.Chain.Funds.{
  dev_fund, part_of, pay_each, pay_reward_funds, weighted, witness_pay, add_supply, process_funds,
}
use vidpow.Chain.Funds.Balances.{process_funds-Balanced}

exact : IsExact ok
exact x y e = ok-injective e

-- Division towards zero, which throws at 0.
abbrev pub divide : ℤ → ℕ → Result ℤ
divide x zero = err assertion
divide (pos n) (suc d) = ok (pos (n / suc d))
divide (negsuc n) (suc d) = ok (pos 0 -ℤ pos (suc n / suc d))

abbrev pub without_rewards : ℕ → ℤ → ℤ → Account
without_rewards name balance shares = record (account name 0 balance shares (pos 0)) {
  reward_steem_balance = pos 0;
  reward_vesting_balance = pos 0;
  reward_vesting_steem = pos 0;
}

-- The chain, its first fund at `fund`, with the supply and the vesting fund that go with it, and with
-- the balance of the developers' account and the shares of account 3.
abbrev funded_chain : ℕ → ℕ → ℕ → ℕ → ℕ → ℕ → Chain
funded_chain supply fund vesting_fund vesting dev shares = record chain {
  accounts =
      chain.accounts
      ++ without_rewards 3 (pos 0) (pos shares) ∷ without_rewards dev_fund (pos dev) (pos 0) ∷ [];
  witnesses = record (witness (pos 3000)) { schedule = top19 } ∷ [];
  funds =
      record {
        name = post_fund;
        reward_balance = pos fund;
        recent_claims = 0;
        last_update = 0;
        content_constant = 0;
        percent_curation_rewards = 2500;
        percent_content_rewards = 10000;
        author_reward_curve = linear;
      }
      ∷ [];
  gpo = record chain.gpo {
    current_supply = pos supply;
    total_vesting_fund_steem = pos vesting_fund;
    total_vesting_shares = pos vesting;
  };
}

abbrev before : Chain
before = funded_chain 10512000000 10511998132 300 3000 0 0

abbrev after : Chain
after = funded_chain 10512000984 10511998982 384 3840 50 840

before-Balanced : Balanced before
unfolding ◌+ℤ◌
before-Balanced = record { supply = refl; vesting = refl; votes = refl; pending = refl }

processed : process_funds ok divide before ≡ ok after
unfolding process_funds part_of pay_reward_funds pay_each witness_pay weighted add_supply
    get_current_inflation_rate start_rate rate_in_year get_account get_witness modify_account
    add_balance create_vesting new_vesting get_vesting_share_price mul_price convert symbol_name
    same_text c_string signed64 to_u128 add_vesting add_fund adjust_proxied_witness_votes
    adjust_proxied adjust_witness_votes adjust_each ◌+ℤ◌ ◌-ℤ◌ ◌*ℤ◌
processed = refl

process_funds-Balanced_example : Balanced after
process_funds-Balanced_example =
    process_funds-Balanced ok exact divide before {c' = after} before-Balanced processed
