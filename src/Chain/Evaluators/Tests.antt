-- ===== src/Chain/Evaluators/Tests.antt =====
-- Tests of the operations on tokens, and their theorems at a chain of two accounts, where account 2
-- has account 1 as its proxy and account 1 votes for the witness 3.
use vidpow.Prelude.{replicate, ◌==◌, if◌then◌else◌, ℕ, ◌-◌, ◌/◌, ◌^◌, ◌≡◌, refl, [], ◌∷◌}
use vidpow.Prelude.{ok, err, assertion, ok-injective}
use vidpow.Prelude.Int.{ℤ, pos, ◌+ℤ◌, ◌-ℤ◌}
use vidpow.Protocol.Asset.{
  IsExact, asset_lt, asset_ge, asset_le, asset_neg, asset_add, asset_sub, mul_price, convert,
  symbol_name, same_text, c_string, signed64, to_u128,
}
use vidpow.Chain.Rewards.{linear}
use vidpow.Chain.Ledger.State.{
  post_fund, Account, Witness, GlobalProperties, Chain, unscheduled, get_account, get_witness,
  modify_account, modify_witness,
}
use vidpow.Chain.Ledger.Votes.{
  scheduled_time, change_votes, adjust_witness_vote, adjust_each, adjust_witness_votes, add_proxied,
  proxy_votes, adjust_proxied, adjust_proxied_witness_votes,
}
use vidpow.Chain.Ledger.Supply.{
  wls, vests, get_balance, get_vesting_share_price, add_balance, adjust_balance, add_reward_balance,
  adjust_reward_balance, new_vesting, add_vesting, add_fund, create_vesting,
}
use vidpow.Chain.Ledger.Invariants.{Balanced}
use vidpow.Chain.Evaluators.{
  transfer, transfer_to_vesting, claim_shares, claim_fund, steem_to_move, claim_reward_balance,
}
use vidpow.Chain.Evaluators.Tokens.{
  transfer-Balanced, transfer_to_vesting-Balanced, claim_reward_balance-Balanced,
}

ok-IsExact : IsExact ok
ok-IsExact x y e = ok-injective e

abbrev pub account : ℕ → ℕ → ℤ → ℤ → ℤ → Account
account name proxy balance shares proxied = record {
  name = name;
  proxy = proxy;
  voting_power = 10000;
  last_vote_time = 0;
  balance = balance;
  reward_steem_balance = pos 5;
  reward_vesting_balance = pos 40;
  reward_vesting_steem = pos 4;
  curation_rewards = pos 0;
  posting_rewards = pos 0;
  vesting_shares = shares;
  vesting_withdraw_rate = pos 0;
  next_vesting_withdrawal = 0;
  withdrawn = pos 0;
  to_withdraw = pos 0;
  withdraw_routes = 0;
  proxied_vsf_votes = record { at_0 = proxied; at_1 = pos 0; at_2 = pos 0; at_3 = pos 0 };
  witnesses_voted_for = if name == 1 then 1 else 0;
}

abbrev pub witness : ℤ → Witness
witness votes = record {
  owner = 3;
  signing_key = 1;
  account_creation_fee = pos 0;
  maximum_block_size = 65536;
  votes = votes;
  schedule = unscheduled;
  virtual_last_update = 0;
  virtual_position = 0;
  virtual_scheduled_time = 0;
  total_missed = 0;
  last_aslot = 0;
  last_confirmed_block_num = 0;
  running_version = 0;
  hardfork_version_vote = 0;
  hardfork_time_vote = 0;
}

abbrev properties : GlobalProperties
properties = record {
  head_block_number = 7;
  head_block_id = 0;
  time = 21;
  current_witness = 3;
  current_supply = pos 2000;
  total_vesting_fund_steem = pos 300;
  total_vesting_shares = pos 3000;
  total_reward_fund_steem = pos 50;
  pending_rewarded_vesting_shares = pos 80;
  pending_rewarded_vesting_steem = pos 8;
  current_aslot = 7;
  recent_slots_filled = 127;
  participation_count = 7;
  last_irreversible_block_num = 1;
  maximum_block_size = 65536;
  vote_power_reserve_rate = 40;
}

abbrev pub chain : Chain
chain = record {
  accounts =
      account 1 0 (pos 1000) (pos 1000) (pos 2000) ∷ account 2 1 (pos 500) (pos 2000) (pos 0) ∷ [];
  witnesses = witness (pos 3000) ∷ [];
  witness_votes = record { witness = 3; account = 1 } ∷ [];
  comments = [];
  comment_votes = [];
  routes = [];
  funds =
      record {
        name = post_fund;
        reward_balance = pos 132;
        recent_claims = 0;
        last_update = 0;
        content_constant = 0;
        percent_curation_rewards = 2500;
        percent_content_rewards = 10000;
        author_reward_curve = linear;
      }
      ∷ [];
  gpo = properties;
  schedule = record {
    current_virtual_time = 0;
    next_shuffle_block_num = 21;
    current_shuffled_witnesses = 3 ∷ [];
    num_scheduled_witnesses = 1;
    top19_weight = 1;
    timeshare_weight = 5;
    witness_pay_normalization_factor = 25;
    median_account_creation_fee = pos 0;
    median_maximum_block_size = 65536;
  };
  block_summaries = replicate 16 0;
  transactions = [];
  hardforks = record {
    processed_hardforks = 0 ∷ [];
    last_hardfork = 0;
    current_hardfork_version = 0;
    next_hardfork = 0;
    next_hardfork_time = 0;
  };
}

chain-Balanced : Balanced chain
unfolding ◌+ℤ◌
chain-Balanced = record { supply = refl; vesting = refl; votes = refl; pending = refl }

abbrev after_transfer : Chain
after_transfer = record chain {
  accounts =
      account 1 0 (pos 900) (pos 1000) (pos 2000) ∷ account 2 1 (pos 600) (pos 2000) (pos 0) ∷ [];
}

transferred : transfer ok 1 2 (wls (pos 100)) chain ≡ ok after_transfer
unfolding transfer get_account get_balance asset_ge asset_lt asset_neg adjust_balance add_balance
    modify_account ◌+ℤ◌ ◌-ℤ◌
transferred = refl

too_much : transfer ok 1 2 (wls (pos 1001)) chain ≡ err assertion
unfolding transfer get_account get_balance asset_ge asset_lt asset_neg adjust_balance add_balance
    modify_account ◌+ℤ◌ ◌-ℤ◌
too_much = refl

transfer-Balanced_example : Balanced after_transfer
transfer-Balanced_example =
    transfer-Balanced ok ok-IsExact 1 2 (wls (pos 100)) chain {c' = after_transfer} chain-Balanced
      transferred

-- 100 tokens of account 2 buy 1000 shares, which are in the votes of the proxy and of its witness.
abbrev after_vesting : Chain
after_vesting = record chain {
  accounts =
      account 1 0 (pos 1000) (pos 1000) (pos 3000) ∷ account 2 1 (pos 400) (pos 3000) (pos 0) ∷ [];
  witnesses = record (witness (pos 4000)) { virtual_scheduled_time = (2 ^ 128 - 1) / 4001 } ∷ [];
  gpo = record properties { total_vesting_fund_steem = pos 400; total_vesting_shares = pos 4000 };
}

vested : transfer_to_vesting ok 2 0 (wls (pos 100)) chain ≡ ok after_vesting
unfolding transfer_to_vesting get_account get_balance asset_ge asset_lt asset_neg adjust_balance
    add_balance modify_account create_vesting new_vesting get_vesting_share_price mul_price convert
    symbol_name same_text c_string signed64 to_u128 add_vesting add_fund
    adjust_proxied_witness_votes adjust_proxied proxy_votes add_proxied adjust_witness_votes
    adjust_each adjust_witness_vote modify_witness get_witness change_votes scheduled_time ◌+ℤ◌ ◌-ℤ◌
vested = refl

transfer_to_vesting-Balanced_example : Balanced after_vesting
transfer_to_vesting-Balanced_example =
    transfer_to_vesting-Balanced ok ok-IsExact 2 0 (wls (pos 100)) chain {c' = after_vesting}
      chain-Balanced vested

-- Account 2 claims half of its reward shares, and all of its reward tokens.
abbrev after_claim : Chain
after_claim = record chain {
  accounts =
      account 1 0 (pos 1000) (pos 1000) (pos 2020)
      ∷ record (account 2 1 (pos 505) (pos 2020) (pos 0)) {
        reward_steem_balance = pos 0;
        reward_vesting_balance = pos 20;
        reward_vesting_steem = pos 2;
      }
      ∷ [];
  witnesses = record (witness (pos 3020)) { virtual_scheduled_time = (2 ^ 128 - 1) / 3021 } ∷ [];
  gpo = record properties {
    total_vesting_fund_steem = pos 302;
    total_vesting_shares = pos 3020;
    pending_rewarded_vesting_shares = pos 60;
    pending_rewarded_vesting_steem = pos 6;
  };
}

claimed : claim_reward_balance ok ok 2 (wls (pos 5)) (vests (pos 20)) chain ≡ ok after_claim
unfolding claim_reward_balance get_account asset_le asset_lt asset_neg asset_add asset_sub
    adjust_balance add_balance modify_account adjust_reward_balance add_reward_balance steem_to_move
    claim_shares claim_fund signed64 to_u128 adjust_proxied_witness_votes adjust_proxied proxy_votes
    add_proxied adjust_witness_votes adjust_each adjust_witness_vote modify_witness get_witness
    change_votes scheduled_time ◌+ℤ◌ ◌-ℤ◌
claimed = refl

claim_reward_balance-Balanced_example : Balanced after_claim
claim_reward_balance-Balanced_example =
    claim_reward_balance-Balanced ok ok-IsExact ok 2 (wls (pos 5)) (vests (pos 20)) chain
      {c' = after_claim} chain-Balanced claimed
