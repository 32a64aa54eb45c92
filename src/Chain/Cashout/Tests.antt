-- ===== src/Chain/Cashout/Tests.antt =====
-- Tests of the payouts: a comment of account 1 with one vote and one beneficiary, account 2, gets half of
-- the fund.
use vidpow.Prelude.{ℕ, ◌-◌, ◌%◌, ◌^◌, ◌≡◌, refl, arith, true, List, [], ◌∷◌}
use vidpow.Prelude.{Result, ok, ok-injective}
use vidpow.Prelude.Int.{ℤ, pos, ◌+ℤ◌, ◌-ℤ◌, ◌*ℤ◌}
use vidpow.Protocol.Asset.{
  IsExact, mul_price, convert, symbol_name, same_text, c_string, signed64, to_u128,
}
use vidpow.Chain.Rewards.{linear, evaluate_reward_curve, claim_of, get_rshare_reward}
use vidpow.Chain.Rewards.Tests.{wide}
use vidpow.Chain.Ledger.Content.{Comment}
use vidpow.Chain.Ledger.State.{Chain, RewardFund, post_fund, get_account, modify_account}
use vidpow.Chain.Ledger.Supply.{
  get_reward_vesting_share_price, new_vesting, add_reward_vesting, add_pending, create_vesting,
}
use vidpow.Chain.Ledger.Invariants.{Balanced}
use vidpow.Chain.Evaluators.Tests.{chain, account}
use vidpow.Chain.Funds.Tests.{divide}
use vidpow.Chain.Cashout.{
  get_reward_fund, modify_comment, votes_on, reset_comment, add_curation, add_posting, pay_curator,
  pay_votes, pay_curators, pay_beneficiaries, adjust_total_payout, add_author_rewards, pay_author,
  pay_reward, pay_rshares, cashout_comment_helper,
}
use vidpow.Chain.Cashout.Rounds.{
  FundContext, decay, fund_id, context_at, modify_context, first_due, add_claim, add_claims, award,
  write_funds, pay_comment, next_turn, pay_comments, process_comment_cashout,
}
use vidpow.Chain.Cashout.Runs.{Loop, pay_comments_total}
use vidpow.Chain.Cashout.Conservation.{process_comment_cashout-Balanced}

exact : IsExact ok
exact x y e = ok-injective e

abbrev to_uint64 : ℕ → Result ℕ
to_uint64 x = ok (x % 2 ^ 64)

abbrev post : Comment
post = record {
  id = 0;
  author = 1;
  last_payout = 0;
  net_rshares = pos 50;
  abs_rshares = pos 50;
  vote_rshares = pos 50;
  children_abs_rshares = pos 0;
  cashout_time = 20;
  max_cashout_time = 20;
  total_vote_weight = 1;
  reward_weight = 10000;
  total_payout_value = pos 0;
  curator_payout_value = pos 0;
  beneficiary_payout_value = pos 0;
  author_rewards = pos 0;
  max_accepted_payout = pos 1000000;
  allow_curation_rewards = true;
  beneficiaries = record { account = 2; weight = 1000 } ∷ [];
}

abbrev paid_post : Comment
paid_post = record post {
  last_payout = 21;
  net_rshares = pos 0;
  abs_rshares = pos 0;
  vote_rshares = pos 0;
  cashout_time = 2 ^ 32 - 1;
  max_cashout_time = 2 ^ 32 - 1;
  total_vote_weight = 0;
  total_payout_value = pos 45;
  curator_payout_value = pos 16;
  beneficiary_payout_value = pos 5;
  author_rewards = pos 45;
}

abbrev fund : ℤ → ℕ → RewardFund
fund balance claims = record {
  name = post_fund;
  reward_balance = balance;
  recent_claims = claims;
  last_update = 21;
  content_constant = 0;
  percent_curation_rewards = 2500;
  percent_content_rewards = 10000;
  author_reward_curve = linear;
}

abbrev before : Chain
before = record chain {
  comments = post ∷ [];
  comment_votes = record { voter = 2; comment = 0; weight = 1 } ∷ [];
  funds = fund (pos 132) 50 ∷ [];
}

abbrev after : Chain
after = record chain {
  accounts =
      record (account 1 0 (pos 1000) (pos 1000) (pos 2000)) {
        reward_vesting_balance = pos 490;
        reward_vesting_steem = pos 49;
        posting_rewards = pos 45;
      }
      ∷ record (account 2 1 (pos 500) (pos 2000) (pos 0)) {
        reward_vesting_balance = pos 250;
        reward_vesting_steem = pos 25;
        curation_rewards = pos 16;
      }
      ∷ [];
  comments = paid_post ∷ [];
  funds = fund (pos 66) 100 ∷ [];
  gpo = record chain.gpo {
    pending_rewarded_vesting_shares = pos 740;
    pending_rewarded_vesting_steem = pos 74;
  };
}

before-Balanced : Balanced before
unfolding ◌+ℤ◌
before-Balanced = record { supply = refl; vesting = refl; votes = refl; pending = refl }

cashed_out : process_comment_cashout ok divide to_uint64 wide before ≡ ok after
unfolding process_comment_cashout pay_comments next_turn pay_comment first_due decay fund_id
    context_at modify_context add_claim add_claims award write_funds get_reward_fund modify_comment
    votes_on reset_comment add_curation add_posting pay_curator pay_votes pay_curators
    pay_beneficiaries adjust_total_payout add_author_rewards pay_author pay_reward pay_rshares
    cashout_comment_helper evaluate_reward_curve claim_of get_rshare_reward get_account
    modify_account create_vesting new_vesting get_reward_vesting_share_price add_reward_vesting
    add_pending mul_price convert symbol_name same_text c_string signed64 to_u128 ◌+ℤ◌ ◌-ℤ◌ ◌*ℤ◌
cashed_out = refl

process_comment_cashout-Balanced_example : Balanced after
process_comment_cashout-Balanced_example =
    process_comment_cashout-Balanced ok exact divide to_uint64 wide before {c' = after}
      before-Balanced cashed_out

abbrev contexts : List FundContext
contexts = record { recent_claims = 100; reward_balance = pos 132; steem_awarded = pos 0 } ∷ []

pay_comments_total_example :
    Loop ok divide to_uint64 wide contexts before
      (pay_comments ok divide to_uint64 wide 2 contexts before)
pay_comments_total_example =
    pay_comments_total ok divide to_uint64 wide contexts before (tt, tt) (omega arith)
