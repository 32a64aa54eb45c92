-- ===== src/Chain/Rewards/Tests.antt =====
-- Tests of the rewards: two comments share a fund by a linear curve.
use vidpow.Prelude.{ℕ, zero, suc, ◌/◌, ◌≡◌, ◌≤◌, refl, ◌==◌, if◌then◌else◌, List, [], ◌∷◌, arith}
use vidpow.Prelude.{ok, err, assertion}
use vidpow.Prelude.Int.{pos}
use vidpow.Chain.Rewards.{
  WideNumbers, RewardContext, linear, evaluate_reward_curve, approx_sqrt, find_msb, claim_of,
  get_rshare_reward,
}
use vidpow.Chain.Rewards.Payouts.{rewards, claims, rewards-le}

abbrev pub highest : ℕ → ℕ → ℕ
highest zero x = 0
highest (suc n) x = if x / 2 == 0 then 0 else suc (highest n (x / 2))

abbrev pub wide : WideNumbers
wide = record { find_msb = highest 64; div = λ a b. if b == 0 then err assertion else ok (a / b) }

abbrev comment : ℕ → RewardContext
comment rshares = record {
  rshares = pos rshares;
  reward_weight = 10000;
  max_payout = pos 1000000;
  total_reward_shares2 = 100;
  total_reward_fund_steem = pos 1000;
  reward_curve = linear;
  content_constant = 0;
}

abbrev comments : List RewardContext
comments = comment 30 ∷ comment 65 ∷ []

root : approx_sqrt wide 100 ≡ 10
unfolding approx_sqrt find_msb
root = refl

paid : rewards wide comments ≡ ok 950
unfolding get_rshare_reward claim_of evaluate_reward_curve
paid = refl

claimed : claims wide comments ≡ ok 95
unfolding claim_of evaluate_reward_curve
claimed = refl

rewards-le_example : 950 ≤ 1000
rewards-le_example =
    rewards-le wide 1000 100 comments
      ((refl, refl, (1000000, refl)), ((refl, refl, (1000000, refl)), tt)) (omega arith) claimed
      (omega arith) paid
