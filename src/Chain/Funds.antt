-- ===== src/Chain/Funds.antt =====
-- database.cpp: the tokens that a block issues, and where they go. `divide` is the division of
-- `share_type` by a number, which is the fc library's and may throw. The percents are of 10000, and a
-- year has 10512000 blocks.
pub mod Balances
pub mod Tests
use vidpow.Prelude.{ℕ, ◌+◌, ◌*◌, ◌^◌, not, false, List, [], ◌∷◌}
use vidpow.Prelude.{Result, ok, ◌>>=◌, ◌>>◌, assert}
use vidpow.Prelude.Int.{ℤ, pos, ◌+ℤ◌, ◌-ℤ◌, ◌*ℤ◌, ltb_ℤ}
use vidpow.Chain.Ledger.State.{
  RewardFund, WitnessScheduleType, top19, timeshare, miner, unscheduled, WitnessSchedule, Chain,
  get_account, get_witness, modify_account,
}
use vidpow.Chain.Ledger.Supply.{wls, add_balance, create_vesting}
use vidpow.Chain.Slots.{blocks_per_year, get_current_inflation_rate}

-- WLS_DEV_FUND_ACC_NAME, "devfund": the number of its letters.
abbrev pub dev_fund : ℕ
dev_fund =
    b'd'
    + b'e' * 2 ^ 8
    + b'v' * 2 ^ 16
    + b'f' * 2 ^ 24
    + b'u' * 2 ^ 32
    + b'n' * 2 ^ 40
    + b'd' * 2 ^ 48

module _ (safe : ℤ → Result ℤ) (divide : ℤ → ℕ → Result ℤ) where
  -- `( amount * numerator ) / denominator`
  unfoldable pub part_of : ℤ → ℕ → ℕ → Result ℤ
  part_of amount numerator denominator = do
    product ← safe (amount *ℤ pos numerator)
    divide product denominator

  -- The loop of `pay_reward_funds`: what is used, and the funds.
  unfoldable pub pay_each : ℤ → ℤ → List RewardFund → Result (ℤ × List RewardFund)
  unfolding part_of
  pay_each reward used [] = ok (used, [])
  pay_each reward used (f ∷ fs) = do
    r ← part_of reward f.percent_content_rewards 10000
    balance ← safe (f.reward_balance +ℤ r)
    used' ← safe (used +ℤ r)
    assert (not (ltb_ℤ reward used'))
    (total, rest) ← pay_each reward used' fs
    ok (total, record f { reward_balance = balance } ∷ rest)

  unfoldable pub pay_reward_funds : ℤ → Chain → Result (ℤ × Chain)
  pay_reward_funds reward c = do
    (used, funds) ← pay_each reward (pos 0) c.funds
    ok (used, record c { funds = funds })

  -- The producer's part by the kind of its slot; of an unknown kind it is left as it is.
  unfoldable pub weighted : ℤ → WitnessScheduleType → WitnessSchedule → Result ℤ
  weighted reward timeshare wso = safe (reward *ℤ pos wso.timeshare_weight)
  weighted reward miner wso = safe (reward *ℤ pos wso.top19_weight)
  weighted reward top19 wso = safe (reward *ℤ pos wso.top19_weight)
  weighted reward unscheduled wso = ok reward

  -- `witness_reward`: WLS_MAX_WITNESSES is 21.
  unfoldable pub witness_pay : ℤ → WitnessScheduleType → WitnessSchedule → Result ℤ
  unfolding weighted
  witness_pay rest kind wso = do
    round ← safe (rest *ℤ pos 21)
    reward ← weighted round kind wso
    divide reward wso.witness_pay_normalization_factor

  -- The `modify` of the supply.
  unfoldable pub add_supply : ℤ → Chain → Result Chain
  add_supply new_steem c = do
    supply ← safe (c.gpo.current_supply +ℤ new_steem)
    let g = c.gpo
    ok (record c { gpo = record g { current_supply = supply } })

  -- `process_funds`: WLS_CONTENT_REWARD_PERCENT is 8500 and WLS_DEV_FUND_PERCENT 500.
  unfoldable pub process_funds : Chain → Result Chain
  unfolding part_of
  process_funds c = do
    let rate = get_current_inflation_rate c.gpo.head_block_number
    issued ← part_of c.gpo.current_supply rate (10000 * blocks_per_year)
    content ← part_of issued 8500 10000
    (content_reward, c1) ← pay_reward_funds content c
    devfund_reward ← part_of issued 500 10000
    less_content ← safe (issued -ℤ content_reward)
    rest ← safe (less_content -ℤ devfund_reward)
    cwit ← get_witness c1.gpo.current_witness c1
    witness_reward ← witness_pay rest cwit.schedule c1.schedule
    most ← safe (content_reward +ℤ devfund_reward)
    new_steem ← safe (most +ℤ witness_reward)
    c2 ← add_supply new_steem c1
    owner ← get_account cwit.owner c2
    (_, c3) ← create_vesting safe owner.name (wls witness_reward) false c2
    modify_account dev_fund (add_balance safe (wls devfund_reward)) c3
