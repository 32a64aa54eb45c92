-- ===== src/Chain/Evaluators.antt =====
-- libraries/chain/wls_evaluator.cpp: the operations that move tokens, vesting shares and rewards, each
-- with its checks in the source's order. `uint128_t::to_uint64` of the fc library is the parameter
-- `to_uint64`.
use vidpow.Prelude.{ℕ, ◌+◌, ◌-◌, ◌*◌, ◌/◌, ◌%◌, ◌^◌, false, not, ◌==◌, if◌then◌else◌}
use vidpow.Prelude.{Result, ok, ◌>>=◌, ◌>>◌, assert}
use vidpow.Prelude.Int.{ℤ, ◌+ℤ◌, ◌-ℤ◌}
use vidpow.Protocol.Asset.{
  Asset, wls_symbol, asset_ge, asset_le, asset_eq, asset_neg, asset_add, asset_sub, signed64,
  to_u128,
}
use vidpow.Chain.Ledger.State.{Account, Witness, Chain, get_account, modify_account}
use vidpow.Chain.Ledger.Votes.{adjust_proxied_witness_votes}
use vidpow.Chain.Ledger.Supply.{
  wls, vests, get_balance, adjust_balance, adjust_reward_balance, create_vesting,
}
pub mod Tokens
pub mod Witnesses
pub mod Withdrawals
pub mod Tests

module _ (safe : ℤ → Result ℤ) where
  -- `transfer_evaluator::do_apply`
  unfoldable pub transfer : ℕ → ℕ → Asset → Chain → Result Chain
  transfer from to amount c = do
    from_account ← get_account from c
    to_account ← get_account to c
    balance ← get_balance from_account amount.symbol
    sufficient ← asset_ge balance amount
    assert sufficient
    debit ← asset_neg safe amount
    c' ← adjust_balance safe from_account.name debit c
    adjust_balance safe to_account.name amount c'

  -- `transfer_to_vesting_evaluator::do_apply`; an empty `to` is the sender.
  unfoldable pub transfer_to_vesting : ℕ → ℕ → Asset → Chain → Result Chain
  transfer_to_vesting from to amount c = do
    from_account ← get_account from c
    to_account ← (if to == 0 then ok from_account else get_account to c)
    balance ← get_balance from_account wls_symbol
    sufficient ← asset_ge balance amount
    assert sufficient
    debit ← asset_neg safe amount
    c' ← adjust_balance safe from_account.name debit c
    r ← create_vesting safe to_account.name amount false c'
    ok r.1

  -- The two `modify` calls of `claim_reward_balance_evaluator`.
  unfoldable pub claim_shares : Asset → ℤ → Account → Result Account
  claim_shares reward_vests moved a = do
    v ← asset_add safe (vests a.vesting_shares) reward_vests
    b ← asset_sub safe (vests a.reward_vesting_balance) reward_vests
    s ← safe (a.reward_vesting_steem -ℤ moved)
    ok (record a {
      vesting_shares = v.amount;
      reward_vesting_balance = b.amount;
      reward_vesting_steem = s;
    })

  unfoldable pub claim_fund : Asset → ℤ → Chain → Result Chain
  claim_fund reward_vests moved c = do
    let g = c.gpo
    v ← asset_add safe (vests g.total_vesting_shares) reward_vests
    f ← safe (g.total_vesting_fund_steem +ℤ moved)
    pv ← asset_sub safe (vests g.pending_rewarded_vesting_shares) reward_vests
    pf ← safe (g.pending_rewarded_vesting_steem -ℤ moved)
    ok (record c {
      gpo = record g {
        total_vesting_shares = v.amount;
        total_vesting_fund_steem = f;
        pending_rewarded_vesting_shares = pv.amount;
        pending_rewarded_vesting_steem = pf;
      };
    })

  -- `reward_vesting_steem_to_move`; a division of words by zero throws.
  unfoldable pub steem_to_move : (ℕ → Result ℕ) → Asset → Account → Result ℤ
  steem_to_move to_uint64 reward_vests a =
      if asset_eq reward_vests (vests a.reward_vesting_balance)
      then ok a.reward_vesting_steem
      else (do
        assert (not (to_u128 a.reward_vesting_balance == 0))
        w ← to_uint64 (
            to_u128 reward_vests.amount
            * to_u128 a.reward_vesting_steem
            % 2 ^ 128
            / to_u128 a.reward_vesting_balance)
        ok (signed64 w))

  -- `claim_reward_balance_evaluator::do_apply`
  unfoldable pub claim_reward_balance : (ℕ → Result ℕ) → ℕ → Asset → Asset → Chain → Result Chain
  claim_reward_balance to_uint64 account reward_steem reward_vests c = do
    a ← get_account account c
    enough_steem ← asset_le reward_steem (wls a.reward_steem_balance)
    assert enough_steem
    enough_vests ← asset_le reward_vests (vests a.reward_vesting_balance)
    assert enough_vests
    moved ← steem_to_move to_uint64 reward_vests a
    debit ← asset_neg safe reward_steem
    c1 ← adjust_reward_balance safe a.name debit c
    c2 ← adjust_balance safe a.name reward_steem c1
    c3 ← modify_account a.name (claim_shares reward_vests moved) c2
    c4 ← claim_fund reward_vests moved c3
    adjust_proxied_witness_votes safe a.name reward_vests.amount c4
