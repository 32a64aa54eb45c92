-- ===== src/Chain/Ledger/Supply.antt =====
-- database.cpp: the operations on balances, on the supply and on the vesting fund.
use vidpow.Prelude.{ℕ, Bool, not, ltb, ◌==◌, if◌then◌else◌, ◌&&◌, ◌||◌}
use vidpow.Prelude.{Result, ok, ◌>>=◌, ◌>>◌, assert}
use vidpow.Prelude.Int.{ℤ, pos, ◌+ℤ◌, ◌*ℤ◌, ltb_ℤ}
use vidpow.Protocol.Asset.{Asset, Price, wls_symbol, vests_symbol, mul_price}
use vidpow.Chain.Ledger.State.{Account, GlobalProperties, Chain, modify_account}
use vidpow.Chain.Ledger.Votes.{adjust_proxied_witness_votes}

abbrev pub eq_ℤ : ℤ → ℤ → Bool
eq_ℤ a b = not (ltb_ℤ a b) && not (ltb_ℤ b a)

abbrev pub wls : ℤ → Asset
wls a = record { amount = a; symbol = wls_symbol }

abbrev pub vests : ℤ → Asset
vests a = record { amount = a; symbol = vests_symbol }

unfoldable pub get_vesting_share_price : GlobalProperties → Price
get_vesting_share_price g =
    if eq_ℤ g.total_vesting_fund_steem (pos 0) || eq_ℤ g.total_vesting_shares (pos 0)
    then record { base = wls (pos 1); quote = vests (pos 1000) }
    else record { base = vests g.total_vesting_shares; quote = wls g.total_vesting_fund_steem }

unfoldable pub get_balance : Account → ℕ → Result Asset
get_balance a symbol = do assert (symbol == wls_symbol); ok (wls a.balance)

module _ (safe : ℤ → Result ℤ) where
  unfoldable pub get_reward_vesting_share_price : GlobalProperties → Result Price
  unfolding get_vesting_share_price
  get_reward_vesting_share_price g =
      if eq_ℤ g.pending_rewarded_vesting_shares (pos 0)
        || eq_ℤ g.pending_rewarded_vesting_steem (pos 0)
      then ok (get_vesting_share_price g)
      else (do
        shares ← safe (g.total_vesting_shares +ℤ g.pending_rewarded_vesting_shares)
        fund ← safe (g.total_vesting_fund_steem +ℤ g.pending_rewarded_vesting_steem)
        ok (record { base = vests shares; quote = wls fund }))

  unfoldable pub add_balance : Asset → Account → Result Account
  add_balance delta a = do
    assert (delta.symbol == wls_symbol)
    balance ← safe (a.balance +ℤ delta.amount)
    ok (record a { balance = balance })

  unfoldable pub adjust_balance : ℕ → Asset → Chain → Result Chain
  adjust_balance name delta = modify_account name (add_balance delta)

  unfoldable pub add_reward_balance : Asset → Account → Result Account
  add_reward_balance delta a = do
    assert (delta.symbol == wls_symbol)
    balance ← safe (a.reward_steem_balance +ℤ delta.amount)
    ok (record a { reward_steem_balance = balance })

  unfoldable pub adjust_reward_balance : ℕ → Asset → Chain → Result Chain
  adjust_reward_balance name delta = modify_account name (add_reward_balance delta)

  -- The `modify` of `adjust_supply`.
  unfoldable pub issue : ℤ → ℤ → Chain → Result Chain
  issue amount new_vesting c = do
    added ← safe (amount +ℤ new_vesting)
    supply ← safe (c.gpo.current_supply +ℤ added)
    fund ← safe (c.gpo.total_vesting_fund_steem +ℤ new_vesting)
    let g = c.gpo
    ok (record c { gpo = record g { current_supply = supply; total_vesting_fund_steem = fund } })

  -- WLS_BLOCKS_PER_DAY * 7 is 201600 blocks.
  abbrev pub vesting_issued : Asset → Bool → Chain → Result ℤ
  vesting_issued delta adjust_vesting c =
      if adjust_vesting && not (ltb c.gpo.head_block_number 201600) && ltb_ℤ (pos 0) delta.amount
      then safe (delta.amount *ℤ pos 9)
      else ok (pos 0)

  unfoldable pub adjust_supply : Asset → Bool → Chain → Result Chain
  adjust_supply delta adjust_vesting c = do
    assert (delta.symbol == wls_symbol)
    new_vesting ← vesting_issued delta adjust_vesting c
    issue delta.amount new_vesting c

  -- The parts of `create_vesting`: the shares, and what it does for each kind of balance.
  unfoldable pub new_vesting : Bool → Asset → Chain → Result Asset
  new_vesting to_reward_balance steem c = do
    price ←
        (if to_reward_balance
          then get_reward_vesting_share_price c.gpo
          else ok (get_vesting_share_price c.gpo))
    shares ← mul_price steem price
    assert (shares.symbol == vests_symbol && steem.symbol == wls_symbol)
    ok shares

  unfoldable pub add_vesting : ℤ → Account → Result Account
  add_vesting shares a = do
    v ← safe (a.vesting_shares +ℤ shares)
    ok (record a { vesting_shares = v })

  unfoldable pub add_reward_vesting : ℤ → ℤ → Account → Result Account
  add_reward_vesting shares steem a = do
    b ← safe (a.reward_vesting_balance +ℤ shares)
    s ← safe (a.reward_vesting_steem +ℤ steem)
    ok (record a { reward_vesting_balance = b; reward_vesting_steem = s })

  unfoldable pub add_fund : ℤ → ℤ → Chain → Result Chain
  add_fund shares steem c = do
    fund ← safe (c.gpo.total_vesting_fund_steem +ℤ steem)
    total ← safe (c.gpo.total_vesting_shares +ℤ shares)
    let g = c.gpo
    ok (record c {
      gpo = record g { total_vesting_fund_steem = fund; total_vesting_shares = total };
    })

  unfoldable pub add_pending : ℤ → ℤ → Chain → Result Chain
  add_pending shares steem c = do
    total ← safe (c.gpo.pending_rewarded_vesting_shares +ℤ shares)
    fund ← safe (c.gpo.pending_rewarded_vesting_steem +ℤ steem)
    let g = c.gpo
    ok (record c {
      gpo = record g {
        pending_rewarded_vesting_shares = total;
        pending_rewarded_vesting_steem = fund;
      };
    })

  -- `create_vesting( to_account, steem, to_reward_balance )`
  unfoldable pub create_vesting : ℕ → Asset → Bool → Chain → Result (Asset × Chain)
  create_vesting to steem to_reward_balance c = do
    shares ← new_vesting to_reward_balance steem c
    c' ←
        (if to_reward_balance
          then (modify_account to (add_reward_vesting shares.amount steem.amount) c
              >>= add_pending shares.amount steem.amount)
          else (modify_account to (add_vesting shares.amount) c
              >>= add_fund shares.amount steem.amount
              >>= adjust_proxied_witness_votes safe to shares.amount))
    ok (shares, c')
