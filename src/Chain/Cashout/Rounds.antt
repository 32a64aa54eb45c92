-- ===== src/Chain/Cashout/Rounds.antt =====
-- database.cpp: `process_comment_cashout`. The rows of the comments stand in the order of their ids, and
-- a reward fund is known by its place, which is its id.
use vidpow.Prelude.{
  ℕ, zero, suc, ◌+◌, ◌-◌, ◌*◌, ◌/◌, ◌%◌, ◌^◌, Option, none, some, List, [], ◌∷◌, map, length, ltb,
  leb, ◌==◌, if◌then◌else◌, sort_by,
}
use vidpow.Prelude.{Result, ok, err, ◌>>=◌, out_of_fuel, null_pointer, unknown_object}
use vidpow.Prelude.Int.{ℤ, pos, ◌+ℤ◌, ◌-ℤ◌, ltb_ℤ}
use vidpow.Protocol.Asset.{to_u128}
use vidpow.Chain.Rewards.{WideNumbers, evaluate_reward_curve}
use vidpow.Chain.Ledger.Content.{Comment}
use vidpow.Chain.Ledger.State.{RewardFund, Chain, post_fund}
use vidpow.Chain.Cashout.{get_reward_fund, cashout_comment_helper}

-- `reward_fund_context`
pub record FundContext : Type 0 where
  pub recent_claims : ℕ
  pub reward_balance : ℤ
  pub steem_awarded : ℤ

-- WLS_RECENT_RSHARES_DECAY_RATE is 15 days, of 1296000 seconds.
unfoldable pub decay : ℕ → RewardFund → RewardFund
decay now f =
    let delta_seconds = pos now -ℤ pos f.last_update in
    let lost = f.recent_claims * to_u128 delta_seconds % 2 ^ 128 / 1296000 in
    record f {
      recent_claims =
          if ltb_ℤ delta_seconds (pos 1296000)
          then (f.recent_claims + 2 ^ 128 - lost) % 2 ^ 128
          else f.recent_claims;
      last_update = now;
    }

abbrev pub context : RewardFund → FundContext
context f = record {
  recent_claims = f.recent_claims;
  reward_balance = f.reward_balance;
  steem_awarded = pos 0;
}

-- The id of the fund that `get_reward_fund` returns.
unfoldable pub fund_id : List RewardFund → Result ℕ
fund_id [] = err unknown_object
fund_id (f ∷ fs) = if f.name == post_fund then ok 0 else (fund_id fs >>= λ i. ok (suc i))

-- `funds[ i ]`, which must be there, and a change of it.
unfoldable pub context_at : ℕ → List FundContext → Result FundContext
context_at i [] = err null_pointer
context_at zero (x ∷ xs) = ok x
context_at (suc i) (x ∷ xs) = context_at i xs

unfoldable pub modify_context :
    ℕ → (FundContext → Result FundContext) → List FundContext → Result (List FundContext)
modify_context i change [] = err null_pointer
modify_context zero change (x ∷ xs) = do y ← change x; ok (y ∷ xs)
modify_context (suc i) change (x ∷ xs) = do ys ← modify_context i change xs; ok (x ∷ ys)

-- The index `by_cashout_time`.
abbrev pub by_cashout_time : List Comment → List Comment
by_cashout_time comments = sort_by (λ a b. ltb a.cashout_time b.cashout_time) comments

unfoldable pub first_due : Chain → Option Comment
first_due c = elim (by_cashout_time c.comments) [
  | [] ↦ none
  | x ∷ xs ↦ if leb x.cashout_time c.gpo.time then some x else none
]

unfoldable pub add_claim : ℕ → FundContext → Result FundContext
add_claim claim x = ok (record x { recent_claims = (x.recent_claims + claim) % 2 ^ 128 })

-- The first loop: the claims of all comments that are due, along the index.
unfoldable pub add_claims :
    WideNumbers → Chain → List Comment → List FundContext → Result (List FundContext)
add_claims wide c [] funds = ok funds
add_claims wide c (x ∷ xs) funds =
    if leb x.cashout_time c.gpo.time
    then (do
      funds' ←
          (if ltb_ℤ (pos 0) x.net_rshares
            then (do
              rf ← get_reward_fund c
              i ← fund_id c.funds
              claim ←
                  evaluate_reward_curve wide (to_u128 x.net_rshares) rf.author_reward_curve
                    rf.content_constant
              modify_context i (add_claim claim) funds)
            else ok funds)
      add_claims wide c xs funds')
    else ok funds

-- What is written back.
module _ (safe : ℤ → Result ℤ) where
  unfoldable pub award : ℤ → FundContext → Result FundContext
  award claimed x = do
    total ← safe (x.steem_awarded +ℤ claimed)
    ok (record x { steem_awarded = total })

  unfoldable pub write_funds : List FundContext → List RewardFund → Result (List RewardFund)
  write_funds [] fs = ok fs
  write_funds (x ∷ xs) [] = err unknown_object
  write_funds (x ∷ xs) (f ∷ fs) = do
    balance ← safe (f.reward_balance -ℤ x.steem_awarded)
    rest ← write_funds xs fs
    ok (record f { recent_claims = x.recent_claims; reward_balance = balance } ∷ rest)

  module _ (divide : ℤ → ℕ → Result ℤ) (to_uint64 : ℕ → Result ℕ) (wide : WideNumbers) where
    -- A turn of the second loop.
    unfoldable pub pay_comment :
        List FundContext → Comment → Chain → Result (List FundContext × Chain)
    pay_comment funds x c = do
      i ← fund_id c.funds
      fund ← context_at i funds
      (claimed, c') ←
          cashout_comment_helper safe divide to_uint64 wide fund.recent_claims fund.reward_balance x
            c
      funds' ← modify_context i (award claimed) funds
      ok (funds', c')

    -- A turn of the second loop, where a comment is due; `rest` is the loop after it.
    unfoldable pub next_turn :
        (List FundContext → Chain → Result (List FundContext × Chain))
        → Option Comment
        → List FundContext
        → Chain
        → Result (List FundContext × Chain)
    next_turn rest none funds c = ok (funds, c)
    next_turn rest (some x) funds c = do (funds', c') ← pay_comment funds x c; rest funds' c'

    -- The second loop, on fuel: a comment that was paid is due no more.
    unfoldable pub pay_comments : ℕ → List FundContext → Chain → Result (List FundContext × Chain)
    pay_comments zero funds c = err out_of_fuel
    pay_comments (suc fuel) funds c = next_turn (pay_comments fuel) (first_due c) funds c

    unfoldable pub process_comment_cashout : Chain → Result Chain
    process_comment_cashout c = do
      let decayed = record c { funds = map (decay c.gpo.time) c.funds }
      funds ← add_claims wide decayed (by_cashout_time decayed.comments) (map context decayed.funds)
      (funds', paid) ← pay_comments (suc (length decayed.comments)) funds decayed
      written ← write_funds funds' paid.funds
      ok (record paid { funds = written })
