-- ===== src/Chain/Rewards/Payouts.antt =====
-- The rewards of comments against the fund that they are paid from.
use native.Mathlib.Nat.{div-mul-le_self}
use native.Mathlib.Decide.{dec_lt}
use vidpow.Prelude.{
  ℕ, ◌+◌, ◌-◌, ◌*◌, ◌/◌, ◌%◌, ◌^◌, ◌≤◌, ◌<◌, ◌≡◌, sym, subst, ◌∙◌, min, ltb, ltb→lt, leb,
  if◌then◌else◌, List, [], ◌∷◌, All, arith,
}
use vidpow.Prelude.{
  Result, ok, ◌>>=◌, assert, Ensures, after, finally, assert-true, ok-injective, >>=-eq-ok,
}
use vidpow.Chain.Slots.Inflation.{mul_le}
use vidpow.Prelude.Int.{ℤ, pos}
use vidpow.Chain.Rewards.{
  WideNumbers, RewardContext, positive, to_unsigned, claim_of, get_rshare_reward,
}

module _ (wide : WideNumbers) where
  -- The reward is at most its share of the fund, rounded down, and at most the limit.
  record Share (fund total claim limit paid : ℕ) : Type 0 where
    pub bounded : paid * total ≤ fund * claim
    pub limited : paid ≤ limit
    pub positive_total : 0 < total

  share :
      (fund total claim limit payout f : ℕ)
      → 0 < total
      → f ≤ fund
      → payout * total ≤ f * claim % 2 ^ 256
      → (z : ℤ) → z ≡ pos limit
      → Share fund total claim limit (min (if ltb payout 20 then 0 else payout) (to_unsigned 64 z))
  share fund total claim limit payout f pt hf hp z ez =
      let kept = if ltb payout 20 then 0 else payout in
      let k : kept ≤ payout = ground arith in
      let paid = min kept (to_unsigned 64 z) in
      let l : to_unsigned 64 z ≤ limit = rw ez (omega arith) in
      record {
        bounded =
            omega (arith, mul_le paid payout total (omega (arith, k)), mul_le f fund claim hf);
        limited = omega (arith, l);
        positive_total = pt;
      }

  get_rshare_reward-Share :
      (ctx : RewardContext) {fund limit : ℕ}
      → ctx.total_reward_fund_steem ≡ pos fund
      → ctx.max_payout ≡ pos limit
      → Ensures (get_rshare_reward wide ctx) (λ paid.
        (claim : ℕ) × (claim_of wide ctx ≡ ok claim)
        × Share fund ctx.total_reward_shares2 claim limit paid)
  unfolding get_rshare_reward
  get_rshare_reward-Share ctx {fund} {limit} ef el = after (assert (positive ctx.rshares)) (λ u eu.
      after (assert (ltb 0 ctx.total_reward_shares2)) (λ v ev.
        after (claim_of wide ctx) (λ claim ec.
          let f = to_unsigned 256 ctx.total_reward_fund_steem in
          let payout = f * claim % 2 ^ 256 / ctx.total_reward_shares2 in
          after (assert (leb payout (2 ^ 63 - 1))) (λ w ew. finally (
            claim,
            ec,
            share fund ctx.total_reward_shares2 claim limit payout f
                (omega (arith, ltb→lt 0 ctx.total_reward_shares2 (assert-true _ ev)))
                (rw ef (omega arith))
                (div-mul-le_self (f * claim % 2 ^ 256) ctx.total_reward_shares2) ctx.max_payout el,
          )))))

  -- The sum of the rewards of comments, and that of their claims.
  abbrev pub rewards : List RewardContext → Result ℕ
  rewards [] = ok 0
  rewards (ctx ∷ ctxs) = do paid ← get_rshare_reward wide ctx; rest ← rewards ctxs; ok (paid + rest)

  abbrev pub claims : List RewardContext → Result ℕ
  claims [] = ok 0
  claims (ctx ∷ ctxs) = do claim ← claim_of wide ctx; rest ← claims ctxs; ok (claim + rest)

  -- Comments that are paid from one fund, with one total of claims and limits that are not negative.
  abbrev pub PaidFrom : ℕ → ℕ → RewardContext → Type 0
  PaidFrom fund total ctx =
      (ctx.total_reward_fund_steem ≡ pos fund)
      × (ctx.total_reward_shares2 ≡ total)
      × ((limit : ℕ) × (ctx.max_payout ≡ pos limit))

  rewards-claims :
      (fund total : ℕ) (ctxs : List RewardContext)
      → All (PaidFrom fund total) ctxs
      → Ensures (rewards ctxs) (λ paid. (q : ℕ) → claims ctxs ≡ ok q → paid * total ≤ fund * q)
  rewards-claims fund total [] h = finally (λ q e. omega arith)
  rewards-claims fund total (ctx ∷ ctxs) ((ef, et, (limit, el)), h) =
      after (get_rshare_reward wide ctx) (λ paid ep. after (rewards ctxs) (λ rest er.
        finally (λ q e.
          let (claim, ec, s) = (get_rshare_reward-Share ctx ef el).on_ok paid ep in
          let (claim', ec', e1) = >>=-eq-ok (claim_of wide ctx) _ e in
          let (q', eq', e2) = >>=-eq-ok (claims ctxs) _ e1 in
          let ih = (rewards-claims fund total ctxs h).on_ok rest er q' eq' in
          let same : claim ≡ claim' = ok-injective (sym ec ∙ ec') in
          let sum : claim' + q' ≡ q = ok-injective e2 in
          let b : paid * total ≤ fund * claim = subst (λ t. paid * t ≤ fund * claim) et s.bounded in
          let c : paid * total ≤ fund * claim' = subst (λ t. paid * total ≤ fund * t) same b in
          subst (λ t. (paid + rest) * total ≤ fund * t) sum (omega (arith, c, ih)))))

  -- The rewards of comments that are all computed, from one fund that is not negative, with one
  -- positive total of claims and limits that are not negative, add up to the fund at most, where
  -- their claims add up to the total at most.
  pub rewards-le :
      (fund total : ℕ) (ctxs : List RewardContext) {paid claimed : ℕ}
      → All (PaidFrom fund total) ctxs
      → 0 < total
      → claims ctxs ≡ ok claimed
      → claimed ≤ total
      → rewards ctxs ≡ ok paid
      → paid ≤ fund
  rewards-le fund total ctxs {paid} {claimed} h pt ec le er =
      let b = (rewards-claims fund total ctxs h).on_ok paid er claimed ec in
      elim (dec_lt fund paid) [
        | no le' ↦ omega arith
        | yes lt ↦
            let more : (fund + 1) * total ≤ paid * total =
              mul_le (fund + 1) paid total (omega arith) in
            let most : claimed * fund ≤ total * fund = mul_le claimed total fund le in omega arith
      ]
