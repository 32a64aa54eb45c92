-- ===== src/Chain/Evaluators/Witnesses.antt =====
-- wls_evaluator.cpp: votes for witnesses, and voting through a proxy.
pub mod Counts
mod Tests
use vidpow.Prelude.{
  ℕ, zero, suc, ◌+◌, ◌-◌, ◌%◌, ◌^◌, Bool, true, false, not, List, [], ◌∷◌, ◌++◌, ltb, leb, ◌==◌,
  ◌&&◌, if◌then◌else◌, length,
}
use vidpow.Prelude.{Result, ok, err, ◌>>=◌, ◌>>◌, assert, null_pointer}
use vidpow.Prelude.Int.{ℤ, pos, ◌+ℤ◌, ◌-ℤ◌}
use vidpow.Chain.Ledger.State.{
  Account, WitnessVote, Chain, proxy_to_self, get_account, get_witness, modify_account,
}
use vidpow.Chain.Ledger.Votes.{adjust_witness_vote, adjust_proxied_array, clear_witness_votes}

-- The key of the `by_account_witness` index.
abbrev pub is_vote : ℕ → ℕ → WitnessVote → Bool
is_vote account witness v = v.account == account && v.witness == witness

abbrev pub has_vote : ℕ → ℕ → List WitnessVote → Bool
has_vote account witness [] = false
has_vote account witness (v ∷ vs) =
    if is_vote account witness v then true else has_vote account witness vs

abbrev pub remove_vote : ℕ → ℕ → List WitnessVote → List WitnessVote
remove_vote account witness [] = []
remove_vote account witness (v ∷ vs) =
    if is_vote account witness v then vs else v ∷ remove_vote account witness vs

-- `witnesses_voted_for++` and `--` on a `uint16_t`
unfoldable pub count_up : Account → Result Account
count_up a = ok (record a { witnesses_voted_for = (a.witnesses_voted_for + 1) % 2 ^ 16 })

unfoldable pub count_down : Account → Result Account
count_down a =
    ok (record a { witnesses_voted_for = (a.witnesses_voted_for + (2 ^ 16 - 1)) % 2 ^ 16 })

abbrev pub seen_before : ℕ → List ℕ → Bool
seen_before n [] = false
seen_before n (m ∷ ms) = if m == n then true else seen_before n ms

-- The loop over the chain of proxies, with its set of accounts. A round ends with `cprox` at the copy
-- of the next account, which is local to the round: the loop's test then reads a dead object.
unfoldable pub proxy_chain : List ℕ → Account → Chain → Result (Unit {0})
proxy_chain seen new_proxy c = if new_proxy.proxy == proxy_to_self then ok tt else (do
  next_proxy ← get_account new_proxy.proxy c
  assert (not (seen_before next_proxy.name seen))
  assert (leb (suc (length seen)) 4)
  err null_pointer)

module _ (safe : ℤ → Result ℤ) where
  -- `witness_vote_weight`, a sum of `share_type`.
  pub vote_weight : Account → Result ℤ
  vote_weight a = do
    let p = a.proxied_vsf_votes
    w0 ← safe (a.vesting_shares +ℤ p.at_0)
    w1 ← safe (w0 +ℤ p.at_1)
    w2 ← safe (w1 +ℤ p.at_2)
    safe (w2 +ℤ p.at_3)

  -- The two branches of `account_witness_vote_evaluator`.
  unfoldable pub add_vote : Account → ℕ → Chain → Result Chain
  add_vote voter witness c = do
    assert (ltb voter.witnesses_voted_for 30)
    let c1 = record c {
      witness_votes = c.witness_votes ++ record { witness = witness; account = voter.name } ∷ [];
    }
    weight ← vote_weight voter
    c2 ← adjust_witness_vote safe witness weight c1
    modify_account voter.name count_up c2

  unfoldable pub withdraw_vote : Account → ℕ → Chain → Result Chain
  withdraw_vote voter witness c = do
    weight ← vote_weight voter
    negated ← safe (pos 0 -ℤ weight)
    c1 ← adjust_witness_vote safe witness negated c
    c2 ← modify_account voter.name count_down c1
    ok (record c2 { witness_votes = remove_vote voter.name witness c2.witness_votes })

  -- `account_witness_vote_evaluator::do_apply`
  unfoldable pub account_witness_vote : ℕ → ℕ → Bool → Chain → Result Chain
  account_witness_vote account witness approve c = do
    voter ← get_account account c
    assert (voter.proxy == proxy_to_self)
    w ← get_witness witness c
    if has_vote voter.name w.owner c.witness_votes
        then (assert (not approve) >> withdraw_vote voter w.owner c)
        else (assert approve >> add_vote voter w.owner c)

  unfoldable pub negate_each : List ℤ → Result (List ℤ)
  negate_each [] = ok []
  negate_each (d ∷ ds) = do x ← safe (pos 0 -ℤ d); xs ← negate_each ds; ok (x ∷ xs)

  abbrev pub first_seen : Account → Account → List ℕ
  first_seen a p = if a.name == p.name then a.name ∷ [] else a.name ∷ p.name ∷ []

  -- `account_witness_proxy_evaluator::do_apply`
  pub account_witness_proxy : ℕ → ℕ → Chain → Result Chain
  account_witness_proxy account proxy c = do
    a ← get_account account c
    assert (not (a.proxy == proxy))
    let p = a.proxied_vsf_votes
    deltas ← negate_each (a.vesting_shares ∷ p.at_0 ∷ p.at_1 ∷ p.at_2 ∷ p.at_3 ∷ [])
    c1 ← adjust_proxied_array safe 4 0 a.name deltas c
    if proxy == 0 then modify_account a.name (λ b. ok (record b { proxy = proxy })) c1 else (do
      new_proxy ← get_account proxy c1
      proxy_chain (first_seen a new_proxy) new_proxy c1
      c2 ← clear_witness_votes a.name c1
      c3 ← modify_account a.name (λ b. ok (record b { proxy = proxy })) c2
      added ← negate_each deltas
      adjust_proxied_array safe 4 0 a.name added c3)
