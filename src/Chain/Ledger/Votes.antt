-- ===== src/Chain/Ledger/Votes.antt =====
-- database.cpp: how a change of an account's vesting shares reaches the witnesses that it or its proxy
-- votes for. `depth` goes from 0 to WLS_MAX_PROXY_RECURSION_DEPTH, and `left` counts the levels left.
use vidpow.Prelude.{
  ℕ, zero, suc, ◌+◌, ◌-◌, ◌*◌, ◌/◌, ◌%◌, ◌^◌, not, List, [], ◌∷◌, ltb, ◌==◌, if◌then◌else◌, get_or,
  filter,
}
use vidpow.Prelude.{Result, ok, ◌>>=◌, ◌>>◌, assert}
use vidpow.Prelude.Int.{ℤ, pos, ◌+ℤ◌, ltb_ℤ}
use vidpow.Protocol.Asset.{to_u128}
use vidpow.Chain.Ledger.State.{
  ProxiedVotes, Account, Witness, WitnessVote, Chain, proxy_to_self, get_account, modify_account,
  modify_witness,
}

abbrev pub u128_max : ℕ
u128_max = 2 ^ 128 - 1

-- `virtual_last_update + (VIRTUAL_SCHEDULE_LAP_LENGTH2 - virtual_position) / (votes + 1)` over
-- `uint128_t`, with the guard against a time in the past.
unfoldable pub scheduled_time : ℕ → ℕ → ℤ → ℕ
scheduled_time now position votes =
    let time = (now + (u128_max - position) / to_u128 (votes +ℤ pos 1)) % 2 ^ 128 in
    if ltb time now then u128_max else time

module _ (safe : ℤ → Result ℤ) where
  -- The body of the `modify` in `adjust_witness_vote`; a division of words by zero throws.
  unfoldable pub change_votes : Chain → ℤ → Witness → Result Witness
  unfolding scheduled_time
  change_votes c delta w = do
    let now = c.schedule.current_virtual_time
    let elapsed = (now + 2 ^ 128 - w.virtual_last_update) % 2 ^ 128
    let position = (w.virtual_position + to_u128 w.votes * elapsed) % 2 ^ 128
    votes ← safe (w.votes +ℤ delta)
    assert (not (ltb_ℤ c.gpo.total_vesting_shares votes))
    assert (not (to_u128 (votes +ℤ pos 1) == 0))
    ok (record w {
      virtual_position = position;
      virtual_last_update = now;
      votes = votes;
      virtual_scheduled_time = scheduled_time now position votes;
    })

  unfoldable pub adjust_witness_vote : ℕ → ℤ → Chain → Result Chain
  adjust_witness_vote w delta c = modify_witness w (change_votes c delta) c

  -- The loop over the votes of one account.
  unfoldable pub adjust_each : ℕ → ℤ → List WitnessVote → Chain → Result Chain
  adjust_each name delta [] c = ok c
  adjust_each name delta (v ∷ vs) c =
      if v.account == name
      then (adjust_witness_vote v.witness delta c >>= λ c'. adjust_each name delta vs c')
      else adjust_each name delta vs c

  unfoldable pub adjust_witness_votes : ℕ → ℤ → Chain → Result Chain
  adjust_witness_votes name delta c = adjust_each name delta c.witness_votes c

  -- `proxied_vsf_votes[i] += delta`
  unfoldable pub add_proxied : ℕ → ℤ → ProxiedVotes → Result ProxiedVotes
  add_proxied zero delta p = do v ← safe (p.at_0 +ℤ delta); ok (record p { at_0 = v })
  add_proxied (suc zero) delta p = do v ← safe (p.at_1 +ℤ delta); ok (record p { at_1 = v })
  add_proxied (suc (suc zero)) delta p = do v ← safe (p.at_2 +ℤ delta); ok (record p { at_2 = v })
  add_proxied (suc (suc (suc n))) delta p = do
    v ← safe (p.at_3 +ℤ delta)
    ok (record p { at_3 = v })

  unfoldable pub proxy_votes : ℕ → ℤ → Account → Result Account
  proxy_votes depth delta a = do
    p ← add_proxied depth delta a.proxied_vsf_votes
    ok (record a { proxied_vsf_votes = p })

  -- `adjust_proxied_witness_votes( a, delta, depth )`
  unfoldable pub adjust_proxied : ℕ → ℕ → ℕ → ℤ → Chain → Result Chain
  adjust_proxied zero depth name delta c = do
    a ← get_account name c
    if a.proxy == proxy_to_self then adjust_witness_votes a.name delta c else ok c
  adjust_proxied (suc left) depth name delta c = do
    a ← get_account name c
    if a.proxy == proxy_to_self
        then adjust_witness_votes a.name delta c
        else (modify_account a.proxy (proxy_votes depth delta) c >>= λ c'.
            adjust_proxied left (suc depth) a.proxy delta c')

  unfoldable pub adjust_proxied_witness_votes : ℕ → ℤ → Chain → Result Chain
  adjust_proxied_witness_votes name delta c = adjust_proxied 4 0 name delta c

  -- The loop `for( int i = count - 1; i >= 0; --i ) proxied_vsf_votes[i + depth] += delta[i];`
  unfoldable pub add_slots : ℕ → ℕ → List ℤ → ProxiedVotes → Result ProxiedVotes
  add_slots zero depth deltas p = ok p
  add_slots (suc i) depth deltas p = do
    p' ← add_proxied (i + depth) (get_or deltas i (pos 0)) p
    add_slots i depth deltas p'

  -- The loop `for( int i = count - 1; i >= 0; --i ) total_delta += delta[i];`
  unfoldable pub sum_slots : ℕ → List ℤ → ℤ → Result ℤ
  sum_slots zero deltas total = ok total
  sum_slots (suc i) deltas total = do
    total' ← safe (total +ℤ get_or deltas i (pos 0))
    sum_slots i deltas total'

  unfoldable pub proxy_slots : ℕ → ℕ → List ℤ → Account → Result Account
  proxy_slots count depth deltas a = do
    p ← add_slots count depth deltas a.proxied_vsf_votes
    ok (record a { proxied_vsf_votes = p })

  -- The overload with an array of five deltas, one for each level.
  unfoldable pub adjust_proxied_array : ℕ → ℕ → ℕ → List ℤ → Chain → Result Chain
  adjust_proxied_array zero depth name deltas c = do
    a ← get_account name c
    if a.proxy == proxy_to_self
        then (sum_slots 1 deltas (pos 0) >>= λ total. adjust_witness_votes a.name total c)
        else ok c
  adjust_proxied_array (suc left) depth name deltas c = do
    a ← get_account name c
    if a.proxy == proxy_to_self
        then (sum_slots (suc (suc left)) deltas (pos 0) >>= λ total.
            adjust_witness_votes a.name total c)
        else (modify_account a.proxy (proxy_slots (suc left) depth deltas) c >>= λ c'.
            adjust_proxied_array left (suc depth) a.proxy deltas c')

-- `clear_witness_votes`
unfoldable pub clear_witness_votes : ℕ → Chain → Result Chain
clear_witness_votes name c =
    modify_account name (λ a. ok (record a { witnesses_voted_for = 0 }))
      (record c { witness_votes = filter (λ v. not (v.account == name)) c.witness_votes })
