-- ===== src/Chain/Ledger/Flight.antt =====
-- database.cpp: how the operations on balances, supply and vesting move the tokens in flight.
use vidpow.Prelude.{
  ℕ, ◌≡◌, refl, sym, ap, subst, Bool, true, false, ◌==◌, if◌then◌else◌, Bool-cases, inl, inr,
}
use vidpow.Prelude.{Result, ok, ◌>>=◌, asserted, >>=-eq-ok, ok-injective}
use vidpow.Prelude.Int.{ℤ, pos, ◌+ℤ◌, ◌-ℤ◌, int_laws}
use vidpow.Protocol.Asset.{IsExact, Asset, wls_symbol}
use vidpow.Chain.Ledger.State.{Account, Chain, proxy_to_self, modify_account}
use vidpow.Chain.Ledger.Votes.{adjust_proxied_witness_votes}
use vidpow.Chain.Ledger.Supply.{
  add_balance, adjust_balance, add_reward_balance, adjust_reward_balance, issue, vesting_issued,
  adjust_supply, new_vesting, add_vesting, add_reward_vesting, add_fund, add_pending,
  create_vesting,
}
use vidpow.Chain.Ledger.Invariants.{Moves, InFlight, Moves-InFlight}
use vidpow.Chain.Ledger.Conservation.{walked, adjust_proxied-Moves}
use vidpow.Chain.Ledger.Effects.{
  modify_account-Moves, add_balance-Effect, add_reward_balance-Effect, add_vesting-Effect,
  add_reward_vesting-Effect, funded, pended, add_fund-ok, add_pending-ok, issue-ok,
}

module _ (safe : ℤ → Result ℤ) (exact : IsExact safe) where
  -- Tokens given to an account come out of those in flight.
  pub adjust_balance-InFlight :
      (name : ℕ) (delta : Asset) (k : ℤ) (c : Chain) {c' : Chain}
      → InFlight c k
      → adjust_balance safe name delta c ≡ ok c'
      → InFlight c' (k -ℤ delta.amount)
  unfolding adjust_balance
  adjust_balance-InFlight name delta k c {c'} b e =
      let (_, _, m, _, _) =
        modify_account-Moves safe exact name (add_balance safe delta) delta.amount (pos 0)
          (λ a. pos 0) (pos 0) c {c' = c'} (add_balance-Effect safe exact delta) e in
      Moves-InFlight k delta.amount m b

  pub adjust_reward_balance-InFlight :
      (name : ℕ) (delta : Asset) (k : ℤ) (c : Chain) {c' : Chain}
      → InFlight c k
      → adjust_reward_balance safe name delta c ≡ ok c'
      → InFlight c' (k -ℤ delta.amount)
  unfolding adjust_reward_balance
  adjust_reward_balance-InFlight name delta k c {c'} b e =
      let (_, _, m, _, _) =
        modify_account-Moves safe exact name (add_reward_balance safe delta) delta.amount (pos 0)
          (λ a. pos 0) (pos 0) c {c' = c'} (add_reward_balance-Effect safe exact delta) e in
      Moves-InFlight k delta.amount m b

  -- The shares are in the votes at the account, or where the walk along its proxies ends.
  pub once :
      (a a' : Account) (shares : ℤ)
      → a'.proxy ≡ a.proxy
      → (if a.proxy == proxy_to_self then shares else pos 0) +ℤ walked safe exact 4 a' shares
        ≡ shares
  once a a' shares e = rw e (elim (Bool-cases (a.proxy == proxy_to_self)) [
    | inl b ↦ rw b (omega int_laws)
    | inr b ↦ rw b (omega int_laws)
  ])

  own-InFlight :
      (k shares steem n w : ℤ) {c d c' : Chain}
      → n +ℤ w ≡ shares
      → Moves c d (pos 0) shares n (pos 0)
      → Moves (funded safe exact shares steem d) c' (pos 0) (pos 0) w (pos 0)
      → InFlight c k
      → InFlight c' (k -ℤ steem)
  own-InFlight k shares steem n w {c} {d} {c'} sum m r b = record {
    supply = rw (r.gpo, r.funds, r.held, m.gpo, m.funds, m.held) (grind (int_laws, b.supply));
    vesting = rw (r.gpo, r.vesting, m.gpo, m.vesting) (grind (int_laws, b.vesting));
    votes = rw (r.gpo, r.votes, m.gpo, m.votes) (grind (int_laws, b.votes, sum));
    pending = rw (r.gpo, r.pending, m.gpo, m.pending) (grind (int_laws, b.pending));
  }

  reward-InFlight :
      (k shares steem : ℤ) {c d : Chain}
      → Moves c d (pos 0) shares (pos 0) steem
      → InFlight c k
      → InFlight (pended safe exact shares steem d) (k -ℤ steem)
  reward-InFlight k shares steem {c} {d} m b = record {
    supply = rw (m.gpo, m.funds, m.held) (grind (int_laws, b.supply));
    vesting = rw (m.gpo, m.vesting) (grind (int_laws, b.vesting));
    votes = rw (m.gpo, m.votes) (grind (int_laws, b.votes));
    pending = rw (m.gpo, m.pending) (grind (int_laws, b.pending));
  }

  own_vesting-InFlight :
      (to : ℕ) (shares steem k : ℤ) (c : Chain) {c' : Chain}
      → InFlight c k
      → (modify_account to (add_vesting safe shares) c
          >>= add_fund safe shares steem
          >>= adjust_proxied_witness_votes safe to shares)
        ≡ ok c'
      → InFlight c' (k -ℤ steem)
  unfolding adjust_proxied_witness_votes
  own_vesting-InFlight to shares steem k c {c'} b e =
      let grown = modify_account to (add_vesting safe shares) c in
      let (d2, e2, e3) =
        >>=-eq-ok (grown >>= add_fund safe shares steem)
          (adjust_proxied_witness_votes safe to shares) {b = c'} e in
      let (d1, e1, q2) = >>=-eq-ok grown (add_fund safe shares steem) {b = d2} e2 in
      let (a, a', m, found, kept) =
        modify_account-Moves safe exact to (add_vesting safe shares) (pos 0) shares
          (λ a. if a.proxy == proxy_to_self then shares else pos 0) (pos 0) c {c' = d1}
          (add_vesting-Effect safe exact shares) e1 in
      let r = add_fund-ok safe exact shares steem d1 {c' = d2} q2 in
      let w =
        adjust_proxied-Moves safe exact 4 0 to shares (funded safe exact shares steem d1) {c' = c'}
          a' refl found
          (subst (λ d. adjust_proxied_witness_votes safe to shares d ≡ ok c') (sym r) e3) in
      own-InFlight k shares steem (if a.proxy == proxy_to_self then shares else pos 0)
        (walked safe exact 4 a' shares) (once a a' shares kept) m w b

  reward_vesting-InFlight :
      (to : ℕ) (shares steem k : ℤ) (c : Chain) {c' : Chain}
      → InFlight c k
      → (modify_account to (add_reward_vesting safe shares steem) c
          >>= add_pending safe shares steem)
        ≡ ok c'
      → InFlight c' (k -ℤ steem)
  reward_vesting-InFlight to shares steem k c {c'} b e =
      let (d, e1, q) =
        >>=-eq-ok (modify_account to (add_reward_vesting safe shares steem) c)
          (add_pending safe shares steem) {b = c'} e in
      let (_, _, m, _, _) =
        modify_account-Moves safe exact to (add_reward_vesting safe shares steem) (pos 0) shares
          (λ a. pos 0) steem c {c' = d} (add_reward_vesting-Effect safe exact shares steem) e1 in
      subst (λ x. InFlight x (k -ℤ steem)) (add_pending-ok safe exact shares steem d {c' = c'} q)
        (reward-InFlight k shares steem m b)

  -- Tokens that become vesting shares come out of those in flight, whichever balance they go to.
  pub create_vesting-InFlight :
      (to : ℕ) (steem : Asset) (to_reward_balance : Bool) (k : ℤ) (c : Chain) {shares : Asset}
      {c' : Chain}
      → InFlight c k
      → create_vesting safe to steem to_reward_balance c ≡ ok (shares, c')
      → InFlight c' (k -ℤ steem.amount)
  unfolding create_vesting
  create_vesting-InFlight to steem true k c {shares} {c'} b e =
      let go = λ (x : Asset).
        modify_account to (add_reward_vesting safe x.amount steem.amount) c
        >>= add_pending safe x.amount steem.amount in
      let (x, ex, q) = >>=-eq-ok (new_vesting safe true steem c) (λ x. go x >>= λ d. ok (x, d)) e in
      let (d, ed, r) = >>=-eq-ok (go x) (λ d. ok (x, d)) q in
      let t : d ≡ c' = ap (λ y. y.1) (ok-injective r) in
      subst (λ y. InFlight y (k -ℤ steem.amount)) t
        (reward_vesting-InFlight to x.amount steem.amount k c {c' = d} b ed)
  create_vesting-InFlight to steem false k c {shares} {c'} b e =
      let go = λ (x : Asset).
        modify_account to (add_vesting safe x.amount) c
        >>= add_fund safe x.amount steem.amount
        >>= adjust_proxied_witness_votes safe to x.amount in
      let (x, ex, q) =
        >>=-eq-ok (new_vesting safe false steem c) (λ x. go x >>= λ d. ok (x, d)) e in
      let (d, ed, r) = >>=-eq-ok (go x) (λ d. ok (x, d)) q in
      let t : d ≡ c' = ap (λ y. y.1) (ok-injective r) in
      subst (λ y. InFlight y (k -ℤ steem.amount)) t
        (own_vesting-InFlight to x.amount steem.amount k c {c' = d} b ed)

  -- New supply is in flight until an object holds it, but for what goes to the vesting fund.
  pub adjust_supply-InFlight :
      (delta : Asset) (adjust_vesting : Bool) (k : ℤ) (c : Chain) {c' : Chain}
      → InFlight c k
      → adjust_supply safe delta adjust_vesting c ≡ ok c'
      → InFlight c' (k +ℤ delta.amount)
  unfolding adjust_supply
  adjust_supply-InFlight delta adjust_vesting k c {c'} b e =
      let (v, _, q) =
        >>=-eq-ok (vesting_issued safe delta adjust_vesting c) (λ v. issue safe delta.amount v c)
          (asserted (delta.symbol == wls_symbol) _ e) in
      subst (λ d. InFlight d (k +ℤ delta.amount)) (issue-ok safe exact delta.amount v c {c' = c'} q)
        (record {
          supply = grind (int_laws, b.supply);
          vesting = b.vesting;
          votes = b.votes;
          pending = b.pending;
        })
