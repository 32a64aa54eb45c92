-- ===== src/Chain/Ledger/Effects.antt =====
-- database.cpp: what each operation on balances, supply and vesting does to the account or to the global
-- properties that it modifies.
use vidpow.Prelude.{
  ℕ, ◌≡◌, refl, sym, ◌∙◌, ap, subst, some, ◌==◌, if◌then◌else◌, find, Bool-cases, inl, inr,
}
use vidpow.Prelude.{
  Result, ok, assert, Ensures, after, finally, ◌>>=◌, asserted, >>=-eq-ok, ok-injective,
}
use vidpow.Prelude.Int.{ℤ, pos, ◌+ℤ◌, ◌-ℤ◌, int_laws}
use vidpow.Protocol.Asset.{IsExact, Asset, wls_symbol, asset_neg, asset_add, asset_sub}
use vidpow.Chain.Ledger.State.{
  Account, Chain, named, proxy_to_self, modify_account, modify_account-ok,
}
use vidpow.Chain.Ledger.Supply.{
  add_balance, add_reward_balance, issue, new_vesting, add_vesting, add_reward_vesting, add_fund,
  add_pending,
}
use vidpow.Chain.Ledger.Invariants.{Moves, replace-Moves, vsf_votes, held, vesting_of}
use vidpow.Chain.Ledger.Conservation.{find-replace}

module _ (safe : ℤ → Result ℤ) (exact : IsExact safe) where
  -- The amounts of a sum, a difference and a negation are exact.
  pub asset_neg-amount :
      (a : Asset) → Ensures (asset_neg safe a) (λ b. b.amount ≡ pos 0 -ℤ a.amount)
  unfolding asset_neg
  asset_neg-amount a = after (safe (pos 0 -ℤ a.amount)) (λ x ex. finally (sym (exact _ x ex)))

  pub asset_add-amount :
      (a b : Asset) → Ensures (asset_add safe a b) (λ x. x.amount ≡ a.amount +ℤ b.amount)
  unfolding asset_add
  asset_add-amount a b =
      after (assert (a.symbol == b.symbol))
        (λ _ _. after (safe (a.amount +ℤ b.amount)) (λ x ex. finally (sym (exact _ x ex))))

  pub asset_sub-amount :
      (a b : Asset) → Ensures (asset_sub safe a b) (λ x. x.amount ≡ a.amount -ℤ b.amount)
  unfolding asset_sub
  asset_sub-amount a b =
      after (assert (a.symbol == b.symbol))
        (λ _ _. after (safe (a.amount -ℤ b.amount)) (λ x ex. finally (sym (exact _ x ex))))

  -- A change of one account, by what it does to the account's four sums.
  abbrev pub Effect : (Account → Result Account) → ℤ → ℤ → (Account → ℤ) → ℤ → Type 0
  Effect change h v n p =
      (a a' : Account)
      → change a ≡ ok a'
      → (held a' ≡ held a +ℤ h)
        × (vesting_of a' ≡ vesting_of a +ℤ v)
        × (vsf_votes a' ≡ vsf_votes a +ℤ n a)
        × (a'.reward_vesting_steem ≡ a.reward_vesting_steem +ℤ p)
        × (a'.name ≡ a.name)
        × (a'.proxy ≡ a.proxy)

  pub modify_account-Moves :
      (name : ℕ) (change : Account → Result Account) (h v : ℤ) (n : Account → ℤ) (p : ℤ) (c : Chain)
      {c' : Chain}
      → Effect change h v n p
      → modify_account name change c ≡ ok c'
      → (a : Account) × (a' : Account) × Moves c c' h v (n a) p
        × (find (named name) c'.accounts ≡ some a')
        × (a'.proxy ≡ a.proxy)
  modify_account-Moves name change h v n p c {c'} effect e =
      let (a, a', f, ca, q) = modify_account-ok name change c {c' = c'} e in
      let (eh, ev, en, ep, name_kept, proxy_kept) = effect a a' ca in
      (
        a,
        a',
        subst (λ x. Moves c x h v (n a) p) q (replace-Moves name a a' c f eh ev en ep),
        subst (λ x. find (named name) x.accounts ≡ some a') q
            (find-replace name a a' c.accounts f name_kept),
        proxy_kept,
      )

  pub add_balance-Effect :
      (d : Asset) → Effect (add_balance safe d) d.amount (pos 0) (λ a. pos 0) (pos 0)
  unfolding add_balance
  add_balance-Effect d a a' e =
      let (x, ex, r) =
        >>=-eq-ok (safe (a.balance +ℤ d.amount)) (λ x. ok (record a { balance = x }))
          (asserted (d.symbol == wls_symbol) _ e) in
      let s = exact _ x ex in
      let t = ok-injective r in
      (
        rw (← t, ← s) (omega int_laws),
        rw (← t) (omega int_laws),
        rw (← t) (omega int_laws),
        rw (← t) (omega int_laws),
        rw (← t) refl,
        rw (← t) refl,
      )

  pub add_reward_balance-Effect :
      (d : Asset) → Effect (add_reward_balance safe d) d.amount (pos 0) (λ a. pos 0) (pos 0)
  unfolding add_reward_balance
  add_reward_balance-Effect d a a' e =
      let (x, ex, r) =
        >>=-eq-ok (safe (a.reward_steem_balance +ℤ d.amount))
          (λ x. ok (record a { reward_steem_balance = x }))
          (asserted (d.symbol == wls_symbol) _ e) in
      let s = exact _ x ex in
      let t = ok-injective r in
      (
        rw (← t, ← s) (omega int_laws),
        rw (← t) (omega int_laws),
        rw (← t) (omega int_laws),
        rw (← t) (omega int_laws),
        rw (← t) refl,
        rw (← t) refl,
      )

  pub add_vesting-Effect :
      (shares : ℤ)
      → Effect
          (add_vesting safe shares)
          (pos 0)
          shares
          (λ a. if a.proxy == proxy_to_self then shares else pos 0)
          (pos 0)
  unfolding add_vesting
  add_vesting-Effect shares a a' e =
      let (x, ex, r) =
        >>=-eq-ok (safe (a.vesting_shares +ℤ shares)) (λ x. ok (record a { vesting_shares = x }))
          e in
      let s = exact _ x ex in
      let t = ok-injective r in
      (
        rw (← t) (omega int_laws),
        rw (← t, ← s) (omega int_laws),
        rw (← t, ← s)
            (elim (Bool-cases (a.proxy == proxy_to_self)) [
              | inl b ↦ rw b (omega int_laws)
              | inr b ↦ rw b (omega int_laws)
            ]),
        rw (← t) (omega int_laws),
        rw (← t) refl,
        rw (← t) refl,
      )

  pub add_reward_vesting-Effect :
      (shares steem : ℤ)
      → Effect (add_reward_vesting safe shares steem) (pos 0) shares (λ a. pos 0) steem
  unfolding add_reward_vesting
  add_reward_vesting-Effect shares steem a a' e =
      let (x, ex, q) =
        >>=-eq-ok (safe (a.reward_vesting_balance +ℤ shares))
          (λ x. safe (a.reward_vesting_steem +ℤ steem) >>= λ y.
            ok (record a { reward_vesting_balance = x; reward_vesting_steem = y }))
          e in
      let (y, ey, r) =
        >>=-eq-ok (safe (a.reward_vesting_steem +ℤ steem))
          (λ y. ok (record a { reward_vesting_balance = x; reward_vesting_steem = y })) q in
      let s = exact _ x ex in
      let u = exact _ y ey in
      let t = ok-injective r in
      (
        rw (← t) (omega int_laws),
        rw (← t, ← s) (omega int_laws),
        rw (← t) (omega int_laws),
        rw (← t, ← u) refl,
        rw (← t) refl,
        rw (← t) refl,
      )

  abbrev pub funded : ℤ → ℤ → Chain → Chain
  funded shares steem c =
      let g = c.gpo in
      record c {
        gpo = record g {
          total_vesting_fund_steem = g.total_vesting_fund_steem +ℤ steem;
          total_vesting_shares = g.total_vesting_shares +ℤ shares;
        };
      }

  abbrev pub pended : ℤ → ℤ → Chain → Chain
  pended shares steem c =
      let g = c.gpo in
      record c {
        gpo = record g {
          pending_rewarded_vesting_shares = g.pending_rewarded_vesting_shares +ℤ shares;
          pending_rewarded_vesting_steem = g.pending_rewarded_vesting_steem +ℤ steem;
        };
      }

  -- What the two changes of the global properties are.
  pub add_fund-ok :
      (shares steem : ℤ) (c : Chain) {c' : Chain}
      → add_fund safe shares steem c ≡ ok c'
      → funded shares steem c ≡ c'
  unfolding add_fund
  add_fund-ok shares steem c {c'} e =
      let g = c.gpo in
      let (x, ex, q) =
        >>=-eq-ok (safe (g.total_vesting_fund_steem +ℤ steem))
          (λ x. safe (g.total_vesting_shares +ℤ shares) >>= λ y. ok (record c {
            gpo = record g { total_vesting_fund_steem = x; total_vesting_shares = y };
          }))
          e in
      let (y, ey, r) =
        >>=-eq-ok (safe (g.total_vesting_shares +ℤ shares))
          (λ y. ok (record c {
            gpo = record g { total_vesting_fund_steem = x; total_vesting_shares = y };
          }))
          q in
      rw (exact _ x ex, exact _ y ey) (ok-injective r)

  pub add_pending-ok :
      (shares steem : ℤ) (c : Chain) {c' : Chain}
      → add_pending safe shares steem c ≡ ok c'
      → pended shares steem c ≡ c'
  unfolding add_pending
  add_pending-ok shares steem c {c'} e =
      let g = c.gpo in
      let (x, ex, q) =
        >>=-eq-ok (safe (g.pending_rewarded_vesting_shares +ℤ shares))
          (λ x. safe (g.pending_rewarded_vesting_steem +ℤ steem) >>= λ y. ok (record c {
            gpo = record g {
              pending_rewarded_vesting_shares = x;
              pending_rewarded_vesting_steem = y;
            };
          }))
          e in
      let (y, ey, r) =
        >>=-eq-ok (safe (g.pending_rewarded_vesting_steem +ℤ steem))
          (λ y. ok (record c {
            gpo = record g {
              pending_rewarded_vesting_shares = x;
              pending_rewarded_vesting_steem = y;
            };
          }))
          q in
      rw (exact _ x ex, exact _ y ey) (ok-injective r)

  abbrev pub issued : ℤ → ℤ → Chain → Chain
  issued amount new_vesting c =
      let g = c.gpo in
      record c {
        gpo = record g {
          current_supply = g.current_supply +ℤ (amount +ℤ new_vesting);
          total_vesting_fund_steem = g.total_vesting_fund_steem +ℤ new_vesting;
        };
      }

  pub issue-ok :
      (amount v : ℤ) (c : Chain) {c' : Chain}
      → issue safe amount v c ≡ ok c'
      → issued amount v c ≡ c'
  unfolding issue
  issue-ok amount v c {c'} e =
      let g = c.gpo in
      let last = λ (s f : ℤ).
        ok (record c { gpo = record g { current_supply = s; total_vesting_fund_steem = f } }) in
      let (y, ey, e2) =
        >>=-eq-ok (safe (amount +ℤ v))
          (λ y. safe (g.current_supply +ℤ y) >>= λ s.
            safe (g.total_vesting_fund_steem +ℤ v) >>= λ f. last s f)
          e in
      let (s, es, e3) =
        >>=-eq-ok (safe (g.current_supply +ℤ y))
          (λ s. safe (g.total_vesting_fund_steem +ℤ v) >>= λ f. last s f) e2 in
      let (f, ef, e4) = >>=-eq-ok (safe (g.total_vesting_fund_steem +ℤ v)) (λ f. last s f) e3 in
      ap
        (λ x. record c {
          gpo = record g {
            current_supply = g.current_supply +ℤ x;
            total_vesting_fund_steem = g.total_vesting_fund_steem +ℤ v;
          };
        })
        (exact _ y ey)
      ∙ ap
          (λ x. record c {
            gpo = record g {
              current_supply = x;
              total_vesting_fund_steem = g.total_vesting_fund_steem +ℤ v;
            };
          })
          (exact _ s es)
      ∙ ap (λ x. record c { gpo = record g { current_supply = s; total_vesting_fund_steem = x } })
          (exact _ f ef)
      ∙ ok-injective e4
