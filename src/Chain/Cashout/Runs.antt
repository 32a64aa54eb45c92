-- ===== src/Chain/Cashout/Runs.antt =====
-- database.cpp: the loop over the comments that are due as it runs, whatever its number of turns.
use vidpow.Prelude.{
  ℕ, zero, suc, ◌*◌, ◌/◌, ◌%◌, ◌^◌, ◌-◌, ◌<◌, ◌≤◌, ◌≡◌, refl, sym, ◌∙◌, ap, subst, inl, inr, Option,
  some, none, List, ◌==◌, if◌then◌else◌, arith, find, In, length,
}
use vidpow.Prelude.{
  Result, ok, err, Error, Ensures, after, finally, Ensures-if, or_throw, or_throw-ok,
  unknown_object, Result-cases,
}
use vidpow.Prelude.Int.{ℤ, pos, ◌+ℤ◌, ◌-ℤ◌, ltb_ℤ}
use vidpow.Prelude.Sums.{replace_first}
use vidpow.Protocol.Asset.{signed64, to_u128}
use vidpow.Chain.Rewards.{WideNumbers, get_rshare_reward}
use vidpow.Chain.Ledger.Content.{Comment}
use vidpow.Chain.Ledger.State.{Chain}
use vidpow.Chain.Cashout.{
  get_reward_fund, is_comment, modify_comment, reset_comment, pay_curators, pay_beneficiaries,
  pay_author, pay_reward, pay_rshares, cashout_comment_helper,
}
use vidpow.Chain.Cashout.Rounds.{
  FundContext, first_due, fund_id, context_at, modify_context, award, pay_comment, next_turn,
  pay_comments,
}
use vidpow.Chain.Cashout.Dates.{
  dates, Kept, Kept-refl, Kept-trans, pay_curators-Kept, pay_beneficiaries-Kept, pay_author-Kept,
}
use vidpow.Chain.Cashout.Counts.{
  Distinct, ids, due_count, due_count-le, In-dates, count-replace, first_due-In,
}

module _ (safe : ℤ → Result ℤ) (divide : ℤ → ℕ → Result ℤ) (to_uint64 : ℕ → Result ℕ)
    (wide : WideNumbers) where
  pay_reward-Kept :
      (x : Comment) (percent reward : ℕ) (c : Chain)
      → Ensures (pay_reward safe divide to_uint64 x percent reward c) (λ r. Kept c r.1)
  unfolding pay_reward
  pay_reward-Kept x percent reward c =
      after (to_uint64 (reward * percent % 2 ^ 128 / 10000)) (λ curators _.
        after (to_uint64 reward) (λ total _.
          after (safe (signed64 total -ℤ signed64 curators)) (λ author _.
            after (pay_curators safe divide to_uint64 x (signed64 curators) c) (λ s es.
              after (safe (author +ℤ s.0)) (λ tokens _. after (safe (tokens +ℤ s.1)) (λ claimed _.
                after (pay_beneficiaries safe divide to_uint64 tokens (pos 0) x.beneficiaries s.2)
                  (λ t et. after (safe (tokens -ℤ t.0)) (λ rest _.
                    after (pay_author safe divide to_uint64 x rest s.1 t.0 t.1) (λ c3 e3. finally (
                      Kept-trans
                        (Kept-trans
                          ((pay_curators-Kept safe divide to_uint64 x (signed64 curators) c).on_ok s
                            es)
                          ((pay_beneficiaries-Kept safe divide to_uint64 tokens (pos 0)
                              x.beneficiaries s.2).on_ok
                            t et))
                        ((pay_author-Kept safe divide to_uint64 x rest s.1 t.0 t.1).on_ok c3
                          e3)))))))))))

  -- A payout leaves the ids, and one comment fewer that is due.
  record Paid (c c' : Chain) : Type 0 where
    pub fewer :
        suc (due_count c'.gpo.time (dates c'.comments)) ≡ due_count c.gpo.time (dates c.comments)
    pub ids : ids (dates c'.comments) ≡ ids (dates c.comments)
    pub time : c'.gpo.time ≡ c.gpo.time

  reset-Paid :
      (x : Comment) (c d : Chain)
      → Distinct (ids (dates c.comments))
      → In x c.comments
      → x.cashout_time ≤ c.gpo.time
      → c.gpo.time < 2 ^ 32 - 1
      → Kept c d
      → Ensures (modify_comment x.id (reset_comment d.gpo.time) d) (Paid c)
  unfolding modify_comment reset_comment
  reset-Paid x c d u m due low k =
      after (or_throw (find (is_comment x.id) d.comments) unknown_object) (λ y ey.
        let f = or_throw-ok _ unknown_object ey in
        let u' = subst (λ ks. Distinct (ids ks)) (sym k.dates) u in
        let m' =
          subst (λ ks. In (x.id, x.cashout_time) ks) (sym k.dates) (In-dates x c.comments m) in
        let y' : Comment = record y {
          net_rshares = if ltb_ℤ (pos 0) y.net_rshares then pos 0 else y.net_rshares;
          children_abs_rshares = pos 0;
          abs_rshares = pos 0;
          vote_rshares = pos 0;
          total_vote_weight = 0;
          max_cashout_time = 2 ^ 32 - 1;
          cashout_time = 2 ^ 32 - 1;
          last_payout = d.gpo.time;
        } in
        let (n, i) =
          count-replace c.gpo.time x.id x.cashout_time y y' d.comments u' m' due f refl low in
        finally (record {
          fewer =
              subst
                (λ t.
                  suc (due_count t (dates (replace_first (is_comment x.id) y' d.comments)))
                  ≡ due_count c.gpo.time (dates c.comments))
                (sym k.time) (n ∙ ap (due_count c.gpo.time) k.dates);
          ids = i ∙ ap ids k.dates;
          time = k.time;
        }))

  cashout_comment_helper-Paid :
      (claims : ℕ) (balance : ℤ) (x : Comment) (c : Chain)
      → Distinct (ids (dates c.comments))
      → In x c.comments
      → x.cashout_time ≤ c.gpo.time
      → c.gpo.time < 2 ^ 32 - 1
      → Ensures
          (cashout_comment_helper safe divide to_uint64 wide claims balance x c)
          (λ r. Paid c r.1)
  unfolding cashout_comment_helper pay_rshares
  cashout_comment_helper-Paid claims balance x c u m due low =
      after
        (if ltb_ℤ (pos 0) x.net_rshares
          then pay_rshares safe divide to_uint64 wide claims balance x c
          else ok (pos 0, c))
        (λ r er. after (modify_comment x.id (reset_comment r.1.gpo.time) r.1) (λ c2 e2.
          let k =
            (Ensures-if {P = λ r. Kept c r.1} (ltb_ℤ (pos 0) x.net_rshares) _ _ (λ _. paid)
                (λ _. finally (Kept-refl c))).on_ok
              r er in
          let q = (reset-Paid x c r.1 u m due low k).on_ok c2 e2 in
          finally (record { fewer = q.fewer; ids = q.ids; time = q.time })))
    where
      paid : Ensures (pay_rshares safe divide to_uint64 wide claims balance x c) (λ r. Kept c r.1)
      paid = after (get_reward_fund c) (λ rf _.
          after
            (get_rshare_reward wide (record {
              rshares = x.net_rshares;
              reward_weight = x.reward_weight;
              max_payout = x.max_accepted_payout;
              total_reward_shares2 = claims;
              total_reward_fund_steem = balance;
              reward_curve = rf.author_reward_curve;
              content_constant = rf.content_constant;
            }))
            (λ reward _.
              Ensures-if (to_u128 (signed64 reward) == 0) _ _ (λ _. finally (Kept-refl c))
                (λ _. pay_reward-Kept x rf.percent_curation_rewards (to_u128 (signed64 reward)) c)))

  pay_comment-Paid :
      (funds : List FundContext) (x : Comment) (c : Chain)
      → Distinct (ids (dates c.comments))
      → In x c.comments
      → x.cashout_time ≤ c.gpo.time
      → c.gpo.time < 2 ^ 32 - 1
      → Ensures (pay_comment safe divide to_uint64 wide funds x c) (λ r. Paid c r.1)
  unfolding pay_comment
  pay_comment-Paid funds x c u m due low = after (fund_id c.funds) (λ i _.
      after (context_at i funds) (λ f _.
        after
          (cashout_comment_helper safe divide to_uint64 wide f.recent_claims f.reward_balance x c)
          (λ r er. after (modify_context i (award safe r.0) funds) (λ ys _. finally (
            (cashout_comment_helper-Paid f.recent_claims f.reward_balance x c u m due low).on_ok r
              er)))))

  -- `while( current != cidx.end() && current->cashout_time <= head_block_time() )`, where `current` is
  -- the first of the index again after each payout.
  pub data Loop : List FundContext → Chain → Result (List FundContext × Chain) → Type 0 where
    none_due :
        (funds : List FundContext) (c : Chain) → first_due c ≡ none → Loop funds c (ok (funds, c))
    thrown :
        (funds : List FundContext) (c : Chain) (x : Comment) (e : Error)
        → first_due c ≡ some x
        → pay_comment safe divide to_uint64 wide funds x c ≡ err e
        → Loop funds c (err e)
    turn :
        (funds funds' : List FundContext) (c c' : Chain) (x : Comment)
        (r : Result (List FundContext × Chain))
        → first_due c ≡ some x
        → pay_comment safe divide to_uint64 wide funds x c ≡ ok (funds', c')
        → Loop funds' c' r
        → Loop funds c r

  next_turn-Loop :
      (fuel : ℕ) (funds : List FundContext) (c : Chain)
      → ((gs : List FundContext) (d : Chain)
          → Paid c d
          → Loop gs d (pay_comments safe divide to_uint64 wide fuel gs d))
      → Distinct (ids (dates c.comments))
      → c.gpo.time < 2 ^ 32 - 1
      → (m : Option Comment) → first_due c ≡ m
      → Loop funds c (
          next_turn safe divide to_uint64 wide
            (pay_comments safe divide to_uint64 wide fuel)
            m
            funds
            c)
  unfolding next_turn
  next_turn-Loop fuel funds c rest u low none e = none_due funds c e
  next_turn-Loop fuel funds c rest u low (some x) e =
      let (m, due) = first_due-In c x e in
      elim (Result-cases (pay_comment safe divide to_uint64 wide funds x c)) [
        | inr (t, q) ↦ rw q (thrown funds c x t e q)
        | inl (r, q) ↦ rw q (
            turn funds r.0 c r.1 x (pay_comments safe divide to_uint64 wide fuel r.0 r.1) e q
              (rest r.0 r.1 ((pay_comment-Paid funds x c u m due low).on_ok r q)))
      ]

  pay_comments-Loop :
      (fuel : ℕ) (funds : List FundContext) (c : Chain)
      → Distinct (ids (dates c.comments))
      → c.gpo.time < 2 ^ 32 - 1
      → due_count c.gpo.time (dates c.comments) < fuel
      → Loop funds c (pay_comments safe divide to_uint64 wide fuel funds c)
  unfolding pay_comments
  pay_comments-Loop zero funds c u low h = absurd (omega arith)
  pay_comments-Loop (suc fuel) funds c u low h =
      next_turn-Loop fuel funds c
        (λ gs d q.
          pay_comments-Loop fuel gs d (subst Distinct (sym q.ids) u) (rw q.time low)
            (omega (arith, q.fewer)))
        u low (first_due c) refl

  -- Where the ids of the comments differ, and the time of the head block is below the largest one,
  -- the loop over the comments that are due ends within a round more than there are comments: what
  -- the model returns or throws is the end of the loop itself.
  pub pay_comments_total :
      (funds : List FundContext) (c : Chain)
      → Distinct (ids (dates c.comments))
      → c.gpo.time < 2 ^ 32 - 1
      → Loop funds c (pay_comments safe divide to_uint64 wide (suc (length c.comments)) funds c)
  pay_comments_total funds c u low =
      pay_comments-Loop (suc (length c.comments)) funds c u low
        (omega (arith, due_count-le c.gpo.time c.comments))
