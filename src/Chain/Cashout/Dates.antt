-- ===== src/Chain/Cashout/Dates.antt =====
-- database.cpp: what a payout does to the dates of the comments. Only the comment that is paid gets
-- another one, which is no date of a block.
use vidpow.Prelude.{
  ℕ, ◌*◌, ◌/◌, ◌%◌, ◌^◌, ◌≡◌, refl, ◌∙◌, ap, subst, true, not, Bool-cases, inl, inr, some, List, [],
  ◌∷◌, map, ltb, ◌==◌, if◌then◌else◌, arith, find,
}
use vidpow.Prelude.{
  Result, ok, ◌>>=◌, Ensures, after, finally, Ensures-if, or_throw, or_throw-ok, unknown_object,
}
use vidpow.Prelude.Int.{ℤ, pos, ◌+ℤ◌, ◌-ℤ◌, ◌*ℤ◌}
use vidpow.Prelude.Sums.{replace_first}
use vidpow.Protocol.Asset.{Asset, signed64, to_u128}
use vidpow.Chain.Ledger.Content.{Beneficiary, Comment, CommentVote}
use vidpow.Chain.Ledger.State.{Account, Chain, get_account, modify_account, modify_account-ok}
use vidpow.Chain.Ledger.Supply.{wls, new_vesting, add_reward_vesting, add_pending, create_vesting}
use vidpow.Chain.Cashout.{
  is_comment, modify_comment, votes_on, add_curation, add_posting, pay_curator, pay_votes,
  pay_curators, pay_beneficiaries, adjust_total_payout, add_author_rewards, pay_author,
}

abbrev pub dates : List Comment → List (ℕ × ℕ)
dates xs = map (λ x. (x.id, x.cashout_time)) xs

-- The time and the dates stay.
pub record Kept (c c' : Chain) : Type 0 where
  pub dates : dates c'.comments ≡ dates c.comments
  pub time : c'.gpo.time ≡ c.gpo.time

pub Kept-refl : (c : Chain) → Kept c c
Kept-refl c = record { dates = refl; time = refl }

pub Kept-trans : {c d e : Chain} → Kept c d → Kept d e → Kept c e
Kept-trans r s = record { dates = s.dates ∙ r.dates; time = s.time ∙ r.time }

dates-replace :
    (id : ℕ) (x y : Comment) (xs : List Comment)
    → find (is_comment id) xs ≡ some x
    → y.id ≡ x.id
    → y.cashout_time ≡ x.cashout_time
    → dates (replace_first (is_comment id) y xs) ≡ dates xs
dates-replace id x y [] f e d = refl
dates-replace id x y (z ∷ zs) f e d = elim (Bool-cases (z.id == id)) [
  | inl t ↦ let s : z ≡ x = ground (arith, f) in rw t (ap (λ k. k ∷ dates zs) (rw (e, d, s) refl))
  | inr n ↦
      let g : find (is_comment id) zs ≡ some x = ground (arith, f) in
      rw n (ap (λ ks. (z.id, z.cashout_time) ∷ ks) (dates-replace id x y zs g e d))
]

pub modify_account-Kept :
    (name : ℕ) (change : Account → Result Account) (c : Chain)
    → Ensures (modify_account name change c) (Kept c)
modify_account-Kept name change c = record {
  on_ok = λ c' e.
      let (_, _, _, _, q) = modify_account-ok name change c {c' = c'} e in
      subst (Kept c) q (record { dates = refl; time = refl });
}

pub modify_comment-Kept :
    (id : ℕ) (change : Comment → Result Comment) (c : Chain)
    → ((x : Comment) → Ensures (change x) (λ y. (y.id ≡ x.id) × (y.cashout_time ≡ x.cashout_time)))
    → Ensures (modify_comment id change c) (Kept c)
unfolding modify_comment
modify_comment-Kept id change c k =
    after (or_throw (find (is_comment id) c.comments) unknown_object) (λ x ex.
      after (change x) (λ y ey.
        let f = or_throw-ok _ unknown_object ex in
        let (e, d) = (k x).on_ok y ey in
        finally (record { dates = dates-replace id x y c.comments f e d; time = refl })))

module _ (safe : ℤ → Result ℤ) where
  create_vesting-Kept :
      (to : ℕ) (steem : Asset) (c : Chain)
      → Ensures (create_vesting safe to steem true c) (λ r. Kept c r.1)
  unfolding create_vesting add_pending
  create_vesting-Kept to steem c = after (new_vesting safe true steem c) (λ x _.
      after
        (modify_account to (add_reward_vesting safe x.amount steem.amount) c
          >>= add_pending safe x.amount steem.amount)
        (λ d ed. finally (
          (after (modify_account to (add_reward_vesting safe x.amount steem.amount) c) {P = Kept c}
              (λ d1 e1. after (safe (d1.gpo.pending_rewarded_vesting_shares +ℤ x.amount)) (λ _ _.
                after (safe (d1.gpo.pending_rewarded_vesting_steem +ℤ steem.amount)) (λ _ _.
                  let m =
                    (modify_account-Kept to (add_reward_vesting safe x.amount steem.amount) c).on_ok
                      d1 e1 in
                  finally (record { dates = m.dates; time = m.time }))))).on_ok
            d ed)))

  module _ (divide : ℤ → ℕ → Result ℤ) (to_uint64 : ℕ → Result ℕ) where
    pay_curator-Kept :
        (voter : ℕ) (claim : ℤ) (c : Chain)
        → Ensures (pay_curator safe divide to_uint64 voter claim c) (Kept c)
    unfolding pay_curator
    pay_curator-Kept voter claim c = after (get_account voter c) (λ a _.
        after (create_vesting safe a.name (wls claim) true c) (λ r er. record {
          on_ok = λ c' e. Kept-trans ((create_vesting-Kept a.name (wls claim) c).on_ok r er) (
              (modify_account-Kept a.name (add_curation safe divide to_uint64 claim) r.1).on_ok c'
                e);
        }))

    pay_votes-Kept :
        (most : ℤ) (total : ℕ) (unclaimed : ℤ) (vs : List CommentVote) (c : Chain)
        → Ensures (pay_votes safe divide to_uint64 most total unclaimed vs c) (λ r. Kept c r.1)
    unfolding pay_votes
    pay_votes-Kept most total unclaimed [] c = finally (Kept-refl c)
    pay_votes-Kept most total unclaimed (v ∷ vs) c =
        after (to_uint64 (to_u128 most * v.weight % 2 ^ 128 / total)) (λ claim _.
          Ensures-if (claim == 0) _ _ (λ _. pay_votes-Kept most total unclaimed vs c)
            (λ _. after (safe (unclaimed -ℤ signed64 claim)) (λ left _.
              after (pay_curator safe divide to_uint64 v.voter (signed64 claim) c) (λ c' ec.
                record {
                  on_ok = λ r e.
                      Kept-trans ((pay_curator-Kept v.voter (signed64 claim) c).on_ok c' ec)
                        ((pay_votes-Kept most total left vs c').on_ok r e);
                }))))

    pub pay_curators-Kept :
        (x : Comment) (most : ℤ) (c : Chain)
        → Ensures (pay_curators safe divide to_uint64 x most c) (λ r. Kept c r.2)
    unfolding pay_curators
    pay_curators-Kept x most c =
        Ensures-if (not x.allow_curation_rewards) _ _
          (λ _. after (safe (pos 0 -ℤ pos 0)) (λ _ _. finally (Kept-refl c)))
          (λ _.
            after
              (if ltb 0 x.total_vote_weight
                then pay_votes safe divide to_uint64 most x.total_vote_weight most (votes_on x.id c)
                    c
                else ok (most, c))
              (λ r er. after (safe (most -ℤ r.0)) (λ _ _. finally (
                (Ensures-if {P = λ r. Kept c r.1} (ltb 0 x.total_vote_weight) _ _
                    (λ _. pay_votes-Kept most x.total_vote_weight most (votes_on x.id c) c)
                    (λ _. finally (Kept-refl c))).on_ok
                  r er))))

    pub pay_beneficiaries-Kept :
        (tokens total : ℤ) (bs : List Beneficiary) (c : Chain)
        → Ensures (pay_beneficiaries safe divide to_uint64 tokens total bs c) (λ r. Kept c r.1)
    unfolding pay_beneficiaries
    pay_beneficiaries-Kept tokens total [] c = finally (Kept-refl c)
    pay_beneficiaries-Kept tokens total (x ∷ xs) c = after (safe (tokens *ℤ pos x.weight)) (λ p _.
        after (divide p 10000) (λ t _. after (get_account x.account c) (λ a _.
          after (create_vesting safe a.name (wls t) true c) (λ r er.
            after (safe (total +ℤ t)) (λ total' _. record {
              on_ok = λ s e.
                  Kept-trans ((create_vesting-Kept a.name (wls t) c).on_ok r er)
                    ((pay_beneficiaries-Kept tokens total' xs r.1).on_ok s e);
            })))))

    pub pay_author-Kept :
        (x : Comment) (tokens curation beneficiaries : ℤ) (c : Chain)
        → Ensures (pay_author safe divide to_uint64 x tokens curation beneficiaries c) (Kept c)
    unfolding pay_author adjust_total_payout add_author_rewards
    pay_author-Kept x tokens curation beneficiaries c = after (get_account x.author c) (λ a _.
        after (create_vesting safe a.name (wls tokens) true c) (λ r er.
          let totals = adjust_total_payout safe divide to_uint64 tokens curation beneficiaries in
          let rewards = add_author_rewards safe divide to_uint64 tokens in
          after (modify_comment x.id totals r.1) (λ c2 e2.
            after (modify_comment x.id rewards c2) (λ c3 e3. record {
              on_ok = λ c4 e4.
                  let k1 = (create_vesting-Kept a.name (wls tokens) c).on_ok r er in
                  let k2 =
                    (modify_comment-Kept x.id totals r.1 (λ y.
                        after (safe (y.total_payout_value +ℤ tokens)) (λ _ _.
                          after (safe (y.curator_payout_value +ℤ curation)) (λ _ _.
                            after (safe (y.beneficiary_payout_value +ℤ beneficiaries))
                              (λ _ _. finally (refl, refl)))))).on_ok
                      c2 e2 in
                  let k3 =
                    (modify_comment-Kept x.id rewards c2 (λ y.
                        after (safe (y.author_rewards +ℤ tokens))
                          (λ _ _. finally (refl, refl)))).on_ok
                      c3 e3 in
                  let k4 =
                    (modify_account-Kept a.name (add_posting safe divide to_uint64 tokens) c3).on_ok
                      c4 e4 in
                  Kept-trans (Kept-trans k1 k2) (Kept-trans k3 k4);
            }))))
