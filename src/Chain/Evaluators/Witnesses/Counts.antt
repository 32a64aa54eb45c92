-- ===== src/Chain/Evaluators/Witnesses/Counts.antt =====
-- wls_evaluator.cpp: `witnesses_voted_for` against the votes of an account.
use vidpow.Prelude.{
  ℕ, suc, ◌+◌, ◌≤◌, ◌≡◌, refl, sym, ◌∙◌, ap, subst, ◌≢◌, ◌⊎◌, inl, inr, Bool, true, not, some, List,
  [], ◌∷◌, ◌++◌, ltb, ◌==◌, if◌then◌else◌, arith, find, Bool-cases,
}
use vidpow.Prelude.{
  Result, ok, assert, Ensures, after, finally, or_throw-ok, unknown_object, assert-true,
}
use vidpow.Prelude.Int.{ℤ, pos, ◌-ℤ◌}
use vidpow.Prelude.Sums.{replace_first}
use vidpow.Chain.Ledger.State.{
  Account, WitnessVote, Chain, named, proxy_to_self, get_account, get_witness, modify_account,
  modify_account-ok, modify_witness-ok,
}
use vidpow.Chain.Ledger.Votes.{adjust_witness_vote, change_votes}
use vidpow.Chain.Evaluators.Witnesses.{
  has_vote, remove_vote, count_up, count_down, vote_weight, add_vote, withdraw_vote,
  account_witness_vote,
}

abbrev pub votes_of : ℕ → List WitnessVote → ℕ
votes_of n [] = 0
votes_of n (v ∷ vs) = if v.account == n then suc (votes_of n vs) else votes_of n vs

-- Each account that is found has as many votes as it counts, and at most
-- WLS_MAX_ACCOUNT_WITNESS_VOTES.
pub record Counted (c : Chain) : Type 0 where
  pub counts :
      (n : ℕ) (a : Account)
      → find (named n) c.accounts ≡ some a
      → a.witnesses_voted_for ≡ votes_of n c.witness_votes
  pub bound :
      (n : ℕ) (a : Account) → find (named n) c.accounts ≡ some a → a.witnesses_voted_for ≤ 30

find-name : (n : ℕ) (xs : List Account) {a : Account} → find (named n) xs ≡ some a → a.name ≡ n
find-name n [] e = cc
find-name n (x ∷ xs) {a} e = ground (arith, find-name n xs {a = a})

-- What is found after one row was replaced under its name.
find-after :
    (n m : ℕ) (a a' x : Account) (xs : List Account)
    → find (named n) xs ≡ some a
    → a'.name ≡ n
    → find (named m) (replace_first (named n) a' xs) ≡ some x
    → ((m ≡ n) × (x ≡ a')) ⊎ ((m ≢ n) × (find (named m) xs ≡ some x))
find-after n m a a' x [] f e g = cc
find-after n m a a' x (y ∷ xs) f e g = ground (arith, find-after n m a a' x xs)

votes_of-append :
    (n : ℕ) (v : WitnessVote) (vs : List WitnessVote)
    → votes_of n (vs ++ v ∷ []) ≡ votes_of n vs + (if v.account == n then 1 else 0)
votes_of-append n v [] = ground arith
votes_of-append n v (w ∷ vs) = ground (arith, votes_of-append n v vs)

votes_of-remove_vote :
    (n m w : ℕ) (vs : List WitnessVote)
    → has_vote n w vs ≡ true
    → votes_of m (remove_vote n w vs) + (if n == m then 1 else 0) ≡ votes_of m vs
votes_of-remove_vote n m w [] h = cc
votes_of-remove_vote n m w (v ∷ vs) h = ground (arith, votes_of-remove_vote n m w vs)

-- One account's counter changes as its votes do.
modify_account-Counted :
    (n : ℕ) (change : Account → Result Account) (start c d : Chain) {c' : Chain}
    → c.accounts ≡ start.accounts
    → d.accounts ≡ c'.accounts
    → ((m : ℕ) → m ≢ n → votes_of m d.witness_votes ≡ votes_of m start.witness_votes)
    → ((a a' : Account)
        → find (named n) start.accounts ≡ some a
        → change a ≡ ok a'
        → (a'.name ≡ a.name)
          × (a'.witnesses_voted_for ≡ votes_of n d.witness_votes)
          × (a'.witnesses_voted_for ≤ 30))
    → Counted start
    → modify_account n change c ≡ ok c'
    → Counted d
modify_account-Counted n change start c d {c'} same last rest own v e =
    let (a, a', f, ca, q) = modify_account-ok n change c {c' = c'} e in
    let found : find (named n) start.accounts ≡ some a =
      subst (λ xs. find (named n) xs ≡ some a) same f in
    let (kept, count, low) = own a a' found ca in
    let named_so : a'.name ≡ n = kept ∙ find-name n start.accounts {a = a} found in
    let rows : d.accounts ≡ replace_first (named n) a' start.accounts =
      last ∙ sym (ap (λ k. k.accounts) q) ∙ ap (replace_first (named n) a') same in
    record {
      counts = λ m x g. grind (
        arith,
        find-after n m a a' x start.accounts found named_so
            (subst (λ xs. find (named m) xs ≡ some x) rows g),
        rest m,
        v.counts m x,
      );
      bound = λ m x g. grind (
        arith,
        find-after n m a a' x start.accounts found named_so
            (subst (λ xs. find (named m) xs ≡ some x) rows g),
        v.bound m x,
      );
    }

module _ (safe : ℤ → Result ℤ) where
  adjust_witness_vote-same :
      (w : ℕ) (delta : ℤ) (c : Chain) {c' : Chain}
      → adjust_witness_vote safe w delta c ≡ ok c'
      → (c'.accounts ≡ c.accounts) × (c'.witness_votes ≡ c.witness_votes)
  unfolding adjust_witness_vote
  adjust_witness_vote-same w delta c {c'} e =
      let (_, _, _, _, q) = modify_witness-ok w (change_votes safe c delta) c {c' = c'} e in
      (ap (λ d. d.accounts) (sym q), ap (λ d. d.witness_votes) (sym q))

  modify_account-votes :
      (n : ℕ) (change : Account → Result Account) (c : Chain) {c' : Chain}
      → modify_account n change c ≡ ok c'
      → c'.witness_votes ≡ c.witness_votes
  modify_account-votes n change c {c'} e =
      let (_, _, _, _, q) = modify_account-ok n change c {c' = c'} e in
      ap (λ d. d.witness_votes) (sym q)

  add_vote-Counted :
      (voter : Account) (w : ℕ) (c : Chain)
      → find (named voter.name) c.accounts ≡ some voter
      → Counted c
      → Ensures (add_vote safe voter w c) Counted
  unfolding add_vote count_up
  add_vote-Counted voter w c f v =
      let vote : WitnessVote = record { witness = w; account = voter.name } in
      let c1 : Chain = record c { witness_votes = c.witness_votes ++ vote ∷ [] } in
      after (assert (ltb voter.witnesses_voted_for 30)) (λ u eu.
        after (vote_weight safe voter) (λ weight _.
          after (adjust_witness_vote safe w weight c1) (λ c2 e2. record {
            on_ok = λ c' e.
                let (rows, votes) = adjust_witness_vote-same w weight c1 {c' = c2} e2 in
                let kept = modify_account-votes voter.name count_up c2 {c' = c'} e ∙ votes in
                let room = assert-true (ltb voter.witnesses_voted_for 30) {u = u} eu in
                modify_account-Counted voter.name count_up c c2 c' {c' = c'} rows refl
                  (λ m ne. rw kept (grind (arith, votes_of-append m vote c.witness_votes)))
                  (λ a a' fa ca. rw kept (
                    ground (
                      arith,
                      f,
                      fa,
                      ca,
                      room,
                      votes_of-append voter.name vote c.witness_votes,
                      v.counts voter.name voter f,
                    )))
                  v e;
          })))

  withdraw_vote-Counted :
      (voter : Account) (w : ℕ) (c : Chain)
      → find (named voter.name) c.accounts ≡ some voter
      → has_vote voter.name w c.witness_votes ≡ true
      → Counted c
      → Ensures (withdraw_vote safe voter w c) Counted
  unfolding withdraw_vote count_down
  withdraw_vote-Counted voter w c f has v = after (vote_weight safe voter) (λ weight _.
      after (safe (pos 0 -ℤ weight)) (λ negated _.
        after (adjust_witness_vote safe w negated c) (λ c1 e1.
          after (modify_account voter.name count_down c1) (λ c2 e2.
            let (rows, votes) = adjust_witness_vote-same w negated c {c' = c1} e1 in
            let kept = modify_account-votes voter.name count_down c1 {c' = c2} e2 ∙ votes in
            let d : Chain = record c2 {
              witness_votes = remove_vote voter.name w c2.witness_votes;
            } in
            finally (
              modify_account-Counted voter.name count_down c c1 d {c' = c2} rows refl
                (λ m ne.
                  rw kept (grind (arith, votes_of-remove_vote voter.name m w c.witness_votes has)))
                (λ a a' fa ca. rw kept (
                  ground (
                    arith,
                    f,
                    fa,
                    ca,
                    votes_of-remove_vote voter.name voter.name w c.witness_votes has,
                    v.counts voter.name voter f,
                    v.bound voter.name voter f,
                  )))
                v e2)))))

  account_witness_vote-Ensures :
      (account witness : ℕ) (approve : Bool) (c : Chain)
      → Counted c
      → Ensures (account_witness_vote safe account witness approve c) Counted
  unfolding account_witness_vote get_account
  account_witness_vote-Ensures account witness approve c v =
      after (get_account account c) (λ voter ev.
        let f = or_throw-ok (find (named account) c.accounts) unknown_object ev in
        let found : find (named voter.name) c.accounts ≡ some voter =
          subst (λ n. find (named n) c.accounts ≡ some voter)
            (sym (find-name account c.accounts {a = voter} f)) f in
        after (assert (voter.proxy == proxy_to_self)) (λ _ _. after (get_witness witness c) (λ w _.
          elim (Bool-cases (has_vote voter.name w.owner c.witness_votes)) [
            | inl t ↦ rw t (
                after (assert (not approve))
                  (λ _ _. withdraw_vote-Counted voter w.owner c found t v))
            | inr b ↦
                rw b (after (assert approve) (λ _ _. add_vote-Counted voter w.owner c found v))
          ])))

  -- Where each account counts as many votes for witnesses as it has, and at most 30, it still does
  -- after a vote or the withdrawal of one that is applied: the 16-bit counter never wraps around.
  pub account_witness_vote-Counted :
      (account witness : ℕ) (approve : Bool) (c : Chain) {c' : Chain}
      → Counted c
      → account_witness_vote safe account witness approve c ≡ ok c'
      → Counted c'
  account_witness_vote-Counted account witness approve c {c'} v e =
      (account_witness_vote-Ensures account witness approve c v).on_ok c' e
