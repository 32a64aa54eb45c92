-- ===== src/Chain/Application/Transactions/Replays.antt =====
-- A transaction that was applied is not applied again, however the chain goes on from there.
use vidpow.Prelude.{
  ℕ, ◌≤◌, ◌<◌, ◌≡◌, ◌≢◌, refl, sym, ◌∙◌, subst, ◌⊎◌, inl, inr, true, false, not, ◌||◌, ◌==◌,
  Bool-cases, none, Option-cases, List, [], ◌∷◌, find, In, arith,
}
use vidpow.Prelude.{ok, Ensures, after, finally, assert-true}
use vidpow.Chain.Ledger.State.{Chain, Transaction}
use vidpow.Chain.Blocks.{Skip}
use vidpow.Chain.Application.Finality.{clear_expired_transactions, drop_expired-In}
use vidpow.Chain.Application.Transactions.{
  SignedTransaction, Processor, find_transaction, check_expiration, check_time, insert_transaction,
  apply_operations, check_valid, check_new, check_signatures, remember, is_known_transaction,
  apply_transaction,
}

-- Evaluators leave the table against duplicates and the head block alone.
pub record LeavesHead (proc : Processor) : Type 0 where
  pub transactions :
      (op : ℕ) (c c' : Chain) → proc.evaluate op c ≡ ok c' → c'.transactions ≡ c.transactions
  pub time : (op : ℕ) (c c' : Chain) → proc.evaluate op c ≡ ok c' → c'.gpo.time ≡ c.gpo.time

insert-In :
    (t x : Transaction) (ts : List Transaction) → (x ≡ t) ⊎ In x ts → In x (insert_transaction t ts)
unfolding insert_transaction
insert-In t x [] h = h
insert-In t x (y ∷ ts) h = ground (arith, insert-In t x ts)

In-known :
    (id : ℕ) (x : Transaction) (ts : List Transaction)
    → In x ts
    → x.trx_id ≡ id
    → find (λ t. t.trx_id == id) ts ≢ none
In-known id x [] m e n = m
In-known id x (y ∷ ts) m e n = ground (arith, In-known id x ts)

module _ (proc : Processor) (leaves : LeavesHead proc) where
  abbrev entry : SignedTransaction → Transaction
  entry trx = record { trx_id = proc.trx_id trx; expiration = trx.expiration }

  -- The table has the transaction, or its time is over.
  abbrev pub Seen : SignedTransaction → Chain → Type 0
  Seen trx c = In (entry trx) c.transactions ⊎ (trx.expiration < c.gpo.time)

  apply_operations-leaves :
      (ops : List ℕ) (c : Chain)
      → Ensures
          (apply_operations proc ops c)
          (λ c'. (c'.transactions ≡ c.transactions) × (c'.gpo.time ≡ c.gpo.time))
  unfolding apply_operations
  apply_operations-leaves [] c = finally (refl, refl)
  apply_operations-leaves (op ∷ ops) c = after (proc.evaluate op c) (λ c1 e. record {
    on_ok = λ c' e'.
        let (p, q) = (apply_operations-leaves ops c1).on_ok c' e' in
        (p ∙ leaves.transactions op c c1 e, q ∙ leaves.time op c c1 e);
  })

  -- A transaction that is applied was new and not expired, and is in the table afterwards.
  record Applied (skip : Skip) (trx : SignedTransaction) (c c' : Chain) : Type 0 where
    pub new :
        (skip.skip_transaction_dupe_check || not (is_known_transaction (proc.trx_id trx) c)) ≡ true
    pub in_time : 0 < c.gpo.head_block_number → c.gpo.time < trx.expiration
    pub transactions : c'.transactions ≡ (remember proc skip trx c).transactions
    pub time : c'.gpo.time ≡ c.gpo.time

  check_time-lt :
      (skip : Skip) (trx : SignedTransaction) (c : Chain)
      → Ensures
          (check_time skip trx c)
          (λ u. 0 < c.gpo.head_block_number → c.gpo.time < trx.expiration)
  unfolding check_time check_expiration
  check_time-lt skip trx c = record { on_ok = λ u e h. ground (arith, e) }

  check_new-true :
      (skip : Skip) (trx : SignedTransaction) (c : Chain) {u : Unit {0}}
      → check_new proc skip trx c ≡ ok u
      → (skip.skip_transaction_dupe_check || not (is_known_transaction (proc.trx_id trx) c)) ≡ true
  unfolding check_new
  check_new-true skip trx c e = assert-true _ e

  time-remember :
      (skip : Skip) (trx : SignedTransaction) (c : Chain)
      → (remember proc skip trx c).gpo.time ≡ c.gpo.time
  unfolding remember
  time-remember skip trx c = ground arith

  apply_transaction-Applied :
      (skip : Skip) (trx : SignedTransaction) (c : Chain)
      → Ensures (apply_transaction proc skip trx c) (Applied skip trx c)
  unfolding apply_transaction
  apply_transaction-Applied skip trx c = after (check_valid proc skip trx) (λ u eu.
      after (check_new proc skip trx c) (λ v ev. after (check_signatures proc skip trx c) (λ w ew.
        after (check_time skip trx c) (λ t et. record {
          on_ok = λ c' e'.
              let (p, q) =
                (apply_operations-leaves (proc.operations trx) (remember proc skip trx c)).on_ok c'
                  e' in
              record {
                new = check_new-true skip trx c ev;
                in_time = (check_time-lt skip trx c).on_ok t et;
                transactions = p;
                time = q ∙ time-remember skip trx c;
              };
        }))))

  In-transactions-remember :
      (skip : Skip) (trx : SignedTransaction) (c : Chain) (x : Transaction)
      → In x c.transactions ⊎ ((skip.skip_transaction_dupe_check ≡ false) × (x ≡ entry trx))
      → In x (remember proc skip trx c).transactions
  unfolding remember
  In-transactions-remember skip trx c x h = elim (Bool-cases skip.skip_transaction_dupe_check) [
    | inl t ↦ elim h [ inl m ↦ rw t m | inr e ↦ cc ]
    | inr f ↦
        rw f (insert-In (entry trx) x c.transactions (elim h [ inl m ↦ inr m | inr e ↦ inl e.1 ]))
  ]

  -- How a chain goes on: other transactions, expired entries, and what moves time and leaves the table.
  pub data Later (c : Chain) : Chain → Type 0 where
    now : Later c c
    applies :
        {c1 c2 : Chain} (skip : Skip) (trx : SignedTransaction)
        → Later c c1
        → apply_transaction proc skip trx c1 ≡ ok c2
        → Later c c2
    clears : {c1 : Chain} → Later c c1 → Later c (clear_expired_transactions c1)
    passes :
        {c1 : Chain} (c2 : Chain)
        → Later c c1
        → c2.transactions ≡ c1.transactions
        → c1.gpo.time ≤ c2.gpo.time
        → Later c c2

  Later-Seen : (trx : SignedTransaction) {c c' : Chain} → Later c c' → Seen trx c → Seen trx c'
  unfolding clear_expired_transactions
  Later-Seen trx now s = s
  Later-Seen trx (applies {c1} {c2} skip other l e) s =
      let a = (apply_transaction-Applied skip other c1).on_ok c2 e in
      elim (Later-Seen trx l s) [
        | inl m ↦ inl (
            subst (In (entry trx)) (sym a.transactions)
              (In-transactions-remember skip other c1 (entry trx) (inl m)))
        | inr p ↦ inr (omega (arith, a.time))
      ]
  Later-Seen trx (clears {c1} l) s = elim (Later-Seen trx l s) [
    | inl m ↦ drop_expired-In c1.gpo.time (entry trx) c1.transactions m
    | inr p ↦ inr p
  ]
  Later-Seen trx (passes c2 l e le) s = elim (Later-Seen trx l s) [
    | inl m ↦ inl (subst (In (entry trx)) (sym e) m)
    | inr p ↦ inr (omega arith)
  ]

  -- With evaluators that leave the table against duplicates and the head block alone: a transaction
  -- that was applied, with the check for duplicates, is never applied again with that check after
  -- the first block, whatever transactions are applied, expired entries cleared and other steps
  -- made in between that leave the table alone and do not set the time of the head block back.
  pub apply_transaction-once :
      (skip again : Skip) (trx : SignedTransaction) (c c1 c2 : Chain) {c3 : Chain}
      → skip.skip_transaction_dupe_check ≡ false
      → again.skip_transaction_dupe_check ≡ false
      → apply_transaction proc skip trx c ≡ ok c1
      → Later c1 c2
      → 0 < c2.gpo.head_block_number
      → apply_transaction proc again trx c2 ≢ ok c3
  unfolding is_known_transaction find_transaction
  apply_transaction-once skip again trx c c1 c2 {c3} d d' e l pos e' =
      let a = (apply_transaction-Applied skip trx c).on_ok c1 e in
      let b = (apply_transaction-Applied again trx c2).on_ok c3 e' in
      let m = In-transactions-remember skip trx c (entry trx) (inr (d, refl)) in
      elim (Later-Seen trx l (inl (subst (In (entry trx)) (sym a.transactions) m))) [
        | inl k ↦
            let f = In-known (proc.trx_id trx) (entry trx) c2.transactions k refl in
            elim (Option-cases (find_transaction (proc.trx_id trx) c2.transactions)) [
              | inl n ↦ f n
              | inr (t, n) ↦ ground (arith, b.new)
            ]
        | inr p ↦ omega (arith, b.in_time pos)
      ]
