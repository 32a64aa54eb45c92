-- ===== src/Chain/Application/Hardforks.antt =====
-- libraries/chain/database.cpp: processing hardforks. The arrays `_hardfork_times` and
-- `_hardfork_versions` have WLS_NUM_HARDFORKS + 1 entries; beyond them lies no defined behaviour. The
-- virtual operation of a hardfork is left out.
use vidpow.Prelude.{
  ℕ, zero, suc, ◌+◌, ◌≤◌, ◌<◌, ◌≡◌, ◌≢◌, refl, sym, ◌∙◌, ap, Bool, true, false, ◌&&◌, ◌==◌, ltb,
  ltb→lt, leb, if◌then◌else◌, Option, some, List, [], ◌∷◌, ◌++◌, length, length-append, get_elem?,
  arith,
}
use vidpow.Prelude.{
  Result, ok, err, ◌>>=◌, ◌>>◌, assert, or_throw, or_throw-ok, null_pointer, unknown_hardfork,
  out_of_fuel, Ensures, Ensures-if, after, finally, >>=-ne,
}
use vidpow.Chain.Ledger.State.{Chain}

pub record HardforkTable : Type 0 where
  pub num_hardforks : ℕ
  pub versions : List ℕ
  pub times : List ℕ

some-injective : {a b : ℕ} → some a ≡ some b → a ≡ b
some-injective {a} {b} e = ground arith

or_throw-runs : (o : Option ℕ) → or_throw o null_pointer ≢ err out_of_fuel
or_throw-runs o e = ground arith

if-runs :
    (b : Bool) (m n : Result Chain)
    → (b ≡ true → m ≢ err out_of_fuel)
    → (b ≡ false → n ≢ err out_of_fuel)
    → (if b then m else n) ≢ err out_of_fuel
if-runs true m n k l = k refl
if-runs false m n k l = l refl

module _ (table : HardforkTable) where
  pub has_hardfork : ℕ → Chain → Bool
  has_hardfork hardfork c = ltb hardfork (length c.hardforks.processed_hardforks)

  pub apply_hardfork : ℕ → Chain → Result Chain
  apply_hardfork hardfork c = do
    let h = c.hardforks
    assert (hardfork == h.last_hardfork + 1)
    assert (length h.processed_hardforks == hardfork)
    time ← or_throw (get_elem? table.times hardfork) null_pointer
    version ← or_throw (get_elem? table.versions hardfork) null_pointer
    ok (record c {
      hardforks = record h {
        processed_hardforks = h.processed_hardforks ++ time ∷ [];
        last_hardfork = hardfork;
        current_hardfork_version = version;
      };
    })

  -- Each round of the loop throws or raises `last_hardfork`.
  pub process_rounds : ℕ → Chain → Result Chain
  unfolding apply_hardfork
  process_rounds zero c = err out_of_fuel
  process_rounds (suc fuel) c = do
    let h = c.hardforks
    version ← or_throw (get_elem? table.versions h.last_hardfork) null_pointer
    if ltb version h.next_hardfork && leb h.next_hardfork_time c.gpo.time
        then (if ltb h.last_hardfork table.num_hardforks
            then (do c' ← apply_hardfork (h.last_hardfork + 1) c; process_rounds fuel c')
            else err unknown_hardfork)
        else ok c

  pub process_hardforks : Chain → Result Chain
  unfolding process_rounds
  process_hardforks c = process_rounds (suc table.num_hardforks) c

  -- One hardfork more than `last_hardfork` was processed, and its version is the current one.
  pub record InOrder (c : Chain) : Type 0 where
    pub processed : length c.hardforks.processed_hardforks ≡ suc c.hardforks.last_hardfork
    pub known : c.hardforks.last_hardfork ≤ table.num_hardforks
    pub current :
        get_elem? table.versions c.hardforks.last_hardfork
        ≡ some c.hardforks.current_hardfork_version

  apply_hardfork-InOrder :
      (c : Chain)
      → InOrder c
      → c.hardforks.last_hardfork < table.num_hardforks
      → Ensures
          (apply_hardfork (c.hardforks.last_hardfork + 1) c)
          (λ c'. InOrder c' × (c'.hardforks.last_hardfork ≡ suc c.hardforks.last_hardfork))
  unfolding apply_hardfork
  apply_hardfork-InOrder c i lt =
      let n = c.hardforks.last_hardfork + 1 in
      after (assert (n == n)) (λ u eu.
        after (assert (length c.hardforks.processed_hardforks == n)) (λ v ev.
          after (or_throw (get_elem? table.times n) null_pointer) (λ time et.
            after (or_throw (get_elem? table.versions n) null_pointer) (λ version es. finally (
              record {
                processed =
                    omega (
                      arith,
                      length-append c.hardforks.processed_hardforks (time ∷ []),
                      i.processed,
                    );
                known = omega arith;
                current = or_throw-ok (get_elem? table.versions n) null_pointer es;
              },
              omega arith,
            )))))

  -- No hardfork is due.
  abbrev pub NoneDue : Chain → Type 0
  NoneDue c =
      (ltb c.hardforks.current_hardfork_version c.hardforks.next_hardfork
        && leb c.hardforks.next_hardfork_time c.gpo.time)
      ≡ false

  process_rounds-InOrder :
      (fuel : ℕ) (c : Chain)
      → InOrder c
      → Ensures (process_rounds fuel c) (λ c'. InOrder c' × NoneDue c')
  unfolding process_rounds
  process_rounds-InOrder zero c i = record { on_ok = λ c' e. cc }
  process_rounds-InOrder (suc fuel) c i =
      let h = c.hardforks in
      after (or_throw (get_elem? table.versions h.last_hardfork) null_pointer) (λ version ev.
        let same : h.current_hardfork_version ≡ version = some-injective (
          sym i.current ∙ or_throw-ok (get_elem? table.versions h.last_hardfork) null_pointer ev) in
        Ensures-if (ltb version h.next_hardfork && leb h.next_hardfork_time c.gpo.time) _ _
          (λ due.
            Ensures-if (ltb h.last_hardfork table.num_hardforks) _ _
              (λ lt. after (apply_hardfork (h.last_hardfork + 1) c) (λ c1 e1.
                process_rounds-InOrder fuel c1
                  ((apply_hardfork-InOrder c i
                      (ltb→lt h.last_hardfork table.num_hardforks lt)).on_ok
                    c1 e1).0))
              (λ ge. record { on_ok = λ c' e. cc }))
          (λ none_due. finally (
            i,
            ap (λ v. ltb v h.next_hardfork && leb h.next_hardfork_time c.gpo.time) same ∙ none_due,
          )))

  apply_hardfork-runs : (n : ℕ) (c : Chain) → apply_hardfork n c ≢ err out_of_fuel
  unfolding apply_hardfork
  apply_hardfork-runs n c e = ground arith

  process_rounds-runs :
      (fuel : ℕ) (c : Chain)
      → InOrder c
      → table.num_hardforks < fuel + c.hardforks.last_hardfork
      → process_rounds fuel c ≢ err out_of_fuel
  unfolding process_rounds
  process_rounds-runs zero c i h = absurd (omega (arith, i.known))
  process_rounds-runs (suc fuel) c i h =
      >>=-ne (or_throw (get_elem? table.versions c.hardforks.last_hardfork) null_pointer) _
        out_of_fuel (or_throw-runs _)
        (λ version ev.
          if-runs
            (ltb version c.hardforks.next_hardfork && leb c.hardforks.next_hardfork_time c.gpo.time)
            _ _
            (λ due.
              if-runs (ltb c.hardforks.last_hardfork table.num_hardforks) _ _
                (λ lt.
                  >>=-ne (apply_hardfork (c.hardforks.last_hardfork + 1) c) _ out_of_fuel
                    (apply_hardfork-runs (c.hardforks.last_hardfork + 1) c)
                    (λ c1 e1.
                      let n = ltb→lt c.hardforks.last_hardfork table.num_hardforks lt in
                      let (i1, up) = (apply_hardfork-InOrder c i n).on_ok c1 e1 in
                      process_rounds-runs fuel c1 i1 (omega arith)))
                (λ ge e. cc))
            (λ none_due e. cc))

  -- Where the processed hardforks are in order, the loop over the due ones ends within a round more
  -- than there are hardforks, and where it returns, they are still in order and none is due.
  pub process_hardforks-NoneDue :
      (c : Chain)
      → InOrder c
      → (process_hardforks c ≢ err out_of_fuel)
        × ((c' : Chain) → process_hardforks c ≡ ok c' → InOrder c' × NoneDue c')
  unfolding process_hardforks
  process_hardforks-NoneDue c i = (
    process_rounds-runs (suc table.num_hardforks) c i (omega arith),
    λ c' e. (process_rounds-InOrder (suc table.num_hardforks) c i).on_ok c' e,
  )
