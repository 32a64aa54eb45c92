-- ===== src/Protocol/SignState/Soundness.antt =====
-- sign_state.cpp: an inductive description of a satisfied authority, against the check.
use vidpow.Prelude.{
  ℕ, zero, suc, ◌+◌, ◌^◌, ◌≤◌, ◌<◌, ◌≡◌, refl, subst, ◌≢◌, inl, inr, Bool, true, Option, none, some,
  List, [], ◌∷◌, leb, ◌==◌, ◌||◌, if◌then◌else◌, arith, Bool-cases,
}
use vidpow.Prelude.{Result, ok, Result-cases}
use vidpow.Protocol.Authority.{
  Authority, FlatMap, is_impossible, add_weights, total_weight, add_weights-total_weight,
}
use vidpow.Protocol.SignState.{
  SignState, M, >>=-ok, enough, member, has_key, mark, approve, is_approved, add_weight, signed_by,
  check_keys, check_accounts, check_authority,
}

module _ (get_active : ℕ → Result Authority) (available_keys : List ℕ) (start : SignState) where
  -- A key counts if there is a signature for it, or if one can be made.
  abbrev pub signs : ℕ → Bool
  signs k = has_key k start.provided_signatures || member k available_keys

  abbrev pub key_weight : FlatMap → ℕ
  key_weight [] = 0
  key_weight ((k, w) ∷ m) = if signs k then w + key_weight m else key_weight m

  mutual
    -- A name is approved from the start, or by an active authority that is satisfied.
    pub data Approved : ℕ → Type 0 where
      listed : (n : ℕ) → member n start.approved_by ≡ true → Approved n
      by_authority : (n : ℕ) (a : Authority) → get_active n ≡ ok a → Satisfied a → Approved n

    -- The weights of its keys that sign and of some approved names reach the threshold.
    pub data Satisfied : Authority → Type 0 where
      reached :
          (a : Authority) (w : ℕ)
          → Backed a.account_auths w
          → a.weight_threshold ≤ key_weight a.key_auths + w
          → Satisfied a

    -- `w` is the weight of some of the names, each of them approved.
    pub data Backed : FlatMap → ℕ → Type 0 where
      done : Backed [] 0
      skip : (e : ℕ × ℕ) {m : FlatMap} {w : ℕ} → Backed m w → Backed (e ∷ m) w
      take :
          (e : ℕ × ℕ) {m : FlatMap} {w : ℕ} → Approved e.0 → Backed m w → Backed (e ∷ m) (e.1 + w)

  -- What holds throughout a check: names are approved for a reason, and keys are marked that sign.
  pub record IsSound (s : SignState) : Type 0 where
    pub approved : (n : ℕ) → member n s.approved_by ≡ true → Approved n
    pub marked : (k : ℕ) → has_key k s.provided_signatures || member k available_keys ≡ signs k

  -- A check that keeps what holds, and that passes only if `P`.
  abbrev pub Sound : Type 0 → M Bool → Type 0
  Sound P m =
      (s : SignState) (b : Bool) (s' : SignState)
      → IsSound s
      → m s ≡ ok (b, s')
      → IsSound s' × (b ≡ true → P)

  has_key-mark : (k j : ℕ) (m : List (ℕ × Bool)) → has_key k (mark j m) ≡ (j == k) || has_key k m
  unfolding mark
  has_key-mark k j [] = ground arith
  has_key-mark k j ((i, b) ∷ m) = ground (arith, has_key-mark k j m)

  signed_by-signs :
      (k : ℕ) (s : SignState) (b : Bool) (s' : SignState)
      → IsSound s
      → signed_by get_active available_keys k s ≡ ok (b, s')
      → IsSound s' × (b ≡ signs k)
  unfolding signed_by
  signed_by-signs k s b s' v e =
      elim (Bool-cases (has_key k s.provided_signatures || member k available_keys)) [
        | inl t ↦ (
          record {
            approved = λ n m. v.approved n (ground arith);
            marked =
                λ j. ground (arith, has_key-mark j k s.provided_signatures, v.marked j, v.marked k);
          },
          ground (arith, v.marked k),
        )
        | inr f ↦ (subst IsSound (ground arith) v, ground (arith, v.marked k))
      ]

  Backed-zero : (m : FlatMap) → Backed m 0
  Backed-zero [] = done
  Backed-zero (e ∷ m) = skip e (Backed-zero m)

  check_enough-Sound :
      {P : Type 0} (threshold total : ℕ) (m : M Bool)
      → (threshold ≤ total → P)
      → Sound P m
      → Sound P (enough threshold total m)
  check_enough-Sound threshold total m now rest s b s' v e =
      elim (Bool-cases (leb threshold total)) [
        | inl t ↦ (subst IsSound (ground arith) v, λ h. now (ground arith))
        | inr f ↦ rest s b s' v (ground arith)
      ]

  check_keys-Sound :
      {P : Type 0} (threshold : ℕ) (m : FlatMap) (total : ℕ) (k : ℕ → M Bool)
      → (threshold ≤ total + key_weight m → P)
      → ((t : ℕ) → t ≤ total + key_weight m → Sound P (k t))
      → Sound P (check_keys get_active available_keys threshold m total k)
  unfolding check_keys
  check_keys-Sound threshold [] total k now rest s b s' v e = rest total (omega arith) s b s' v e
  check_keys-Sound {P} threshold ((key, w) ∷ m) total k now rest s b s' v e =
      let (c, s1, p, q) = >>=-ok (signed_by get_active available_keys key) _ s {r = (b, s')} e in
      let (v1, c_eq) = signed_by-signs key s c s1 v p in
      elim (Bool-cases c) [
        | inr f ↦
            check_keys-Sound threshold m total k (λ h. now (ground (arith, c_eq)))
              (λ t h. rest t (ground (arith, c_eq))) s1 b s' v1 (ground (arith, q))
        | inl t ↦
            check_enough-Sound threshold (add_weight total w)
              (check_keys get_active available_keys threshold m (add_weight total w) k)
              (λ h. now (ground (arith, c_eq)))
              (check_keys-Sound threshold m (add_weight total w) k (λ h. now (ground (arith, c_eq)))
                (λ u h. rest u (ground (arith, c_eq))))
              s1 b s' v1 (ground (arith, q))
      ]

  abbrev Deeper : Option (Authority → M Bool) → Type 0
  Deeper none = Unit {0}
  Deeper (some check) = (a : Authority) → Sound (Satisfied a) (check a)

  -- Some of the names that are left bring the total to the threshold.
  abbrev Reaches : ℕ → ℕ → FlatMap → Type 0
  Reaches threshold total m = (w : ℕ) × Backed m w × (threshold ≤ total + w)

  Reaches-skip :
      (threshold total : ℕ) (e : ℕ × ℕ) {m : FlatMap}
      → Reaches threshold total m
      → Reaches threshold total (e ∷ m)
  Reaches-skip threshold total e (w, b, h) = (w, skip e b, h)

  Reaches-take :
      (threshold total : ℕ) (e : ℕ × ℕ) {m : FlatMap}
      → Approved e.0
      → Reaches threshold (add_weight total e.1) m
      → Reaches threshold total (e ∷ m)
  Reaches-take threshold total e a (w, b, h) = (e.1 + w, take e a b, omega arith)

  Reaches-now : (threshold total : ℕ) (m : FlatMap) → threshold ≤ total → Reaches threshold total m
  Reaches-now threshold total m h = (0, Backed-zero m, omega arith)

  pub Sound-weaken : {P Q : Type 0} (m : M Bool) → (P → Q) → Sound P m → Sound Q m
  Sound-weaken m f h s b s' v e = let (v', p) = h s b s' v e in (v', λ t. f (p t))

  pub approve-IsSound :
      (n : ℕ) (s : SignState)
      → Approved n
      → IsSound s
      → IsSound (record s { approved_by = n ∷ s.approved_by })
  approve-IsSound n s a v = record {
    approved = λ k m. elim (Bool-cases (n == k)) [
      | inl t ↦ let q : n ≡ k = ground arith in subst Approved q a
      | inr f ↦ v.approved k (ground arith)
    ];
    marked = v.marked;
  }

  -- One more approved name.
  taken-Sound :
      (deeper : Option (Authority → M Bool)) (threshold total : ℕ) (e : ℕ × ℕ) (m : FlatMap)
      → Approved e.0
      → Sound
          (Reaches threshold (add_weight total e.1) m)
          (check_accounts get_active available_keys deeper threshold m (add_weight total e.1))
      → Sound (Reaches threshold total (e ∷ m)) (
          enough threshold
            (add_weight total e.1)
            (check_accounts get_active available_keys deeper threshold m (add_weight total e.1)))
  taken-Sound deeper threshold total e m a h =
      check_enough-Sound threshold (add_weight total e.1) _
        (λ l. Reaches-take threshold total e a (Reaches-now threshold (add_weight total e.1) m l))
        (Sound-weaken _ (Reaches-take threshold total e a) h)

  check_accounts-Sound :
      (deeper : Option (Authority → M Bool)) (threshold : ℕ) (m : FlatMap) (total : ℕ)
      → Deeper deeper
      → Sound
          (Reaches threshold total m)
          (check_accounts get_active available_keys deeper threshold m total)
  unfolding check_accounts is_approved approve
  check_accounts-Sound deeper threshold [] total d s b s' v e =
      (subst IsSound (ground arith) v, λ t. (0, done, ground arith))
  check_accounts-Sound none threshold ((name, w) ∷ m) total d s b s' v e =
      elim (Bool-cases (member name s.approved_by)) [
        | inl t ↦
            taken-Sound none threshold total (name, w) m (v.approved name t)
              (check_accounts-Sound none threshold m (add_weight total w) d) s b s' v (ground arith)
        | inr f ↦
            Sound-weaken _ (Reaches-skip threshold total (name, w))
              (check_accounts-Sound none threshold m total d) s b s' v (ground arith)
      ]
  check_accounts-Sound (some check) threshold ((name, w) ∷ m) total d s b s' v e =
      elim (Bool-cases (member name s.approved_by)) [
        | inl t ↦
            taken-Sound (some check) threshold total (name, w) m (v.approved name t)
              (check_accounts-Sound (some check) threshold m (add_weight total w) d) s b s' v
              (ground arith)
        | inr f ↦ elim (Result-cases (get_active name)) [
          | inr (er, g) ↦ absurd (ground arith)
          | inl (a, g) ↦ elim (Result-cases (check a s)) [
            | inr (er, k) ↦ absurd (ground arith)
            | inl (r, k) ↦
                let (v1, sat) = d a s r.0 r.1 v (ground arith) in
                elim (Bool-cases r.0) [
                  | inr f1 ↦
                      Sound-weaken _ (Reaches-skip threshold total (name, w))
                        (check_accounts-Sound (some check) threshold m total d) r.1 b s' v1
                        (ground arith)
                  | inl t1 ↦
                      let by = by_authority name a g (sat t1) in
                      taken-Sound (some check) threshold total (name, w) m by
                        (check_accounts-Sound (some check) threshold m (add_weight total w) d)
                        (record r.1 { approved_by = name ∷ r.1.approved_by }) b s'
                        (approve-IsSound name r.1 by v1) (ground arith)
                ]
          ]
        ]
      ]

  authority-Sound :
      (deeper : Option (Authority → M Bool)) (a : Authority)
      → Deeper deeper
      → Sound (Satisfied a) (
          check_keys get_active available_keys a.weight_threshold a.key_auths 0
            (check_accounts get_active available_keys deeper a.weight_threshold a.account_auths))
  authority-Sound deeper a d =
      check_keys-Sound a.weight_threshold a.key_auths 0 _
        (λ h. reached a 0 (Backed-zero a.account_auths) (omega arith))
        (λ t h.
          Sound-weaken _ (λ (w, b, r). reached a w b (omega arith))
            (check_accounts-Sound deeper a.weight_threshold a.account_auths t d))

  -- Whatever the number of levels, an authority that passes is satisfied, and a name is approved by
  -- the way only if there is a reason for it.
  pub check_authority-Sound :
      (left : ℕ) (a : Authority)
      → Sound (Satisfied a) (check_authority get_active available_keys left a)
  unfolding check_authority
  check_authority-Sound zero a = authority-Sound none a tt
  check_authority-Sound (suc left) a =
      authority-Sound (some (check_authority get_active available_keys left)) a
        (check_authority-Sound left)

  pub start-IsSound : IsSound start
  start-IsSound = record { approved = λ n m. listed n m; marked = λ k. refl }

  -- An authority that `check_authority` passes, at whatever number of rounds left, is satisfied:
  -- the weights of its keys that sign and of names of it that are approved reach its threshold,
  -- where a name is approved from the start or by its active authority, which is satisfied in the
  -- same sense.
  pub check_authority-Satisfied :
      (left : ℕ) (a : Authority) (s' : SignState)
      → check_authority get_active available_keys left a start ≡ ok (true, s')
      → Satisfied a
  check_authority-Satisfied left a s' e =
      (check_authority-Sound left a start true s' start-IsSound e).1 refl

  -- The weights of the keys that sign are among all the weights.
  pub key_weight-le : (m : FlatMap) → key_weight m ≤ total_weight m
  key_weight-le [] = omega arith
  key_weight-le ((k, w) ∷ m) = ground (arith, key_weight-le m)

  pub Backed-le : {m : FlatMap} {w : ℕ} → Backed m w → w ≤ total_weight m
  Backed-le done = omega arith
  Backed-le (skip e b) = omega (arith, Backed-le b)
  Backed-le (take e a b) = omega (arith, Backed-le b)

  -- An authority that `is_impossible` finds impossible passes no check, if its weights do not wrap
  -- around in 64 bits.
  pub is_impossible-fails :
      (left : ℕ) (a : Authority) (s' : SignState)
      → total_weight a.account_auths + total_weight a.key_auths < 2 ^ 64
      → is_impossible a ≡ true
      → check_authority get_active available_keys left a start ≢ ok (true, s')
  unfolding is_impossible
  is_impossible-fails left a s' h i e =
      elim ((check_authority-Sound left a start true s' start-IsSound e).1 refl) [
        | reached _ w b r ↦ ground (
          arith,
          add_weights-total_weight 0 a.account_auths,
          add_weights-total_weight (add_weights 0 a.account_auths) a.key_auths,
          key_weight-le a.key_auths,
          Backed-le b,
        )
      ]
