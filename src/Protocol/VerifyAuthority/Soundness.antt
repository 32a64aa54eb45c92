-- ===== src/Protocol/VerifyAuthority/Soundness.antt =====
-- transaction.cpp: what a transaction that `verify_authority` accepts has.
use vidpow.Prelude.{
  ℕ, ◌≡◌, refl, subst, ◌≢◌, ◌⊎◌, inl, inr, Bool, true, false, List, [], ◌∷◌, arith, All, Bool-cases,
}
use vidpow.Prelude.{
  ok, Error, assertion, tx_missing_active_auth, tx_missing_owner_auth, tx_missing_posting_auth,
  tx_missing_other_auth, Result-cases,
}
use vidpow.Protocol.Authority.{Authority}
use vidpow.Protocol.SignState.{
  SignState, M, ◌>>=◌, ◌>>◌, >>=-ok, pure, lift, require, or_else, member, has_key, unused,
  drop_unused, is_approved, check_authority, check_name, remove_unused_signatures, init_state,
}
use vidpow.Protocol.SignState.Soundness.{
  Approved, by_authority, Satisfied, IsSound, Sound, check_authority-Sound, start-IsSound,
}
use vidpow.Protocol.VerifyAuthority.{
  Required, Approvals, require_each, with_approvals, no_unused, Getter, is_empty, posting_passes,
  active_passes, owner_passes, verify_posting, verify_other, verify_authority,
}

module _ (getter : Getter) (start : SignState) where
  -- The authority that another getter gives for a name is satisfied.
  abbrev pub SatisfiedBy : Getter → ℕ → Type 0
  SatisfiedBy get id = (a : Authority) × (get id ≡ ok a) × Satisfied getter [] start a

  check_name-Sound :
      (levels id : ℕ)
      → Sound getter [] start (Approved getter [] start id) (check_name getter [] levels id)
  unfolding check_name is_approved
  check_name-Sound levels id s b s' v e = elim (Bool-cases (member id s.approved_by)) [
    | inl t ↦ (subst (IsSound getter [] start) (ground arith) v, λ _. v.approved id t)
    | inr f ↦ elim (Result-cases (getter id)) [
      | inr (er, g) ↦ absurd (ground arith)
      | inl (a, g) ↦
          let (v', p) = check_authority-Sound getter [] start levels a s b s' v (ground arith) in
          (v', λ t. by_authority id a g (p t))
    ]
  ]

  get-Sound :
      (get : Getter) (levels id : ℕ)
      → Sound getter [] start
          (SatisfiedBy get id)
          (lift (get id) >>= check_authority getter [] levels)
  get-Sound get levels id s b s' v e = elim (Result-cases (get id)) [
    | inr (er, g) ↦ absurd (ground arith)
    | inl (a, g) ↦
        let (v', p) = check_authority-Sound getter [] start levels a s b s' v (ground arith) in
        (v', λ t. (a, g, p t))
  ]

  or_else-Sound :
      {P Q : Type 0} (m k : M Bool)
      → Sound getter [] start P m
      → Sound getter [] start Q k
      → Sound getter [] start (P ⊎ Q) (or_else m k)
  or_else-Sound m k hm hk s b s' v e = elim (Result-cases (m s)) [
    | inr (er, q) ↦ absurd (ground arith)
    | inl (r, q) ↦
        let (v1, p) = hm s r.0 r.1 v (ground arith) in
        elim (Bool-cases r.0) [
          | inl t ↦ (subst (IsSound getter [] start) (ground arith) v1, λ _. inl (p t))
          | inr f ↦ let (v2, q2) = hk r.1 b s' v1 (ground arith) in (v2, λ t. inr (q2 t))
        ]
  ]

  require_each-All :
      {A : Type 0} {P : A → Type 0} (check : A → M Bool) (er : Error) (xs : List A)
      → ((x : A) → Sound getter [] start (P x) (check x))
      → (s : SignState) (u : Unit {0}) (s' : SignState) → IsSound getter [] start s
      → require_each check er xs s ≡ ok (u, s')
      → IsSound getter [] start s' × All P xs
  unfolding require_each
  require_each-All check er [] h s u s' v e = (subst (IsSound getter [] start) (ground arith) v, tt)
  require_each-All {P = P} check er (x ∷ xs) h s u s' v e = elim (Result-cases (check x s)) [
    | inr (er', q) ↦ absurd (ground arith)
    | inl (r, q) ↦
        let (v1, p) = h x s r.0 r.1 v (ground arith) in
        elim (Bool-cases r.0) [
          | inr f ↦ absurd (ground arith)
          | inl t ↦
              let (v2, rest) = require_each-All {P = P} check er xs h r.1 u s' v1 (ground arith) in
              (v2, (p t, rest))
        ]
  ]

  abbrev pub AllUsed : SignState → Type 0
  AllUsed s = All (λ (e : ℕ × Bool). e.1 ≡ true) s.provided_signatures

  drop_unused-keeps :
      (k : ℕ) (m : List (ℕ × Bool)) → unused m ≡ false → has_key k (drop_unused m) ≡ has_key k m
  drop_unused-keeps k [] h = refl
  drop_unused-keeps k ((j, b) ∷ m) h = ground (arith, drop_unused-keeps k m)

  drop_unused-All : (m : List (ℕ × Bool)) → All (λ (e : ℕ × Bool). e.1 ≡ true) (drop_unused m)
  drop_unused-All [] = tt
  drop_unused-All ((j, b) ∷ m) = elim (Bool-cases b) [
    | inl t ↦ rw t (refl, drop_unused-All m)
    | inr f ↦ rw f (drop_unused-All m)
  ]

  -- After the last assertion every signature is there still, and is marked as used.
  abbrev pub SignaturesUsed : SignState → Type 0
  SignaturesUsed s =
      AllUsed s
      × ((k : ℕ)
          → has_key k start.provided_signatures ≡ true
          → has_key k s.provided_signatures ≡ true)

  no_unused-SignaturesUsed :
      (s : SignState) (u : Unit {0}) (s' : SignState)
      → IsSound getter [] start s
      → no_unused s ≡ ok (u, s')
      → SignaturesUsed s'
  unfolding no_unused remove_unused_signatures
  no_unused-SignaturesUsed s u s' v e = elim (Bool-cases (unused s.provided_signatures)) [
    | inl t ↦ absurd (ground arith)
    | inr f ↦
        let q : record s { provided_signatures = drop_unused s.provided_signatures } ≡ s' =
          ground arith in
        subst SignaturesUsed q (
          drop_unused-All s.provided_signatures,
          λ k h. ground (arith, drop_unused-keeps k s.provided_signatures f, v.marked k),
        )
  ]

is_empty-nil : {A : Type 0} (xs : List A) → is_empty xs ≡ true → xs ≡ []
is_empty-nil [] e = refl
is_empty-nil (x ∷ xs) e = cc

require-ok :
    {A : Type 0} (b : Bool) (er : Error) (k : M A) (s : SignState) {r : A × SignState}
    → (require b er >> k) s ≡ ok r
    → (b ≡ true) × (k s ≡ ok r)
require-ok true er k s e = (refl, e)
require-ok false er k s e = cc

module _ (get_active get_owner get_posting : Getter) (levels : ℕ) where
  abbrev pub PostingOk : SignState → ℕ → Type 0
  PostingOk start id =
      Approved get_posting [] start id
      ⊎ (SatisfiedBy get_posting start get_active id ⊎ SatisfiedBy get_posting start get_owner id)

  abbrev pub ActiveOk : SignState → ℕ → Type 0
  ActiveOk start id = Approved get_active [] start id ⊎ SatisfiedBy get_active start get_owner id

  abbrev pub OwnerOk : SignState → List ℕ → ℕ → Type 0
  OwnerOk start given id = (member id given ≡ true) ⊎ SatisfiedBy get_active start get_owner id

  posting_passes-Sound :
      (start : SignState) (id : ℕ)
      → Sound get_posting [] start
          (PostingOk start id)
          (posting_passes get_active get_owner get_posting levels id)
  unfolding posting_passes
  posting_passes-Sound start id =
      or_else-Sound get_posting start _ _ (check_name-Sound get_posting start levels id) (
        or_else-Sound get_posting start _ _ (get-Sound get_posting start get_active levels id)
          (get-Sound get_posting start get_owner levels id))

  active_passes-Sound :
      (start : SignState) (id : ℕ)
      → Sound get_active [] start
          (ActiveOk start id)
          (active_passes get_active get_owner get_posting levels id)
  unfolding active_passes
  active_passes-Sound start id =
      or_else-Sound get_active start _ _ (check_name-Sound get_active start levels id)
        (get-Sound get_active start get_owner levels id)

  owner_passes-Sound :
      (start : SignState) (given : List ℕ) (id : ℕ)
      → Sound get_active [] start
          (OwnerOk start given id)
          (owner_passes get_active get_owner get_posting levels given id)
  unfolding owner_passes
  owner_passes-Sound start given id =
      or_else-Sound get_active start {P = member id given ≡ true} (pure (member id given)) _
        (λ s b s' v e. (subst (IsSound get_active [] start) (ground arith) v, λ t. ground arith))
        (get-Sound get_active start get_owner levels id)

  -- What a transaction with posting authority has, once it is accepted.
  pub record PostingVerified (start : SignState) (r : Required) (s' : SignState) : Type 0 where
    pub no_active : r.active ≡ []
    pub no_owner : r.owner ≡ []
    pub no_other : r.other ≡ []
    pub posting : All (PostingOk start) r.posting
    pub used : SignaturesUsed get_posting start s'

  verify_posting-Verified :
      (r : Required) (start s' : SignState) {u : Unit {0}}
      → verify_posting get_active get_owner get_posting levels r start ≡ ok (u, s')
      → PostingVerified start r s'
  unfolding verify_posting
  verify_posting-Verified r start s' {u} e =
      let (a, e1) = require-ok (is_empty r.active) assertion _ start {r = (u, s')} e in
      let (o, e2) = require-ok (is_empty r.owner) assertion _ start {r = (u, s')} e1 in
      let (x, e3) = require-ok (is_empty r.other) assertion _ start {r = (u, s')} e2 in
      let (w, s4, p4, e4) =
        >>=-ok
          (require_each (posting_passes get_active get_owner get_posting levels)
            tx_missing_posting_auth r.posting)
          (λ _. no_unused) start {r = (u, s')} e3 in
      let (v, all) =
        require_each-All get_posting start {P = PostingOk start} _ tx_missing_posting_auth r.posting
          (posting_passes-Sound start) start w s4 (start-IsSound get_posting [] start) p4 in
      record {
        no_active = is_empty-nil r.active a;
        no_owner = is_empty-nil r.owner o;
        no_other = is_empty-nil r.other x;
        posting = all;
        used = no_unused-SignaturesUsed get_posting start s4 u s' v e4;
      }

  -- What any other transaction has, once it is accepted.
  pub record OtherVerified (start : SignState) (owner_approvals : List ℕ) (r : Required)
      (s' : SignState) : Type 0 where
    pub other : All (Satisfied get_active [] start) r.other
    pub active : All (ActiveOk start) r.active
    pub owner : All (OwnerOk start owner_approvals) r.owner
    pub used : SignaturesUsed get_active start s'

  verify_other-Verified :
      (owner_approvals : List ℕ) (r : Required) (start s' : SignState) {u : Unit {0}}
      → verify_other get_active get_owner get_posting levels owner_approvals r start ≡ ok (u, s')
      → OtherVerified start owner_approvals r s'
  unfolding verify_other
  verify_other-Verified given r start s' {u} e =
      let (w1, s1, p1, e1) =
        >>=-ok (require_each (check_authority get_active [] levels) tx_missing_other_auth r.other) _
          start {r = (u, s')} e in
      let (w2, s2, p2, e2) =
        >>=-ok
          (require_each (active_passes get_active get_owner get_posting levels)
            tx_missing_active_auth r.active)
          _ s1 {r = (u, s')} e1 in
      let (w3, s3, p3, e3) =
        >>=-ok
          (require_each (owner_passes get_active get_owner get_posting levels given)
            tx_missing_owner_auth r.owner)
          (λ _. no_unused) s2 {r = (u, s')} e2 in
      let (v1, other) =
        require_each-All get_active start {P = Satisfied get_active [] start} _
          tx_missing_other_auth r.other (check_authority-Sound get_active [] start levels) start w1
          s1 (start-IsSound get_active [] start) p1 in
      let (v2, active) =
        require_each-All get_active start {P = ActiveOk start} _ tx_missing_active_auth r.active
          (active_passes-Sound start) s1 w2 s2 v1 p2 in
      let (v3, owner) =
        require_each-All get_active start {P = OwnerOk start given} _ tx_missing_owner_auth r.owner
          (owner_passes-Sound start given) s2 w3 s3 v2 p3 in
      record {
        other = other;
        active = active;
        owner = owner;
        used = no_unused-SignaturesUsed get_active start s3 u s' v3 e3;
      }

  abbrev pub posting_start : List ℕ → Approvals → SignState
  posting_start sigs given = with_approvals given.posting (init_state sigs)

  abbrev pub other_start : List ℕ → Approvals → SignState
  other_start sigs given =
      with_approvals given.owner (with_approvals given.active (init_state sigs))

  -- A transaction that `verify_authority` accepts either needs posting authority, then nothing
  -- else, and each of its names has posting, active or owner authority; or it needs none, and has
  -- every other authority it requires. In both cases every signature that was provided is marked as
  -- used at the end.
  pub verify_authority-Verified :
      (r : Required) (sigs : List ℕ) (given : Approvals) {u : Unit {0}} {s' : SignState}
      → verify_authority get_active get_owner get_posting levels r sigs given ≡ ok (u, s')
      → ((r.posting ≢ []) × PostingVerified (posting_start sigs given) r s')
        ⊎ ((r.posting ≡ []) × OtherVerified (other_start sigs given) given.owner r s')
  unfolding verify_authority
  verify_authority-Verified r sigs given {u} {s'} e = elim (Bool-cases (is_empty r.posting)) [
    | inl t ↦ inr (
      is_empty-nil r.posting t,
      verify_other-Verified given.owner r (other_start sigs given) s' {u = u} (ground arith),
    )
    | inr f ↦ inl (
      λ q. ground (arith, q),
      verify_posting-Verified r (posting_start sigs given) s' {u = u} (ground arith),
    )
  ]
