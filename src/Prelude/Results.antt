-- ===== src/Prelude/Results.antt =====
-- Exceptions as values: the `FC_ASSERT`s and the named exceptions that the modelled code throws.
use mathlib.Core.Path.{◌≡◌, refl, subst}
use mathlib.Core.Logic.{◌≢◌, ◌⊎◌, inl, inr}
use mathlib.Core.Bool.{Bool, true, false}
use mathlib.Core.Option.{Option, none, some}
use native.Mathlib.Omega.{arith}
use vidpow.Prelude.Tests.{if◌then◌else◌}

-- `assertion` is a failed `FC_ASSERT`, `unknown_object` a failed lookup of `database::get`,
-- `null_pointer` stands for undefined behaviour at a null pointer or at one to a dead object, and
-- `out_of_fuel` is no behaviour of the code: a loop of the model that used up its bound.
pub data Error : Type 0 where
  null_pointer out_of_fuel : Error
  assertion unknown_object unlinkable_block unknown_hardfork : Error
  tx_missing_active_auth tx_missing_owner_auth tx_missing_posting_auth : Error
  tx_missing_other_auth tx_irrelevant_sig tx_duplicate_sig : Error
  pop_empty_chain undo_database transaction_tapos transaction_expiration : Error

pub data Result {ℓ} (A : Type ℓ) : Type ℓ where
  ok : A → Result A
  err : Error → Result A

infixl 5 ◌>>=◌ ◌>>◌
abbrev pub ◌>>=◌ {ℓ κ} : {X : Type ℓ} {Y : Type κ} → Result X → (X → Result Y) → Result Y
err thrown >>= next = err thrown
ok value >>= next = next value

-- A statement, then the rest.
abbrev pub ◌>>◌ {κ} : {Y : Type κ} → Result (Unit {0}) → Result Y → Result Y
first >> rest = first >>= λ _. rest

-- `FC_ASSERT( b )`, and `WLS_ASSERT( b, e )`.
abbrev pub assert_or : Bool → Error → Result (Unit {0})
assert_or true e = ok tt
assert_or false e = err e

abbrev pub assert : Bool → Result (Unit {0})
assert b = assert_or b assertion

-- A pointer or an iterator that must be there.
abbrev pub or_throw {ℓ} : {A : Type ℓ} → Option A → Error → Result A
or_throw none e = err e
or_throw (some a) e = ok a

pub Result-cases {ℓ} :
    {A : Type ℓ} (r : Result A) → ((a : A) × (r ≡ ok a)) ⊎ ((e : Error) × (r ≡ err e))
Result-cases (ok a) = inl (a, refl)
Result-cases (err e) = inr (e, refl)

-- A chain that returns has a first step that returns, and goes on from what it returned.
pub >>=-eq-ok {ℓ κ} :
    {X : Type ℓ} {Y : Type κ} (step : Result X) (next : X → Result Y) {b : Y}
    → (step >>= next) ≡ ok b
    → (x : X) × (step ≡ ok x) × (next x ≡ ok b)
>>=-eq-ok (err thrown) next returns = cc
>>=-eq-ok (ok value) next returns = (value, refl, returns)

pub ok-injective {ℓ} : {A : Type ℓ} {a b : A} → ok a ≡ ok b → a ≡ b
ok-injective {a} {b} e = ground arith

pub or_throw-ok {ℓ} :
    {A : Type ℓ} (o : Option A) (e : Error) {a : A} → or_throw o e ≡ ok a → o ≡ some a
or_throw-ok none e h = cc
or_throw-ok (some a) e h = cc

-- A chain does not end in an error that none of its steps ends in.
pub >>=-ne {ℓ κ} :
    {A : Type ℓ} {B : Type κ} (m : Result A) (f : A → Result B) (e : Error)
    → m ≢ err e
    → ((a : A) → m ≡ ok a → f a ≢ err e)
    → (m >>= f) ≢ err e
>>=-ne (ok a) f e h k = k a refl
>>=-ne {A} {B} (err e') f e h k = λ q. h (cc q)

pub asserted {ℓ} :
    {A : Type ℓ} (b : Bool) (m : Result A) {x : A} → (assert b >> m) ≡ ok x → m ≡ ok x
asserted true m e = e
asserted false m e = cc

-- What holds of the result of a computation that succeeds, by its steps.
pub record Ensures {ℓ} {A : Type ℓ} (m : Result A) (P : A → Type 0) : Type ℓ where
  pub on_ok : (x : A) → m ≡ ok x → P x

pub after {ℓ κ} :
    {A : Type ℓ} {B : Type κ} (m : Result A) {f : A → Result B} {P : B → Type 0}
    → ((x : A) → m ≡ ok x → Ensures (f x) P)
    → Ensures (m >>= f) P
after m {f} {P} k = record { on_ok = λ y e. let (x, ex, q) = >>=-eq-ok m f e in (k x ex).on_ok y q }

pub finally {ℓ} : {A : Type ℓ} {x : A} {P : A → Type 0} → P x → Ensures (ok x) P
finally {x} {P} p = record { on_ok = λ y e. subst P (ok-injective e) p }

pub assert-true : (b : Bool) {u : Unit {0}} → assert b ≡ ok u → b ≡ true
assert-true true e = refl
assert-true false e = cc

pub Ensures-if {ℓ} :
    {A : Type ℓ} {P : A → Type 0} (b : Bool) (m n : Result A)
    → (b ≡ true → Ensures m P)
    → (b ≡ false → Ensures n P)
    → Ensures (if b then m else n) P
Ensures-if true m n k l = k refl
Ensures-if false m n k l = l refl
