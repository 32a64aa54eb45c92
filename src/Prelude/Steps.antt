-- ===== src/Prelude/Steps.antt =====
-- Code that changes a state and may throw: what it changed before it threw stays changed.
use mathlib.Core.Path.{◌≡◌, refl}
use mathlib.Core.Bool.{Bool, true, false}
use vidpow.Prelude.Tests.{if◌then◌else◌}
use vidpow.Prelude.Results.{Result, ok, err, Error}

abbrev pub Step {ℓ} : Type 0 → Type ℓ → Type ℓ
Step S A = S → S × Result A

-- The rest of a computation, from what its first part left.
abbrev pub proceed {ℓ κ} :
    {S : Type 0} {X : Type ℓ} {Y : Type κ} → (X → Step S Y) → S × Result X → S × Result Y
proceed next (t, ok x) = next x t
proceed next (t, err e) = (t, err e)

infixl 5 ◌>>=◌ ◌>>◌
abbrev pub ◌>>=◌ {ℓ κ} :
    {S : Type 0} {X : Type ℓ} {Y : Type κ} → Step S X → (X → Step S Y) → Step S Y
(first >>= next) s = proceed next (first s)

abbrev pub ◌>>◌ {κ} : {S : Type 0} {Y : Type κ} → Step S (Unit {0}) → Step S Y → Step S Y
first >> rest = first >>= λ _. rest

abbrev pub return {ℓ} : {S : Type 0} {A : Type ℓ} → A → Step S A
return a s = (s, ok a)

abbrev pub throw {ℓ} : {S : Type 0} {A : Type ℓ} → Error → Step S A
throw e s = (s, err e)

-- The state, and a change of it.
abbrev pub get : {S : Type 0} → Step S S
get s = (s, ok s)

abbrev pub change : {S : Type 0} → (S → S) → Step S (Unit {0})
change f s = (f s, ok tt)

-- A computation that only reads.
abbrev pub lift {ℓ} : {S : Type 0} {A : Type ℓ} → Result A → Step S A
lift r s = (s, r)

-- `try`, and the exception where one is caught.
abbrev pub attempt {ℓ} : {S : Type 0} {A : Type ℓ} → Step S A → Step S (Result A)
attempt m s = let (t, r) = m s in (t, ok r)

-- `try`, with what follows where it returns and where an exception is caught.
abbrev pub resume {ℓ κ} :
    {S : Type 0} {X : Type ℓ} {Y : Type κ}
    → (X → Step S Y)
    → (Error → Step S Y)
    → S × Result X
    → S × Result Y
resume next caught (t, ok x) = next x t
resume next caught (t, err e) = caught e t

abbrev pub handle {ℓ κ} :
    {S : Type 0} {X : Type ℓ} {Y : Type κ}
    → Step S X
    → (X → Step S Y)
    → (Error → Step S Y)
    → Step S Y
handle m next caught s = resume next caught (m s)

-- What holds of a run's end, by how its first part ends.
pub by_end {ℓ κ} :
    {S : Type 0} {X : Type ℓ} {Y : Type κ} (P : S × Result Y → Type 0) (x : S × Result X)
    {next : X → Step S Y}
    → ((t : S) (a : X) → x ≡ (t, ok a) → P (next a t))
    → ((t : S) (e : Error) → x ≡ (t, err e) → P (t, err e))
    → P (proceed next x)
by_end P (t, ok a) k l = k t a refl
by_end P (t, err e) k l = l t e refl

-- The same for a first part that only reads the state `s`.
abbrev pub with_value {ℓ κ} :
    {S : Type 0} {X : Type ℓ} {Y : Type κ} → S → (X → S × Result Y) → Result X → S × Result Y
with_value s k (ok a) = k a
with_value s k (err e) = (s, err e)

pub by_value {ℓ κ} :
    {S : Type 0} {X : Type ℓ} {Y : Type κ} (P : S × Result Y → Type 0) {s : S} (r : Result X)
    {next : X → S × Result Y}
    → ((a : X) → r ≡ ok a → P (next a))
    → ((e : Error) → r ≡ err e → P (s, err e))
    → P (with_value s next r)
by_value P (ok a) k l = k a refl
by_value P (err e) k l = l e refl

-- The same for a first part whose end state is known to have `I`.
pub by_kept {ℓ κ} :
    {S : Type 0} {X : Type ℓ} {Y : Type κ} (I : S → Type 0) (P : S × Result Y → Type 0)
    (x : S × Result X) {next : X → Step S Y}
    → I x.0
    → ((t : S) (a : X) → I t → P (next a t))
    → ((t : S) (e : Error) → I t → P (t, err e))
    → P (proceed next x)
by_kept I P (t, ok a) i k l = k t a i
by_kept I P (t, err e) i k l = l t e i

pub by_handled {ℓ κ} :
    {S : Type 0} {X : Type ℓ} {Y : Type κ} (I : S → Type 0) (P : S × Result Y → Type 0)
    (x : S × Result X) {next : X → Step S Y} {caught : Error → Step S Y}
    → I x.0
    → ((t : S) (a : X) → x ≡ (t, ok a) → I t → P (next a t))
    → ((t : S) (e : Error) → x ≡ (t, err e) → I t → P (caught e t))
    → P (resume next caught x)
by_handled I P (t, ok a) i k l = k t a refl i
by_handled I P (t, err e) i k l = l t e refl i

pub by_test {ℓ} :
    {S : Type 0} {A : Type ℓ} (P : S × Result A → Type 0) (b : Bool) (m n : Step S A) {s : S}
    → (b ≡ true → P (m s))
    → (b ≡ false → P (n s))
    → P ((if b then m else n) s)
by_test P true m n k l = k refl
by_test P false m n k l = l refl
