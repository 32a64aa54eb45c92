-- ===== src/Chain/ForkDatabase/Reaches.antt =====
-- fork_database.cpp: which items each operation can reach.
use vidpow.Prelude.{
  ℕ, zero, suc, ◌≡◌, refl, ◌∙◌, ◌⊎◌, inl, inr, some, List, [], ◌∷◌, ◌==◌, ltb, arith, In, find,
  find-In, In-append, length, Option-cases, Bool-cases,
}
use vidpow.Chain.ForkDatabase.{
  ForkItem, ForkDb, find_id, insert, find_address, lock, least, erase, trim,
}
use vidpow.Chain.ForkDatabase.Invariant.{Live}

pub insert-In :
    (item x : ForkItem) (xs : List ForkItem) → In x (insert item xs) → (x ≡ item) ⊎ In x xs
unfolding insert find_id
insert-In item x xs m = elim (Option-cases (find (λ y. y.id == item.id) xs)) [
  | inl e ↦ In-append x item xs (rw (e, insert, find_id) at m)
  | inr (y, e) ↦ inr (rw (e, insert, find_id) at m)
]

find_address-Live :
    (db : ForkDb) (p : ℕ) {x : ForkItem} → find_address p db ≡ some x → Live db x × (x.address ≡ p)
unfolding find_address
find_address-Live db p {x} e = elim (Option-cases (find (λ y. y.address == p) db.index)) [
  | inl e' ↦ ground arith
  | inr (y, e') ↦
      let f = find-In (λ (z : ForkItem). z.address == p) db.index e' in ground (arith, f)
]

-- What a locked `weak_ptr` points to is alive, and is the item that was stored.
pub lock-Live :
    (db : ForkDb) (x : ForkItem) {y : ForkItem}
    → lock db x ≡ some y
    → Live db y × (x.prev ≡ some y.address)
unfolding lock
lock-Live db x {y} e = elim (Option-cases x.prev) [
  | inl n ↦ absurd (ground arith)
  | inr (p, e') ↦
      let r = find_address-Live db p {x = y} (ground arith) in (r.0, e' ∙ ground (arith, r.1))
]

pub find_id-In : (i : ℕ) (xs : List ForkItem) {x : ForkItem} → find_id i xs ≡ some x → In x xs
unfolding find_id
find_id-In i xs e = (find-In (λ (y : ForkItem). y.id == i) xs e).0

pub erase-In : (a : ℕ) (x : ForkItem) (xs : List ForkItem) → In x (erase a xs) → In x xs
unfolding erase
erase-In a x [] m = m
erase-In a x (y ∷ xs) m = ground (arith, erase-In a x xs)

pub trim-In :
    (fuel bound : ℕ) (x : ForkItem) (xs : List ForkItem) → In x (trim fuel bound xs) → In x xs
unfolding trim
trim-In zero bound x xs m = m
trim-In (suc fuel) bound x xs m = elim (Option-cases (least xs)) [
  | inl e ↦ rw (e, trim) at m
  | inr (y, e) ↦ elim (Bool-cases (ltb y.num bound)) [
    | inl t ↦
        erase-In y.address x xs (trim-In fuel bound x (erase y.address xs) (rw (e, trim, t) at m))
    | inr f ↦ rw (e, trim, f) at m
  ]
]

pub trim-nil : (bound : ℕ) (xs : List ForkItem) → xs ≡ [] → trim (length xs) bound xs ≡ xs
unfolding trim
trim-nil bound [] e = refl
trim-nil bound (x ∷ xs) e = absurd (ground arith)
