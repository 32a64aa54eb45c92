-- ===== src/Chain/ForkDatabase/Trim.antt =====
-- fork_database.cpp: the loop of `set_max_size` against a filter, and the walk down the main branch.
use vidpow.Prelude.{
  ℕ, zero, suc, max, ◌+◌, ◌-◌, ◌%◌, ◌^◌, ◌≤◌, ◌<◌, ◌≡◌, refl, sym, ◌∙◌, ap, subst, ◌≢◌, inl, inr,
  Bool, not, none, some, List, [], ◌∷◌, ltb, arith, In, filter, length, Option-cases, Bool-cases,
}
use vidpow.Prelude.{ok, err, out_of_fuel}
use vidpow.Protocol.Block.{BlockHash, IsByteSwap, block_num, num_from_id, num_from_id-block_id}
use vidpow.Chain.ForkDatabase.{
  ForkItem, ForkDb, lock, least, erase, trim, set_max_size, oldest, walk_down,
  walk_main_branch_to_num,
}
use vidpow.Chain.ForkDatabase.Invariant.{Live, Inv}
use vidpow.Chain.ForkDatabase.Reaches.{erase-In, trim-nil}
use vidpow.Chain.ForkDatabase.Branches.{Descent, stop, step, lock_step}

abbrev pub kept : ℕ → ForkItem → Bool
kept bound x = not (ltb x.num bound)

least-none : (xs : List ForkItem) → least xs ≡ none → xs ≡ []
unfolding least
least-none [] e = refl
least-none (x ∷ xs) e = absurd (ground arith)

least-In : (xs : List ForkItem) {x : ForkItem} → least xs ≡ some x → In x xs
unfolding least
least-In [] e = cc
least-In (y ∷ xs) {x} e = elim (Option-cases (least xs)) [
  | inl n ↦ inl (ground arith)
  | inr (z, p) ↦ ground (arith, least-In xs {x = z} p)
]

least-le :
    (xs : List ForkItem) {x : ForkItem} (y : ForkItem) → least xs ≡ some x → In y xs → x.num ≤ y.num
unfolding least
least-le [] y e m = elim m [ ]
least-le (w ∷ xs) {x} y e m = elim (Option-cases (least xs)) [
  | inl n ↦ ground (arith, least-none xs n)
  | inr (z, p) ↦ ground (arith, least-le xs {x = z} y p)
]

filter_all :
    (bound : ℕ) (xs : List ForkItem)
    → ((y : ForkItem) → In y xs → bound ≤ y.num)
    → filter (kept bound) xs ≡ xs
filter_all bound [] h = refl
filter_all bound (x ∷ xs) h =
    ground (arith, h x (inl refl), filter_all bound xs (λ y m. h y (inr m)))

length-erase :
    (x : ForkItem) (xs : List ForkItem) → In x xs → suc (length (erase x.address xs)) ≡ length xs
unfolding erase
length-erase x [] m = elim m [ ]
length-erase x (y ∷ xs) (inl e) = ground arith
length-erase x (y ∷ xs) (inr m) = ground (arith, length-erase x xs m)

filter-erase :
    (bound : ℕ) (x : ForkItem) (xs : List ForkItem)
    → ((y : ForkItem) → In y xs → y.address ≡ x.address → y ≡ x)
    → x.num < bound
    → filter (kept bound) (erase x.address xs) ≡ filter (kept bound) xs
unfolding erase
filter-erase bound x [] same h = refl
filter-erase bound x (y ∷ xs) same h =
    ground (arith, same y (inl refl), filter-erase bound x xs (λ z m. same z (inr m)) h)

-- `trim` with a round for each item.
trim-filter :
    (fuel bound : ℕ) (xs : List ForkItem)
    → ((x y : ForkItem) → In x xs → In y xs → x.address ≡ y.address → x ≡ y)
    → length xs ≤ fuel
    → trim fuel bound xs ≡ filter (kept bound) xs
unfolding trim
trim-filter zero bound [] same h = refl
trim-filter zero bound (x ∷ xs) same h = absurd (omega arith)
trim-filter (suc fuel) bound xs same h = elim (Option-cases (least xs)) [
  | inl e ↦ rw (least-none xs e)
  | inr (x, e) ↦
      let m = least-In xs {x = x} e in
      elim (Bool-cases (ltb x.num bound)) [
        | inr f ↦
            rw (e, trim, f)
              (sym (filter_all bound xs (λ y k. ground (arith, least-le xs {x = x} y e k))))
        | inl t ↦
            rw (e, trim, t)
              (trim-filter fuel bound (erase x.address xs)
                  (λ y z k l. same y z (erase-In x.address y xs k) (erase-In x.address z xs l))
                  (omega (arith, length-erase x xs m))
                ∙ filter-erase bound x xs (λ y k q. same y x k m q) (ground arith))
      ]
]

max-zero : (n : ℕ) → max 0 n ≡ n
max-zero n = omega arith

module _ (hash : BlockHash) (db : ForkDb) (v : Inv hash db) where
  -- On a database that keeps the invariant and has a head, resizing drops from the index exactly
  -- the items that are older than the head's number less the new size, keeps the order of the rest,
  -- and changes nothing else but the size.
  pub set_max_size-filter :
      (s : ℕ) (h : ForkItem)
      → db.head ≡ some h
      → set_max_size s db
        ≡ record db { max_size = s; index = filter (λ x. not (ltb x.num (h.num - s))) db.index }
  unfolding set_max_size oldest
  set_max_size-filter s h e = ground (
    arith,
    trim-filter (length db.index) (h.num - s) db.index (λ x y k l. v.same x y (inr k) (inr l))
        (omega arith),
    trim-nil (h.num - s) db.unlinked v.no_unlinked,
    v.no_unlinked,
    max-zero (h.num - s),
  )

  lock-num :
      IsByteSwap hash.endian_reverse_u32
      → (x : ForkItem) {y : ForkItem} → Live db x
      → lock db x ≡ some y
      → (x.num ≡ (y.num + 1) % 2 ^ 32) × (y.num < 2 ^ 32)
  unfolding block_num
  lock-num swap x {y} l e =
      let (m, _, p) = lock_step hash db v x {y = y} l e in
      let q : num_from_id hash x.data_block.previous ≡ y.num =
        ap (num_from_id hash) (sym p ∙ v.name y m)
        ∙ num_from_id-block_id hash swap y.data_block
        ∙ sym (v.number y m) in
      (v.number x l ∙ ap (λ k. (k + 1) % 2 ^ 32) q, omega (arith, v.number y m))

  walk_down-num :
      IsByteSwap hash.endian_reverse_u32
      → (fuel n : ℕ) (x : ForkItem) {z : ForkItem} → Live db x
      → n ≤ x.num
      → walk_down db fuel n x ≡ ok (some z)
      → (z.num ≡ n) × (xs : List ForkItem) × Descent db x xs z
  unfolding walk_down
  walk_down-num swap zero n x l h e = cc
  walk_down-num swap (suc fuel) n x {z} l h e = elim (Bool-cases (ltb n x.num)) [
    | inr f ↦ let q : x ≡ z = ground arith in (ground arith, [], subst (Descent db x []) q (stop x))
    | inl t ↦ elim (Option-cases (lock db x)) [
      | inl k ↦ absurd (ground arith)
      | inr (y, k) ↦
          let (m, _, _) = lock_step hash db v x {y = y} l k in
          let (r, xs, d) =
            walk_down-num swap fuel n y {z = z} m (ground (arith, lock-num swap x {y = y} l k))
              (ground arith) in
          (r, x ∷ xs, step k d)
    ]
  ]

  -- On a database that keeps the invariant, with a byte swap that is its own inverse, an item that
  -- `walk_main_branch_to_num` finds has the wanted number and is reached from the head along
  -- `prev`.
  pub walk_main_branch_to_num-found :
      IsByteSwap hash.endian_reverse_u32
      → (n : ℕ) {z : ForkItem} → walk_main_branch_to_num n db ≡ ok (some z)
      → (h : ForkItem) × (db.head ≡ some h) × (z.num ≡ n) × (xs : List ForkItem) × Descent db h xs z
  unfolding walk_main_branch_to_num
  walk_main_branch_to_num-found swap n {z} e = elim (Option-cases db.head) [
    | inl k ↦ absurd (ground arith)
    | inr (h, k) ↦
        let r =
          walk_down-num swap db.next_address n h {z = z} (inl k) (ground arith) (ground arith) in
        (h, k, r.0, r.1, r.2)
  ]

  walk_down_total :
      (fuel n : ℕ) (x : ForkItem)
      → Live db x
      → x.address < fuel
      → walk_down db fuel n x ≢ err out_of_fuel
  unfolding walk_down
  walk_down_total zero n x l h = absurd (omega arith)
  walk_down_total (suc fuel) n x l h = elim (Option-cases (lock db x)) [
    | inl e ↦ ground arith
    | inr (y, e) ↦
        let s = lock_step hash db v x {y = y} l e in ground (arith, s, walk_down_total fuel n y)
  ]

  -- On a database that keeps the invariant the walk of `walk_main_branch_to_num` ends.
  pub walk_main_branch_to_num_total : (n : ℕ) → walk_main_branch_to_num n db ≢ err out_of_fuel
  unfolding walk_main_branch_to_num
  walk_main_branch_to_num_total n = elim (Option-cases db.head) [
    | inl k ↦ ground arith
    | inr (h, k) ↦ ground (arith, walk_down_total db.next_address n h (inl k) (v.fresh h (inl k)))
  ]
