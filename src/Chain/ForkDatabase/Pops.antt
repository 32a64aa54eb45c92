-- ===== src/Chain/ForkDatabase/Pops.antt =====
-- Popping the head of the fork database, and the fronts of the branches from a fork.
use vidpow.Prelude.{
  ℕ, ◌<◌, ◌≡◌, ◌≢◌, refl, ◌∙◌, inl, inr, none, some, List, [], ◌∷◌, ◌++◌, arith, Option-cases,
  find-In, ◌==◌, find, filter, not,
}
use vidpow.Prelude.{ok, err, out_of_fuel}
use vidpow.Protocol.Block.{BlockHash}
use vidpow.Chain.ForkDatabase.{
  ForkItem, ForkDb, BranchPair, pop_block, lock, find_id, fetch_branch_from, remove,
}
use vidpow.Chain.ForkDatabase.Invariant.{Inv}
use vidpow.Chain.ForkDatabase.Reaches.{lock-Live}
use vidpow.Chain.ForkDatabase.Branches.{Descent, stop, step, fetch_branch_from-Meets}

module _ (hash : BlockHash) where
  -- The new head is older than the one that was popped.
  pub pop_block-older :
      (db : ForkDb) {db' : ForkDb}
      → pop_block db ≡ ok db'
      → Inv hash db
      → (h : ForkItem) × (p : ForkItem) × (db.head ≡ some h)
        × (db'.head ≡ some p)
        × (p.address < h.address)
  unfolding pop_block
  pop_block-older db {db'} e v = elim (Option-cases db.head) [
    | inl n ↦ absurd (ground arith)
    | inr (h, eh) ↦ elim (Option-cases (lock db h)) [
      | inl n ↦ absurd (ground arith)
      | inr (p, ep) ↦
          let live = lock-Live db h {y = p} ep in
          (h, p, eh, ground arith, v.older h p.address (inl eh) live.1)
    ]
  ]

pub pop_block-ne : (db : ForkDb) → pop_block db ≢ err out_of_fuel
unfolding pop_block
pop_block-ne db e = ground arith

Descent-front :
    {db : ForkDb} {x z : ForkItem} {xs : List ForkItem}
    → Descent db x xs z
    → (rest : List ForkItem) × (xs ++ z ∷ [] ≡ x ∷ rest)
Descent-front (stop x) = ([], refl)
Descent-front {z} (step {x = x} {xs = xs} l d) = (xs ++ z ∷ [], refl)

-- The branches begin with the items that were asked for.
pub fetch_branch_from-fronts :
    (db : ForkDb) (i j : ℕ) {r : BranchPair}
    → fetch_branch_from db i j ≡ ok r
    → (x : ForkItem) × (y : ForkItem) × (xs : List ForkItem) × (ys : List ForkItem) × (r.firsts
        ≡ x ∷ xs)
      × (r.seconds ≡ y ∷ ys)
      × (find_id i db.index ≡ some x)
      × (find_id j db.index ≡ some y)
fetch_branch_from-fronts db i j {r} e =
    let (x, y, fx, fy, m) = fetch_branch_from-Meets db i j {r = r} e in
    let (xs, ex) = Descent-front m.descent_first in
    let (ys, ey) = Descent-front m.descent_second in
    (x, y, xs, ys, m.firsts ∙ ex, m.seconds ∙ ey, fx, fy)

-- What is found under an id has that id.
pub find_id-id : (i : ℕ) (xs : List ForkItem) {x : ForkItem} → find_id i xs ≡ some x → x.id ≡ i
unfolding find_id
find_id-id i xs {x} e = let f = find-In (λ (z : ForkItem). z.id == i) xs e in ground (arith, f)

filter-find :
    (i : ℕ) (xs : List ForkItem) → find (λ x. x.id == i) (filter (λ x. not (x.id == i)) xs) ≡ none
filter-find i [] = refl
filter-find i (x ∷ xs) = ground (arith, filter-find i xs)

-- A block that was removed is not in the index.
pub remove-find : (i : ℕ) (db : ForkDb) → find_id i (remove i db).index ≡ none
unfolding remove find_id
remove-find i db = filter-find i db.index
