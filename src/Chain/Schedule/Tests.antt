-- ===== src/Chain/Schedule/Tests.antt =====
-- Tests of the shuffle, at three scheduled witnesses of four places.
use vidpow.Prelude.{ℕ, ◌≤◌, ◌≡◌, refl, List, [], ◌∷◌, get_elem?}
use vidpow.Chain.Schedule.{random, swap, shuffle, shuffle_witnesses}
use vidpow.Chain.Schedule.Shuffle.{occurrences, shuffle_witnesses-occurrences}

abbrev names : List ℕ
names = 5 ∷ 6 ∷ 7 ∷ 0 ∷ []

shuffle_witnesses-occurrences_example :
    ((a : ℕ) → occurrences a (shuffle_witnesses 1500000000 3 names) ≡ occurrences a names)
    × ((k : ℕ) → 3 ≤ k → get_elem? (shuffle_witnesses 1500000000 3 names) k ≡ get_elem? names k)
shuffle_witnesses-occurrences_example = shuffle_witnesses-occurrences 1500000000 3 names

last_place : get_elem? (shuffle_witnesses 1500000000 3 names) 3 ≡ get_elem? names 3
unfolding shuffle_witnesses shuffle swap random
last_place = refl
