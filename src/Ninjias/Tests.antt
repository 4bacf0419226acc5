-- ===== src/Ninjias/Tests.antt =====
-- Numbers of the tests of python/ninjias.py and python/doubly_linked_list.py.
use code_recipes.Common.{ℕ, ◌≡◌, refl, some}
use code_recipes.Common.Result.{ok}
use code_recipes.Ninjias.{ninjias}
use code_recipes.Ninjias.Circle.{survivor, range_from}
use code_recipes.Ninjias.Links.{ninjas_bruteforce, circle_of, remove, iter_next}
use code_recipes.Ninjias.Bruteforce.{ninjas_bruteforce-eq-ninjias}

of_ten : ninjias 10 10 ≡ some 4
unfolding ninjias
of_ten = refl

of_seven : ninjas_bruteforce 7 7 ≡ ok (some 6)
unfolding ninjas_bruteforce
of_seven = refl

-- Once node 1 is removed from a circle of three, node 2 comes after node 0.
after_first : iter_next (some 0) (remove 1 (circle_of 3)).1 ≡ ok (some 0, some 2)
after_first = refl

ninjas_bruteforce-eq-ninjias_example :
    (q : ℕ) × (ninjas_bruteforce 10 10 ≡ ok (some q))
    × (ninjias 10 10 ≡ some q)
    × (survivor 10 (range_from 0 10) ≡ some q)
ninjas_bruteforce-eq-ninjias_example = ninjas_bruteforce-eq-ninjias 9
