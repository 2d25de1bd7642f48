-- ===== src/Tests/Binds.antt =====
-- The binds of a prepared query at a concrete input.
use my_sqloo.Base.{ℕ, suc, ◌<◌, ◌≡◌, false, some, List, [], ◌∷◌, length, get_elem?, arith, ◌==◌}
use my_sqloo.Client.{Bind, bind_reset}
use my_sqloo.Execute.Parameters.{find, assign, generate_binds}
use my_sqloo.Execute.Parameters.Binds.{bound, Matches, assign-Matches, generate_binds_lem}
use my_sqloo.Objects.{FieldValue, bit_field, Parameters}
use my_sqloo.Outcome.{ok}
use my_sqloo.Tests.Fixtures.{test_client}

-- Parameter 2 was set, and parameter 1 was not.
abbrev second_set : Parameters
second_set = (2, record { index = 2; value = bit_field false }) ∷ []

second_set-Matches : Matches second_set
unfolding find assign
second_set-Matches = assign-Matches 2 (bit_field false) [] (λ i field e. cc)

abbrev two_binds : List Bind
two_binds = bind_reset ∷ bind_reset ∷ []

generate_binds_lem_example :
    ((r : List Bind) × (generate_binds test_client second_set 2 two_binds ≡ ok r)
      × (length r ≡ 2)
      × ((p : ℕ) → p < 2 → get_elem? r p ≡ some (bound (find (suc p) second_set))))
    × ((i : ℕ) (value : FieldValue)
        → let map' = assign i (record { index = i; value = value }) second_set in
          Matches map'
          × (find i map' ≡ some (record { index = i; value = value }))
          × ((j : ℕ) → (i == j) ≡ false → find j map' ≡ find j second_set))
generate_binds_lem_example =
    generate_binds_lem test_client 2 second_set two_binds (omega arith) (omega arith)
      second_set-Matches
