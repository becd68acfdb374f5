-- ===== src/Drivers/Nearest.antt =====
-- What a GEORADIUS query with a limit and the order ASC answers, over the places of the members of
-- an index and their distances from the centre.
use mygo_microservices.Prelude.{
  ℕ, ◌≤◌, String, ◌≡◌, Bool, true, false, Option, none, some, List, [], ◌∷◌, ◌==◌, ◌||◌, ◌⊎◌, All,
  length,
}
use mygo_microservices.Trip.Domain.{Float64}

abbrev pub Place : Type 0
Place = Float64 × Float64

unfoldable pub is_among : String → List String → Bool
is_among m [] = false
is_among m (x ∷ xs) = (m == x) || is_among m xs

module _ (place : String → Option Place) (distance : Place → ℕ) where
  -- 0 for a member without a place, of which there are none in an answer.
  unfoldable pub distance_of : Option Place → ℕ
  distance_of none = 0
  distance_of (some p) = distance p

  abbrev pub distance_to : String → ℕ
  distance_to m = distance_of (place m)

  abbrev pub IsAscending : List String → Type 0
  IsAscending [] = Unit {0}
  IsAscending (x ∷ xs) = All (λ y. distance_to x ≤ distance_to y) xs × IsAscending xs

  -- The members within `reach`, nearest first; where there are more than `count`, the nearest ones.
  pub record AreNearest (reach count : ℕ) (ms : List String) : Type 0 where
    pub within : All (λ m. (p : Place) × (place m ≡ some p) × (distance p ≤ reach)) ms
    pub ascending : IsAscending ms
    pub few : length ms ≤ count
    pub complete :
        (m : String) (p : Place)
        → place m ≡ some p
        → distance p ≤ reach
        → (is_among m ms ≡ true) ⊎ ((length ms ≡ count) × All (λ x. distance_to x ≤ distance p) ms)
