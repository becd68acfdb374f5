-- ===== src/Drivers/Routes.antt =====
-- services/driver-service/utils.go: the routes that a registered driver is moved along, and the plate.
use mygo_microservices.Prelude.{ℕ, suc, zero, String, Option, none, some, List, [], ◌∷◌, ◌<>◌}
use mygo_microservices.Trip.Domain.{Float64}

-- A point is a slice, of a latitude and a longitude.
abbrev pub Point : Type 0
Point = List Float64

abbrev pub Route : Type 0
Route = List Point

abbrev at : Float64 → Float64 → Point
at lat lng = lat ∷ lng ∷ []

-- `xs[n]`, which panics out of range
abbrev pub index {ℓ} : {A : Type ℓ} → ℕ → List A → Option A
index n [] = none
index zero (x ∷ xs) = some x
index (suc n) (x ∷ xs) = index n xs

abbrev pub east_route : Route
east_route =
    at 0x4037216872B020C5 0x405C510624DD2F1B
    ∷ at 0x40372189374BC6A8 0x405C5116872B020C
    ∷ at 0x4037217C1BDA511A 0x405C5126E978D4FE
    ∷ at 0x40372147AE147AE1 0x405C511EB851EB85
    ∷ []

abbrev pub north_route : Route
north_route =
    at 0x4037213A92A30553 0x405C50E560418937
    ∷ at 0x4037216872B020C5 0x405C50DD2F1A9FBE
    ∷ at 0x4037219652BD3C36 0x405C50E560418937
    ∷ at 0x403721BDA5119CE0 0x405C50F5C28F5C29
    ∷ at 0x403721CAC083126F 0x405C510624DD2F1B
    ∷ at 0x403721A9FBE76C8B 0x405C5116872B020C
    ∷ []

abbrev pub south_west_route : Route
south_west_route =
    at 0x403720C49BA5E354 0x405C50CCCCCCCCCD
    ∷ at 0x403720A3D70A3D71 0x405C50DD2F1A9FBE
    ∷ at 0x40372083126E978D 0x405C50ED916872B0
    ∷ at 0x403720B780346DC6 0x405C50FDF3B645A2
    ∷ at 0x403720E560418937 0x405C50F5C28F5C29
    ∷ []

abbrev pub south_route : Route
south_route =
    at 0x403720A3D70A3D71 0x405C510624DD2F1B
    ∷ at 0x403720B780346DC6 0x405C5116872B020C
    ∷ at 0x403720D1B71758E2 0x405C5126E978D4FE
    ∷ at 0x403720E560418937 0x405C512F1A9FBE77
    ∷ at 0x4037210624DD2F1B 0x405C5126E978D4FE
    ∷ []

abbrev pub predefined_routes : List Route
predefined_routes = east_route ∷ north_route ∷ south_west_route ∷ south_route ∷ []

abbrev letters : List String
letters =
    "A" ∷ "B" ∷ "C" ∷ "D" ∷ "E" ∷ "F" ∷ "G" ∷ "H" ∷ "I" ∷ "J" ∷ "K" ∷ "L" ∷ "M" ∷ "N" ∷ "O" ∷ "P"
    ∷ "Q" ∷ "R" ∷ "S" ∷ "T" ∷ "U" ∷ "V" ∷ "W" ∷ "X" ∷ "Y" ∷ "Z" ∷ []

-- The byte at a number that `rand.Intn` has drawn below 26.
letter : ℕ → String
letter n = elim (index n letters) [ none ↦ "" | some c ↦ c ]

-- Three letters, one for each number drawn.
unfoldable pub generate_random_plate : ℕ → ℕ → ℕ → String
unfolding letter
generate_random_plate a b c = letter a <> letter b <> letter c
