-- ===== src/Trip/Domain.antt =====
-- services/trip-service/internal/domain and the protobuf messages that it is made of.
-- A float64 is kept as the 64 bits that stand for it; an ObjectID as its hexadecimal form.
use mygo_microservices.Prelude.{
  ℕ, String, ◌≡◌, Bool, true, false, Option, none, some, List, [], ◌∷◌, ◌&&◌, ◌⊎◌, ◌==◌,
  if◌then◌else◌,
}
use mygo_microservices.Go.{Error, ok, err, Exec}

abbrev pub Float64 : Type 0
Float64 = ℕ

-- shared/types: one coordinate pair of an OSRM geometry
pub record Coordinate : Type 0 where
  pub latitude : Float64
  pub longitude : Float64

-- One route of an OSRM response. A pair of the geometry is a list, whose length JSON does not fix.
pub record OsrmRoute : Type 0 where
  pub distance : Float64
  pub duration : Float64
  pub coordinates : List (List Float64)

abbrev pub OsrmApiResponse : Type 0
OsrmApiResponse = List OsrmRoute

pub record RideFareModel : Type 0 where
  pub id : String
  pub user_id : String
  pub package_slug : String
  pub total_price_in_cents : Float64
  pub route : Option OsrmApiResponse

-- pb.TripDriver
pub record TripDriver : Type 0 where
  pub id : String
  pub name : String
  pub profile_picture : String
  pub car_plate : String

-- pb.Driver, as far as the trip service reads it
pub record Driver : Type 0 where
  pub id : String
  pub name : String
  pub profile_picture : String
  pub car_plate : String

-- Both pointers may be nil.
pub record TripModel : Type 0 where
  pub id : String
  pub user_id : String
  pub status : String
  pub ride_fare : Option RideFareModel
  pub driver : Option TripDriver

abbrev pub is_pair : List Float64 → Bool
is_pair [] = false
is_pair (a ∷ []) = false
is_pair (a ∷ b ∷ rest) = true

unfoldable pub are_pairs : List (List Float64) → Bool
are_pairs [] = true
are_pairs (p ∷ ps) = is_pair p && are_pairs ps

-- Whether `ToProto` of a trip with this fare gets through: it follows the fare and its route, takes
-- the first route and two numbers of each pair, and panics where one of them is not there.
unfoldable pub converts : Option RideFareModel → Bool
converts none = false
converts (some f) = elim f.route [
  | none ↦ false
  | some rs ↦ elim rs [ [] ↦ false | r ∷ others ↦ are_pairs r.coordinates ]
]

abbrev pub pending : String
pending = "pending"

abbrev pub accepted : String
accepted = "accepted"

abbrev pub payed : String
payed = "payed"

abbrev pub trip_driver_of : Driver → TripDriver
trip_driver_of d = record {
  id = d.id;
  name = d.name;
  profile_picture = d.profile_picture;
  car_plate = d.car_plate;
}

-- What an update of a trip writes: the status, and the driver where one is given.
unfoldable pub assign : String → Option Driver → TripModel → TripModel
assign status none t = record t { status = status }
assign status (some d) t = record t { status = status; driver = some (trip_driver_of d) }

-- domain.TripService, as far as the message consumers call it, with what they may see of it:
-- the database's trip for an identifier.
pub record TripService : Type 1 where
  pub State : Type 0
  pub view : State → String → Option TripModel
  pub IsCoherent : State → Type 0
  pub IsUp : State → Type 0
  -- The text is an identifier, in the form that the database gives it.
  pub IsId : String → Type 0
  pub get_trip_by_id : String → Exec State (Option TripModel)
  pub update_trip : String → String → Option Driver → Exec State (Unit {0})

-- An update to `accepted` is allowed from `pending` only.
unfoldable pub may_move : String → TripModel → Bool
may_move status t = if status == accepted then t.status == pending else true

unfoldable pub movable : String → Option TripModel → Bool
unfolding may_move
movable status none = false
movable status (some t) = may_move status t

unfoldable pub updated : String → Option Driver → Option TripModel → Option TripModel
unfolding assign
updated status d none = none
updated status d (some t) = some (assign status d t)

module _ (svc : TripService) where
  open svc use {State, view, IsCoherent, IsUp, IsId, get_trip_by_id, update_trip}

  pub record TripServiceLaws : Type 0 where
    -- The database keeps a trip under an identifier only.
    pub view-IsId : (id : String) (s : State) (t : TripModel) → view s id ≡ some t → IsId id
    -- While the caches agree with the database, a read that answers gives the database's trip.
    pub get_ok :
        (id : String) (s : State) (o : Option TripModel)
        → IsId id
        → IsCoherent s
        → (get_trip_by_id id s).0 ≡ ok o
        → o ≡ view s id
    pub get_keeps : (id j : String) (s : State) → view (get_trip_by_id id s).1 j ≡ view s j
    pub get-IsCoherent :
        (id : String) (s : State) → IsId id → IsCoherent s → IsCoherent (get_trip_by_id id s).1
    -- An update that returns no error has written a trip that may move.
    pub update_ok :
        (id status : String) (d : Option Driver) (s : State)
        → IsId id
        → (update_trip id status d s).0 ≡ ok tt
        → (movable status (view s id) ≡ true)
          × (view (update_trip id status d s).1 id ≡ updated status d (view s id))
    -- One that returns an error has written such a trip or nothing.
    pub update_err :
        (id status : String) (d : Option Driver) (s : State) (e : Error)
        → IsId id
        → (update_trip id status d s).0 ≡ err e
        → (view (update_trip id status d s).1 id ≡ view s id)
          ⊎ ((movable status (view s id) ≡ true)
              × (view (update_trip id status d s).1 id ≡ updated status d (view s id)))
    pub up_get :
        (id : String) (s : State) (t : TripModel)
        → IsUp s
        → IsCoherent s
        → view s id ≡ some t
        → (get_trip_by_id id s).0 ≡ ok (some t)
    pub up_update :
        (id status : String) (d : Option Driver) (s : State)
        → IsUp s
        → movable status (view s id) ≡ true
        → (update_trip id status d s).0 ≡ ok tt
    pub get-IsUp : (id : String) (s : State) → IsUp s → IsUp (get_trip_by_id id s).1
    pub update-IsUp :
        (id status : String) (d : Option Driver) (s : State)
        → IsUp s
        → IsUp (update_trip id status d s).1
    pub update-IsCoherent :
        (id status : String) (d : Option Driver) (s : State)
        → IsId id
        → IsUp s
        → IsCoherent s
        → IsCoherent (update_trip id status d s).1
