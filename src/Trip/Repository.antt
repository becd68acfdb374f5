-- ===== src/Trip/Repository.antt =====
-- services/trip-service/internal/infrastructure/repository/mongodb.go, the part about trips.
pub mod Laws
pub mod Reads
use mygo_microservices.Prelude.{
  ℕ, String, ◌<>◌, ◌≡◌, Bool, true, false, Option, none, some, ◌⊎◌, ◌==◌, ◌=ℕ=◌, ◌&&◌,
  if◌then◌else◌,
}
use mygo_microservices.Go.{
  Error, no_documents, message, Result, ok, err, Exec, pure, fail, lift, ◌>>=◌,
}
use mygo_microservices.Trip.Domain.{TripModel, Driver, pending, accepted, assign, updated}

-- `bson.M{"_id": …}`, with a status where the update is conditional.
pub record Filter : Type 0 where
  pub id : String
  pub status : Option String

-- `bson.M{"$set": …}`
pub record Change : Type 0 where
  pub status : String
  pub driver : Option Driver

abbrev status_matches : Option String → TripModel → Bool
status_matches none t = true
status_matches (some s) t = t.status == s

unfoldable pub matches : Option String → Option TripModel → Bool
matches f none = false
matches f (some t) = status_matches f t

-- The collection `trips` of a MongoDB server, and `primitive.ObjectIDFromHex`, which are not part of
-- the repository. A document is found under the hexadecimal form of its `_id`.
pub record Collection : Type 1 where
  pub State : Type 0
  pub IsUp : State → Type 0
  pub lookup : State → String → Option TripModel
  pub object_id_from_hex : String → Result String
  pub insert_one : TripModel → Exec State String
  pub find_one : String → Exec State TripModel
  -- the number of documents that matched
  pub update_one : Filter → Change → Exec State ℕ

module _ (db : Collection) where
  open db use {State, IsUp, lookup, object_id_from_hex, insert_one, find_one, update_one}

  -- What the documentation of the driver and the server says of those calls.
  pub record CollectionLaws : Type 0 where
    -- A document is kept under the text that its identifier is written as.
    pub stored_valid :
        (id : String) (s : State) (t : TripModel)
        → lookup s id ≡ some t
        → object_id_from_hex id ≡ ok id
    pub find_hit :
        (id : String) (s : State) (t : TripModel) → (find_one id s).0 ≡ ok t → lookup s id ≡ some t
    pub find_keeps : (id j : String) (s : State) → lookup (find_one id s).1 j ≡ lookup s j
    pub update_done :
        (f : Filter) (c : Change) (j : String) (n : ℕ) (s : State)
        → (update_one f c s).0 ≡ ok n
        → (n ≡ (if matches f.status (lookup s f.id) then 1 else 0))
          × (lookup (update_one f c s).1 j ≡ (
              if matches f.status (lookup s f.id) && f.id == j
              then updated c.status c.driver (lookup s j)
              else lookup s j))
    -- An update whose answer is lost has been made whole or not at all.
    pub update_lost :
        (f : Filter) (c : Change) (e : Error) (s : State)
        → (update_one f c s).0 ≡ err e
        → (lookup (update_one f c s).1 f.id ≡ lookup s f.id)
          ⊎ ((matches f.status (lookup s f.id) ≡ true)
              × (lookup (update_one f c s).1 f.id ≡ updated c.status c.driver (lookup s f.id)))
    pub update_keeps :
        (f : Filter) (c : Change) (j : String) (s : State)
        → (f.id == j) ≡ false
        → lookup (update_one f c s).1 j ≡ lookup s j
    pub up_find :
        (id : String) (s : State) (t : TripModel)
        → IsUp s
        → lookup s id ≡ some t
        → (find_one id s).0 ≡ ok t
    pub up_find_none :
        (id : String) (s : State)
        → IsUp s
        → lookup s id ≡ none
        → (find_one id s).0 ≡ err no_documents
    pub up_update :
        (f : Filter) (c : Change) (s : State)
        → IsUp s
        → (update_one f c s).0 ≡ ok (if matches f.status (lookup s f.id) then 1 else 0)
    pub find-IsUp : (id : String) (s : State) → IsUp s → IsUp (find_one id s).1
    pub update-IsUp : (f : Filter) (c : Change) (s : State) → IsUp s → IsUp (update_one f c s).1

-- `buildTripUpdateFilter`: a move to `accepted` is made from `pending` only.
unfoldable pub build_trip_update_filter : String → String → Filter
build_trip_update_filter id status = record {
  id = id;
  status = if status == accepted then some pending else none;
}

module _ (db : Collection) where
  unfoldable pub create_trip : TripModel → Exec db.State TripModel
  create_trip trip = do inserted ← db.insert_one trip; pure (record trip { id = inserted })

  unfoldable pub get_trip_by_id : String → Exec db.State (Option TripModel)
  get_trip_by_id id = do
    object_id ← lift (db.object_id_from_hex id)
    trip ← db.find_one object_id
    pure (some trip)

  update_result : String → String → ℕ → Exec db.State (Unit {0})
  update_result trip_id status matched =
      if matched =ℕ= 0
      then (if status == accepted
          then fail (message ("trip already accepted or not found: " <> trip_id))
          else fail (message ("trip not found: " <> trip_id)))
      else pure tt

  unfoldable pub update_trip : String → String → Option Driver → Exec db.State (Unit {0})
  unfolding update_result build_trip_update_filter
  update_trip trip_id status driver = do
    object_id ← lift (db.object_id_from_hex trip_id)
    matched ←
        db.update_one (build_trip_update_filter object_id status)
          (record { status = status; driver = driver })
    update_result trip_id status matched
