-- ===== src/Trip/Repository/Reads.antt =====
-- What a read tells, and what reads and updates leave as it was.
use mygo_microservices.Prelude.{
  Option-cases, Bool-cases, String, ◌≡◌, Option, some, inl, inr, arith,
}
use mygo_microservices.Go.{Error, ok, err, Result-cases}
use mygo_microservices.Trip.Domain.{TripModel, Driver}
use mygo_microservices.Trip.Repository.{
  Filter, Change, Collection, CollectionLaws, matches, build_trip_update_filter, update_trip,
  get_trip_by_id,
}
use mygo_microservices.Trip.Repository.Laws.{updated-none}

module _ (db : Collection) (laws : CollectionLaws db) (id : String) where
  open db use {State, lookup}

  pub get_trip_by_id_keeps :
      (j : String) (s : State) → lookup (get_trip_by_id db id s).1 j ≡ lookup s j
  unfolding get_trip_by_id
  get_trip_by_id_keeps j s = elim (Result-cases (db.object_id_from_hex id)) [
    | inr (e, p) ↦ ground (arith, p)
    | inl (x, p) ↦ elim (Result-cases (db.find_one x s).0) [
      | inr (e, q) ↦ ground (arith, p, q, laws.find_keeps x j s)
      | inl (t, q) ↦ ground (arith, p, q, laws.find_keeps x j s)
    ]
  ]

  pub get_trip_by_id-IsUp : (s : State) → db.IsUp s → db.IsUp (get_trip_by_id db id s).1
  unfolding get_trip_by_id
  get_trip_by_id-IsUp s up = elim (Result-cases (db.object_id_from_hex id)) [
    | inr (e, p) ↦ ground (arith, p)
    | inl (x, p) ↦ elim (Result-cases (db.find_one x s).0) [
      | inr (e, q) ↦ ground (arith, p, q, laws.find-IsUp x s up)
      | inl (t, q) ↦ ground (arith, p, q, laws.find-IsUp x s up)
    ]
  ]

  pub update_trip-IsUp :
      (status : String) (d : Option Driver) (s : State)
      → db.IsUp s
      → db.IsUp (update_trip db id status d s).1
  unfolding update_trip
  update_trip-IsUp status d s up = elim (Result-cases (db.object_id_from_hex id)) [
    | inr (e, p) ↦ ground (arith, p)
    | inl (x, p) ↦
        let f : Filter = build_trip_update_filter x status in
        let c : Change = record { status = status; driver = d } in
        ground (arith, p, laws.update-IsUp f c s up, laws.up_update f c s up)
  ]

  -- While the database answers, an update that returns an error changes no trip.
  pub update_trip_refused :
      (status : String) (d : Option Driver) (j : String) (e : Error) (s : State)
      → db.IsUp s
      → (update_trip db id status d s).0 ≡ err e
      → lookup (update_trip db id status d s).1 j ≡ lookup s j
  unfolding update_trip
  update_trip_refused status d j e s up h = elim (Result-cases (db.object_id_from_hex id)) [
    | inr (x, p) ↦ ground (arith, p)
    | inl (x, p) ↦
        let f : Filter = build_trip_update_filter x status in
        let c : Change = record { status = status; driver = d } in
        let answered = laws.up_update f c s up in
        let at = laws.update_done f c j _ s answered in
        elim (Bool-cases (matches f.status (lookup s x))) [
          | inl hit ↦ absurd (ground (arith, p, answered, hit, h))
          | inr miss ↦ ground (arith, p, at.1, miss)
        ]
  ]

  -- While the database answers, an update brings no trip into it.
  pub update_trip_old :
      (status : String) (d : Option Driver) (j : String) (t : TripModel) (s : State)
      → db.IsUp s
      → lookup (update_trip db id status d s).1 j ≡ some t
      → (t' : TripModel) × (lookup s j ≡ some t')
  unfolding update_trip
  update_trip_old status d j t s up e = elim (Result-cases (db.object_id_from_hex id)) [
    | inr (x, p) ↦ (t, ground (arith, p, e))
    | inl (x, p) ↦
        let f : Filter = build_trip_update_filter x status in
        let c : Change = record { status = status; driver = d } in
        let at = laws.update_done f c j _ s (laws.up_update f c s up) in
        elim (Option-cases (lookup s j)) [
          | inr (t', q) ↦ (t', q)
          | inl q ↦
              absurd (ground (arith, p, e, q, at.1, laws.up_update f c s up, updated-none status d))
        ]
  ]

  -- A read that answers gives the trip of its identifier, where the text is in the form that the
  -- database gives to identifiers.
  pub get_trip_by_id_ok :
      (s : State)
      → ((c : String) → db.object_id_from_hex id ≡ ok c → c ≡ id)
      → (o : Option TripModel) → (get_trip_by_id db id s).0 ≡ ok o
      → o ≡ lookup s id
  unfolding get_trip_by_id
  get_trip_by_id_ok s canonical o h = elim (Result-cases (db.object_id_from_hex id)) [
    | inr (e, p) ↦ absurd (ground (arith, p))
    | inl (x, p) ↦ elim (Result-cases (db.find_one x s).0) [
      | inr (e, q) ↦ absurd (ground (arith, p, q))
      | inl (t, q) ↦ ground (arith, p, q, canonical x p, laws.find_hit x s t q)
    ]
  ]
