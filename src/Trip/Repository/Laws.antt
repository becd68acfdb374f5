-- ===== src/Trip/Repository/Laws.antt =====
-- The conditional update is a compare-and-set: a trip is accepted at most once.
use mygo_microservices.Prelude.{
  ℕ, ◌+◌, ◌≤◌, String, ◌≡◌, refl, true, false, Option, none, some, ◌⊎◌, inl, inr, List, [], ◌∷◌,
  arith, ◌==◌, eq_refl, ap, ◌∙◌,
}
use mygo_microservices.Go.{Error, Result, ok, err, Result-cases}
use mygo_microservices.Trip.Domain.{TripModel, Driver, accepted, updated, movable}
use mygo_microservices.Trip.Repository.{
  Filter, Change, Collection, CollectionLaws, matches, build_trip_update_filter, update_trip,
}

-- The filter matches exactly the trips that may move.
pub matches-movable :
    (id status : String) (o : Option TripModel)
    → matches (build_trip_update_filter id status).status o ≡ movable status o
unfolding matches build_trip_update_filter movable
matches-movable id status none = refl
matches-movable id status (some t) = ground arith

module _ (db : Collection) (laws : CollectionLaws db) (id status : String) (d : Option Driver)
    (valid : db.object_id_from_hex id ≡ ok id) (s : db.State) where
  open db use {lookup}

  abbrev filter : Filter
  filter = build_trip_update_filter id status

  abbrev change : Change
  change = record { status = status; driver = d }

  -- For a valid identifier, an update that returns no error found a trip that may move to the new
  -- status, wrote the status and the driver there, and left every other trip alone.
  pub update_trip_ok :
      (update_trip db id status d s).0 ≡ ok tt
      → (movable status (lookup s id) ≡ true)
        × (lookup (update_trip db id status d s).1 id ≡ updated status d (lookup s id))
        × ((j : String)
            → (id == j) ≡ false
            → lookup (update_trip db id status d s).1 j ≡ lookup s j)
  unfolding update_trip
  update_trip_ok h = elim (Result-cases (db.update_one filter change s).0) [
    | inr (e, p) ↦ absurd (ground (arith, p))
    | inl (n, p) ↦
        let at = laws.update_done filter change id n s p in
        let same = matches-movable id status (lookup s id) in
        (
          ground (arith, at, same),
          ground (arith, at, same, eq_refl id),
          λ j other. ground (arith, laws.update_keeps filter change j s other),
        )
  ]

  -- One that returns an error wrote the same, or left the trip alone.
  pub update_trip_err :
      (e : Error)
      → (update_trip db id status d s).0 ≡ err e
      → (lookup (update_trip db id status d s).1 id ≡ lookup s id)
        ⊎ ((movable status (lookup s id) ≡ true)
            × (lookup (update_trip db id status d s).1 id ≡ updated status d (lookup s id)))
  unfolding update_trip
  update_trip_err x h = elim (Result-cases (db.update_one filter change s).0) [
    | inr (e, p) ↦
        ground
          (arith, laws.update_lost filter change e s p, matches-movable id status (lookup s id))
    | inl (n, p) ↦
        let at = laws.update_done filter change id n s p in
        let same = matches-movable id status (lookup s id) in
        inl (ground (arith, at, same, eq_refl id))
  ]

  pub up_update_trip :
      db.IsUp s
      → movable status (lookup s id) ≡ true
      → ((update_trip db id status d s).0 ≡ ok tt) × db.IsUp (update_trip db id status d s).1
  unfolding update_trip
  up_update_trip up may = ground (
    arith,
    laws.up_update filter change s up,
    laws.update-IsUp filter change s up,
    matches-movable id status (lookup s id),
  )

pub updated-none : (status : String) (d : Option Driver) → updated status d none ≡ none
unfolding updated
updated-none status none = refl
updated-none status (some d) = refl

-- Attempts to take one trip, in the order in which they reach the database. Between two attempts
-- anything may happen to the trip but a return to `pending`, such as a payment.
module _ (db : Collection) (laws : CollectionLaws db) (id : String)
    (valid : db.object_id_from_hex id ≡ ok id) where
  open db use {State, lookup}

  -- No step of the world outside makes the trip pending again.
  abbrev pub Interferes : (State → State) → Type 0
  Interferes f =
      (s : State)
      → movable accepted (lookup s id) ≡ false
      → movable accepted (lookup (f s) id) ≡ false

  abbrev won : Result (Unit {0}) → ℕ
  won (ok u) = 1
  won (err e) = 0

  -- How many of the attempts succeed.
  pub winners : List (Driver × (State → State)) → State → ℕ
  winners [] s = 0
  winners ((d, between) ∷ rest) s =
      let (r, s') = update_trip db id accepted (some d) s in won r + winners rest (between s')

  abbrev AllInterfere : List (Driver × (State → State)) → Type 0
  AllInterfere [] = Unit
  AllInterfere ((d, between) ∷ rest) = Interferes between × AllInterfere rest

  taken :
      (d : Option Driver) (o : Option TripModel) → movable accepted (updated accepted d o) ≡ false
  unfolding movable updated
  taken none none = refl
  taken (some d) none = refl
  taken none (some t) = refl
  taken (some d) (some t) = refl

  -- A trip that is taken refuses every further attempt, and stays taken.
  stays_taken :
      (d : Driver) (s : State)
      → movable accepted (lookup s id) ≡ false
      → (won (update_trip db id accepted (some d) s).0 ≡ 0)
        × (movable accepted (lookup (update_trip db id accepted (some d) s).1 id) ≡ false)
  stays_taken d s h = elim (Result-cases (update_trip db id accepted (some d) s).0) [
    | inl (u, p) ↦ absurd (ground (arith, update_trip_ok db laws id accepted (some d) valid s p))
    | inr (e, p) ↦ (rw p, ground (arith, update_trip_err db laws id accepted (some d) valid s e p))
  ]

  winners_taken :
      (ds : List (Driver × (State → State))) (s : State)
      → AllInterfere ds
      → movable accepted (lookup s id) ≡ false
      → winners ds s ≡ 0
  unfolding winners
  winners_taken [] s fair h = refl
  winners_taken ((d, between) ∷ rest) s fair h =
      let t : State = (update_trip db id accepted (some d) s).1 in
      omega (
        arith,
        (stays_taken d s h).0,
        winners_taken rest (between t) fair.1 (fair.0 t (stays_taken d s h).1),
      )

  -- However many drivers try to take a trip with a valid identifier, in whatever order, with
  -- failures and with anything in between that does not make the trip pending again, at most one of
  -- the updates succeeds.
  pub at_most_one_winner :
      (ds : List (Driver × (State → State))) (s : State) → AllInterfere ds → winners ds s ≤ 1
  unfolding winners
  at_most_one_winner [] s fair = omega arith
  at_most_one_winner ((d, between) ∷ rest) s fair =
      let t : State = (update_trip db id accepted (some d) s).1 in
      elim (Result-cases (update_trip db id accepted (some d) s).0) [
        | inl (u, p) ↦
            let now : movable accepted (lookup t id) ≡ false =
              ap (movable accepted) (update_trip_ok db laws id accepted (some d) valid s p).1
              ∙ taken (some d) (lookup s id) in
            omega (arith, ap won p, winners_taken rest (between t) fair.1 (fair.0 t now))
        | inr (e, p) ↦ omega (arith, ap won p, at_most_one_winner rest (between t) fair.1)
      ]
