-- ===== src/Fake/Documents.antt =====
-- A collection of trips that answers exactly while it is up, with every text a valid identifier.
use mygo_microservices.Prelude.{
  ℕ, String, ◌≡◌, refl, Bool, true, Option, none, some, ◌==◌, ◌&&◌, if◌then◌else◌, arith,
}
use mygo_microservices.Go.{no_documents, external, Result, ok, err, Exec}
use mygo_microservices.Trip.Domain.{TripModel, updated}
use mygo_microservices.Trip.Repository.{Filter, Change, matches, Collection, CollectionLaws}

pub record Trips : Type 0 where
  pub document : String → Option TripModel
  pub up : Bool

abbrev when_up : {A : Type 0} → Trips → Result A → Trips → Result A × Trips
when_up t r t' = if t.up then (r, t') else (err (external "no reachable servers"), t)

abbrev found : Option TripModel → Result TripModel
found none = err no_documents
found (some t) = ok t

abbrev insert_one : TripModel → Exec Trips String
insert_one t s =
    when_up s (ok t.id) (record s { document = λ j. if t.id == j then some t else s.document j })

abbrev update_one : Filter → Change → Exec Trips ℕ
update_one f c s =
    let hit = matches f.status (s.document f.id) in
    when_up s (ok (if hit then 1 else 0)) (record s {
      document =
          λ j. if hit && f.id == j then updated c.status c.driver (s.document j) else s.document j;
    })

abbrev pub documents : Collection
documents = record {
  State = Trips;
  IsUp = λ s. s.up ≡ true;
  lookup = λ s. s.document;
  object_id_from_hex = λ id. ok id;
  insert_one = insert_one;
  find_one = λ id s. when_up s (found (s.document id)) s;
  update_one = update_one;
}

pub documents_laws : CollectionLaws documents
documents_laws = record {
  stored_valid = λ id s t e. refl;
  find_hit = λ id s t. ground arith;
  find_keeps = λ id j s. ground arith;
  update_done = λ f c j n s. ground arith;
  update_lost = λ f c e s. ground arith;
  update_keeps = λ f c j s. ground arith;
  up_find = λ id s t. ground arith;
  up_find_none = λ id s. ground arith;
  up_update = λ f c s. ground arith;
  find-IsUp = λ id s. ground arith;
  update-IsUp = λ f c s. ground arith;
}
