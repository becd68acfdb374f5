-- ===== src/Drivers/Movement.antt =====
-- services/driver-service/service.go: the background tasks that move the drivers. A goroutine and the
-- calls that start and stop it run in parallel: each definition here is a piece that nothing interrupts,
-- and `Step` interleaves the pieces.
pub mod Laws
pub mod Whole
use mygo_microservices.Prelude.{
  ℕ, suc, ◌+◌, ◌%◌, String, ◌≡◌, ◌⊎◌, Bool, true, false, Option, none, some, List, [], ◌∷◌, length,
  ◌==◌, ◌=ℕ=◌, ◌||◌, if◌then◌else◌, is_empty,
}
use mygo_microservices.Trip.Domain.{Float64}
use mygo_microservices.Drivers.Routes.{Point, Route, index}

-- A goroutine that is not yet started, that is at its next point, or that has closed `done`.
pub data Phase : Type 0 where
  absent waiting finished : Phase
  running : ℕ → Phase

-- The `driverMovementTask` of a number: its goroutine's arguments, whether it was cancelled, the task
-- that `startDriverMovement` has to wait for first, and whether some call is waiting for it.
pub record Task : Type 0 where
  pub driver_id : String
  pub package_slug : String
  pub route : Route
  pub phase : Phase
  pub cancelled : Bool
  pub previous : Option ℕ
  pub awaited : Bool

-- `driverMovements`, and the tasks that were ever made.
pub record Movements : Type 0 where
  pub current : String → Option ℕ
  pub task : ℕ → Task
  pub count : ℕ

-- A task that has no goroutine.
abbrev pub no_task : Task
no_task = record {
  driver_id = "";
  package_slug = "";
  route = [];
  phase = absent;
  cancelled = false;
  previous = none;
  awaited = false;
}

-- `NewService`
abbrev pub no_movements : Movements
no_movements = record { current = λ d. none; task = λ n. no_task; count = 0 }

abbrev pub is_task : Option ℕ → ℕ → Bool
is_task none n = false
is_task (some k) n = k =ℕ= n

abbrev pub set_awaited : Option ℕ → Bool → (ℕ → Task) → ℕ → Task
set_awaited o b task n = if is_task o n then record (task n) { awaited = b } else task n

-- The locked section of `startDriverMovement`: the new task takes the place of the driver's old one.
unfoldable pub lock_start : String → String → Route → Movements → Movements
lock_start d p r m = record {
  current = λ e. if d == e then some m.count else m.current e;
  task = λ n.
      if n =ℕ= m.count
      then record {
        driver_id = d;
        package_slug = p;
        route = r;
        phase = waiting;
        cancelled = false;
        previous = m.current d;
        awaited = false;
      }
      else set_awaited (m.current d) true m.task n;
  count = suc m.count;
}

-- `task.cancel()`
unfoldable pub cancel : ℕ → Movements → Movements
cancel k m = record m {
  task = λ n. if n =ℕ= k then record (m.task n) { cancelled = true } else m.task n;
}

-- `go func`, after `<-previousTask.done`: the first point after the start of the route is next.
unfoldable pub spawn : ℕ → Movements → Movements
spawn k m = record m {
  task = λ n.
      if n =ℕ= k
      then record (m.task n) { phase = running 1 }
      else set_awaited (m.task k).previous false m.task n;
}

-- The goroutine sees that it is cancelled, returns, and closes `done`.
unfoldable pub quit : ℕ → Movements → Movements
quit k m = record m {
  task = λ n. if n =ℕ= k then record (m.task n) { phase = finished } else m.task n;
}

-- A tick of the goroutine's timer moves it on.
unfoldable pub tick : ℕ → ℕ → Movements → Movements
tick k i m = record m {
  task = λ n. if n =ℕ= k then record (m.task n) { phase = running (suc i) } else m.task n;
}

-- The locked section of `stopDriverMovement`.
unfoldable pub lock_stop : String → Movements → Movements
lock_stop d m = record m {
  current = λ e. if d == e then none else m.current e;
  task = set_awaited (m.current d) true m.task;
}

-- `stopDriverMovement` returns.
unfoldable pub leave : ℕ → Movements → Movements
leave k m = record m { task = set_awaited (some k) false m.task }

abbrev pub IsDone : Movements → Option ℕ → Type 0
IsDone m none = Unit
IsDone m (some k) = (m.task k).phase ≡ finished

-- Everything that can happen next: calls of other goroutines start and stop tasks at any moment.
pub data Step (m : Movements) : Movements → Type 0 where
  started : (d p : String) (r : Route) → Step m (lock_start d p r m)
  cancelling : (k : ℕ) → (m.task k).awaited ≡ true → Step m (cancel k m)
  spawned : (k : ℕ) → (m.task k).phase ≡ waiting → IsDone m (m.task k).previous → Step m (spawn k m)
  ticked : (k i : ℕ) → (m.task k).phase ≡ running i → Step m (tick k i m)
  quitted :
      (k i : ℕ) → (m.task k).phase ≡ running i → (m.task k).cancelled ≡ true → Step m (quit k m)
  stopping : (d : String) → Step m (lock_stop d m)
  left : (k : ℕ) → (m.task k).awaited ≡ true → (m.task k).phase ≡ finished → Step m (leave k m)

-- What can happen from the start of the service.
pub data Reachable : Movements → Type 0 where
  fresh : Reachable no_movements
  after : {m m' : Movements} → Reachable m → Step m m' → Reachable m'

-- The whole of `startDriverMovement` and of `stopDriverMovement`, where no other call interferes: the
-- cancelled goroutine returns while the call waits for it.
unfoldable pub settle : Option ℕ → Movements → Movements
settle none m = m
settle (some k) m = quit k (cancel k m)

unfoldable pub start_driver_movement : String → String → Route → Movements → Movements
start_driver_movement d p r m =
    if is_empty d || is_empty p || (length r =ℕ= 0)
    then m
    else spawn m.count (settle (m.current d) (lock_start d p r m))

unfoldable pub stop_driver_movement : String → Movements → Bool × Movements
stop_driver_movement d m = if is_empty d then (false, m) else elim (m.current d) [
  | none ↦ (false, lock_stop d m)
  | some k ↦ (true, leave k (settle (some k) (lock_stop d m)))
]

-- The point that a tick writes: the next one, around the route, unless it lacks a coordinate.
unfoldable pub coordinates : Option Point → Option (Float64 × Float64)
coordinates (some (lat ∷ lng ∷ rest)) = some (lat, lng)
coordinates (some (lat ∷ [])) = none
coordinates (some []) = none
coordinates none = none

unfoldable pub tick_point : Route → ℕ → Option (Float64 × Float64)
unfolding coordinates
tick_point [] i = none
tick_point (p ∷ ps) i = coordinates (index (i % length (p ∷ ps)) (p ∷ ps))
