-- ===== src/Allocator/Workers.antt =====
-- The worker goroutines of internal/allocator/allocator.go. A request waits in the channel `workers`,
-- which holds a thousand; a worker takes the oldest and then allocates under the allocator's mutex, so
-- that requests may be taken in one order and run in another. A request is told by its result channel.
pub mod Serving
pub mod Finishing
use memory3d.Prelude.{
  ℕ, zero, suc, ◌+◌, Bool, true, false, Option, none, some, List, [], ◌∷◌, ◌++◌, ltb, ◌&&◌, not,
  if◌then◌else◌, length, get_elem?,
}
use memory3d.Allocator.State.{Allocator3D, Result, got, nothing, panicked, failed}
use memory3d.Allocator.Sync.{do_allocate}

pub record AllocRequest : Type 0 where
  pub size : ℕ
  pub region_type : ℕ
  pub flags : ℕ
  pub result : ℕ

-- The allocator with its channel, the requests that workers have taken and not yet run, and what
-- was sent to the result channels, the latest first. `workers` is the number of goroutines started.
pub record Pool : Type 0 where
  pub allocator : Allocator3D
  pub queue : List AllocRequest
  pub taken : List AllocRequest
  pub answers : List (ℕ × Result)
  pub is_open : Bool
  pub workers : ℕ

-- startWorkers: nothing waits and nothing is taken.
unfoldable pub start_workers : Allocator3D → Pool
start_workers a = record {
  allocator = a;
  queue = [];
  taken = [];
  answers = [];
  is_open = true;
  workers = a.config.worker_count;
}

-- How an attempt to send ends: in the channel, not at all where it is full, or, on a closed channel,
-- in a panic.
pub data Sent : Type 0 where
  queued : Pool → Sent
  full send_panics : Sent

unfoldable pub send_request : Pool → AllocRequest → Sent
send_request p r =
    if not p.is_open
    then send_panics
    else if ltb (length p.queue) 1000
    then queued (record p { queue = p.queue ++ r ∷ [] })
    else full

-- Shutdown. `none` is the panic of closing a closed channel.
unfoldable pub shutdown : Pool → Option Pool
shutdown p = if p.is_open then some (record p { is_open = false }) else none

-- Whether the allocator runs workers.
abbrev pub is_concurrent : Allocator3D → Bool
is_concurrent a = a.config.enable_concurrent

-- The request run, at a time: the allocator after it, and the answer.
unfoldable pub run_request : ℕ → Allocator3D → AllocRequest → Allocator3D × Result
run_request now a r = do_allocate now a r.size r.region_type r.flags

unfoldable pub take_oldest : Pool → List AllocRequest → Option Pool
take_oldest p [] = none
take_oldest p (r ∷ rs) = some (record p { queue = rs; taken = p.taken ++ r ∷ [] })

unfoldable pub remove_at : ℕ → List AllocRequest → List AllocRequest
remove_at place [] = []
remove_at zero (r ∷ rs) = rs
remove_at (suc place) (r ∷ rs) = r ∷ remove_at place rs

-- A worker without a request takes the oldest that waits, if there is one. A closed channel gives out
-- what it still holds.
unfoldable pub take_request : Pool → Option Pool
take_request p = if ltb (length p.taken) p.workers then take_oldest p p.queue else none

-- A worker's step: the pool after it, none to make, or the end of the process, since no worker
-- recovers from a run-time panic.
pub data Worked : Type 0 where
  worked : Pool → Worked
  none_taken dies : Worked

-- The request at that place is done, and its result sent. A nil pointer without an error panics when
-- its address is read.
unfoldable pub deliver : Pool → ℕ → AllocRequest → Allocator3D × Result → Worked
deliver p place r (a, panicked) = dies
deliver p place r (a, nothing) = dies
deliver p place r (a, got ptr) = worked (record p {
  allocator = a;
  taken = remove_at place p.taken;
  answers = (r.result, got ptr) ∷ p.answers;
})
deliver p place r (a, failed e) = worked (record p {
  allocator = a;
  taken = remove_at place p.taken;
  answers = (r.result, failed e) ∷ p.answers;
})

-- A worker runs the request at that place among those taken, and answers it.
unfoldable pub run_taken : ℕ → Pool → ℕ → Worked
run_taken now p place = elim (get_elem? p.taken place) [
  | none ↦ none_taken
  | some r ↦ deliver p place r (run_request now p.allocator r)
]
