-- ===== src/Tests/Containers.antt =====
-- A small container: src/resource/container.rs.
use sim_core.Base.{◌≡◌, refl, true, false, List, [], ◌∷◌, some, arith}
use sim_core.Float.Sample.{naturals, naturals-IsIeee}
use sim_core.Executor.Waker.{make_waker}
use sim_core.Container
use sim_core.Container.{World, Waiter, ContainerState, cascade, get_fits, is_done, is_canceled}
use sim_core.Container.Requests.{
  ContainerRequest, Op, System, gets, puts, requests, polls, drops, run, start, drop, fresh_flags,
}
use sim_core.Container.Cascade.{quiet, Cascaded, cascade_total}
use sim_core.Container.Level.{level_bounds}
use sim_core.Container.Quiet.{drop_strands}

abbrev no_cells : World
no_cells = record { flags = record { next = 0; cell = λ a. fresh_flags }; ready_queue = [] }

-- A tank of 10 that holds 4.
abbrev tank : ContainerState naturals
tank = record { capacity = 10; level = 4; get_waiters = []; put_waiters = [] }

-- Process 0 waits for 8, process 1 for 2 behind it, and process 2 puts 5.
abbrev traffic : List (Op naturals)
traffic =
    requests gets 8
    ∷ polls 0 (make_waker 0)
    ∷ requests gets 2
    ∷ polls 1 (make_waker 1)
    ∷ requests puts 5
    ∷ polls 2 (make_waker 2)
    ∷ drops 2
    ∷ []

abbrev after_traffic : System naturals
after_traffic = run naturals traffic (start naturals tank no_cells)

level_bounds_example :
    (after_traffic.state.capacity ≡ 10)
    × (naturals.le 0 after_traffic.state.level ≡ true)
    × (naturals.le after_traffic.state.level 10 ≡ true)
unfolding Container.new
level_bounds_example = level_bounds naturals naturals-IsIeee 10 4 tank no_cells traffic refl refl

-- Process 0 waits for 8 and process 1 for 2, with 4 in the tank.
abbrev first_waiter : Waiter naturals
first_waiter = record { amount = 8; waker = make_waker 0; flags = 0 }

abbrev second_waiter : Waiter naturals
second_waiter = record { amount = 2; waker = make_waker 1; flags = 1 }

abbrev blocked : ContainerState naturals
blocked = record {
  capacity = 10;
  level = 4;
  get_waiters = first_waiter ∷ second_waiter ∷ [];
  put_waiters = [];
}

abbrev two_cells : World
two_cells = record { flags = record { next = 2; cell = λ a. fresh_flags }; ready_queue = [] }

abbrev first_request : ContainerRequest naturals
first_request = record { amount = 8; registered = true; flags = 0 }

drop_strands_example :
    (quiet naturals
        (get_fits naturals)
        (drop naturals first_request two_cells)
        4
        blocked.get_waiters
      ≡ false)
    × ((drop naturals first_request two_cells).ready_queue ≡ [])
    × (is_done (drop naturals first_request two_cells) 1 ≡ false)
drop_strands_example =
    drop_strands naturals blocked two_cells first_request first_waiter second_waiter [] refl refl
      refl refl (omega arith) refl refl refl

-- The cascade after 5 more have come.
cascade_total_example :
    (r : ContainerState naturals × World) × (cascade naturals 3
        (record blocked { level = 9 })
        two_cells
      ≡ some r)
    × Cascaded naturals (record blocked { level = 9 }) two_cells r
cascade_total_example =
    cascade_total naturals 3 (record blocked { level = 9 }) two_cells (omega arith)
