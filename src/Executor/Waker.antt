-- ===== src/Executor/Waker.antt =====
-- src/executor/waker.rs: a waker is the id of its process, and waking it appends that id to the
-- ready queue that all wakers of an environment share.
use sim_core.Base.{ℕ, List, [], ◌∷◌, ◌++◌, ◌==◌, Bool}

pub record SimWaker : Type 0 where
  pub process_id : ℕ

abbrev pub make_waker : ℕ → SimWaker
make_waker id = record { process_id = id }

abbrev pub wake_by_ref : SimWaker → List ℕ → List ℕ
wake_by_ref w ready_queue = ready_queue ++ w.process_id ∷ []

-- `Waker::will_wake`: one waker is cached for each process, so two of one process are the same.
abbrev pub will_wake : SimWaker → SimWaker → Bool
will_wake v w = v.process_id == w.process_id
