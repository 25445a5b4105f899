-- ===== src/Timeout/Calls.antt =====
-- src/timeout.rs: a poll of a timeout by the calls that it makes, as a process's poll reports them.
use sim_core.Base.{
  ◌≡◌, refl, Bool, true, false, ◌&&◌, List, [], ◌∷◌, Option, none, some, if◌then◌else◌,
}
use sim_core.Float.{Float}
use sim_core.Executor.Waker.{SimWaker}
use sim_core.Executor.State.{SimState, schedule_wakeup}
use sim_core.Env.{ok, ◌>>=◌, or_panic, Call, schedules, perform, perform_all}
use sim_core.Timeout.{Timeout, Polled, poll, scheduling}

module _ (f : Float) where
  open f use {F, le, add, is_finite}

  -- `EnvHandle::timeout` at this time.
  unfoldable pub timeout_at : F → F → Option (Timeout f)
  timeout_at now delay =
      if le f.zero delay && is_finite delay
      then some (record { deadline = add now delay; scheduled = false })
      else none

  unfoldable pub is_due : F → Timeout f → Bool
  is_due now t = t.scheduled && le t.deadline now

  abbrev pub marked : Timeout f → Timeout f
  marked t = record t { scheduled = true }

  module _ {P : Type 0} where
    -- The calls of a poll, at this time, of a timeout that is not due.
    unfoldable pub poll_calls : SimWaker → Timeout f → List (Call f P)
    poll_calls waker t = if t.scheduled then [] else schedules t.deadline waker ∷ []

    abbrev polled : Bool → Timeout f → SimState f P → Polled f P
    polled ready t s = record { ready = ready; future = t; state = s }

    -- A poll of a timeout is ready and makes no calls when the timeout is due. Otherwise it is
    -- pending, is marked as scheduled, and does what its calls do: it panics when one of them does.
    pub poll-calls :
        (debug : Bool) (t : Timeout f) (waker : SimWaker) (s : SimState f P)
        → or_panic (poll f debug t waker s) ≡ (
            if is_due s.current_time t
            then ok (polled true t s)
            else (perform_all f P debug (poll_calls waker t) s >>= λ s'.
                ok (polled false (marked t) s')))
    unfolding poll is_due poll_calls perform_all perform
    poll-calls debug t waker s = cases t.scheduled (le t.deadline s.current_time)
      where
        scheduled :
            (u : Timeout f) (o : Option (SimState f P))
            → or_panic (scheduling f u o)
              ≡ (or_panic o >>= (λ s'. ok s') >>= λ s'. ok (polled false (marked u) s'))
        scheduled u none = refl
        scheduled u (some s') = refl

        cases :
            (b c : Bool)
            → let u : Timeout f = record { deadline = t.deadline; scheduled = b } in
              or_panic (
                if b && c
                then some (polled true u s)
                else (if b
                    then some (polled false u s)
                    else scheduling f u (schedule_wakeup f debug t.deadline waker s)))
              ≡ (if b && c
                  then ok (polled true u s)
                  else (perform_all f P debug (if b then [] else schedules t.deadline waker ∷ []) s
                      >>= λ s'. ok (polled false (marked u) s')))
        cases true true = refl
        cases true false = refl
        cases false c =
            scheduled (record { deadline = t.deadline; scheduled = false })
              (schedule_wakeup f debug t.deadline waker s)
