-- ===== src/Env/Conservation/Calls.antt =====
-- src/env.rs: one poll of a process, with the slots of all processes and what they hold.
use sim_core.Base.{
  ℕ, ◌+◌, ◌≤◌, ◌<◌, ◌≡◌, refl, ◌∙◌, Bool, true, false, not, ◌&&◌, List, [], ◌∷◌, Option, none, some,
  arith, wrap_suc, u64_mod, if◌then◌else◌,
}
use sim_core.Float.{Float}
use sim_core.Executor.State.{
  SimState, ScheduledWaker, event_ord, schedule_wakeup, alloc_process_id, in_future,
}
use sim_core.Heap.{push}
use sim_core.Env.{or_panic, Call, schedules, spawns, wakes, panics, spawn, perform, perform_all}
use sim_core.Env.Results.{Ensures, Ensures-bind, Ensures-imp}
use sim_core.Env.Conservation.Slots.{holding, in_pending-append, occupied, named, named-append}

module _ (f : Float) (P : Type 0) where
  -- What the spawned processes of some calls hold.
  module _ (v : P → ℕ) where
    abbrev pub in_calls : List (Call f P) → ℕ
    in_calls [] = 0
    in_calls (spawns p ∷ cs) = v p + in_calls cs
    in_calls (_ ∷ cs) = in_calls cs

    abbrev pub in_left : Option P → ℕ
    in_left none = 0
    in_left (some p) = v p

    in_calls-cons :
        (c : Call f P) (cs : List (Call f P)) → in_calls (c ∷ cs) ≡ in_calls (c ∷ []) + in_calls cs
    in_calls-cons (schedules time waker) cs = omega arith
    in_calls-cons (spawns p) cs = omega arith
    in_calls-cons (wakes w) cs = omega arith
    in_calls-cons panics cs = omega arith

  -- Whether a poll panics.
  abbrev pub fails : List (Call f P) → Bool
  fails [] = false
  fails (panics ∷ cs) = true
  fails (_ ∷ cs) = fails cs

  fails-cons :
      (debug : Bool) (c : Call f P) (cs : List (Call f P)) (s : SimState f P)
      → fails (c ∷ cs) ≡ true
      → Ensures (λ (s' : SimState f P). fails cs ≡ true) (or_panic (perform f P debug c s))
  unfolding perform
  fails-cons debug (schedules time waker) cs s h = go (schedule_wakeup f debug time waker s)
    where
      go :
          (o : Option (SimState f P))
          → Ensures (λ (s' : SimState f P). fails cs ≡ true) (or_panic o)
      go none = tt
      go (some s') = h
  fails-cons debug (spawns p) cs s h = h
  fails-cons debug (wakes w) cs s h = h
  fails-cons debug panics cs s h = tt

  pub perform_all-fails :
      (debug : Bool) (cs : List (Call f P)) (s : SimState f P)
      → fails cs ≡ true
      → Ensures (λ (s' : SimState f P). ⊥) (perform_all f P debug cs s)
  unfolding perform_all
  perform_all-fails debug [] s h = cc
  perform_all-fails debug (c ∷ cs) s h =
      Ensures-bind (λ s'. fails cs ≡ true) (λ s'. ⊥) (or_panic (perform f P debug c s))
        (perform_all f P debug cs) (fails-cons debug c cs s h)
        (λ s' h'. perform_all-fails debug cs s' h')

  -- No id is taken twice or ahead of its turn: `hand a` counts the id of a process that is out of
  -- its slot. `children` bounds the processes that one can still spawn, with all those that they
  -- spawn in turn, and `more` those that are to come from elsewhere; ids do not run out.
  pub record IsAllotted (children : P → ℕ) (hand : ℕ → ℕ) (more : ℕ) (s : SimState f P)
      : Type 0 where
    pub once : (a : ℕ) → occupied f P a s.processes + named f P a s.pending_spawns + hand a ≤ 1
    pub known :
        (a : ℕ)
        → s.next_process_id ≤ a
        → occupied f P a s.processes + named f P a s.pending_spawns + hand a ≡ 0
    pub room : s.next_process_id + holding f P children s + more < u64_mod

  module _ (children v : P → ℕ) (hand : ℕ → ℕ) where
    pub less-to-come :
        (more fewer : ℕ) (s : SimState f P)
        → fewer ≤ more
        → IsAllotted children hand more s
        → IsAllotted children hand fewer s
    less-to-come more fewer s le h = record {
      once = h.once;
      known = h.known;
      room = omega (arith, h.room);
    }

    -- After calls from a state: `more` is still to come.
    pub record Called (more held : ℕ) (s s' : SimState f P) : Type 0 where
      pub allotted : IsAllotted children hand more s'
      pub same : s'.processes ≡ s.processes
      pub holds : holding f P v s' ≡ held

    pub spawn-Called :
        (p : P) (s : SimState f P) (more : ℕ)
        → IsAllotted children hand (children p + 1 + more) s
        → Called more (holding f P v s + v p) s (spawn f P p s)
    unfolding spawn alloc_process_id
    spawn-Called p s more h = record {
      allotted = record {
        once = λ a. ground (
          arith,
          h.once a,
          h.known a,
          named-append f P a s.pending_spawns ((s.next_process_id, p) ∷ []),
        );
        known = λ a le. ground (
          arith,
          h.known a,
          h.room,
          named-append f P a s.pending_spawns ((s.next_process_id, p) ∷ []),
        );
        room = omega (
          arith,
          h.room,
          in_pending-append f P children s.pending_spawns ((s.next_process_id, p) ∷ []),
        );
      };
      same = refl;
      holds = omega (arith, in_pending-append f P v s.pending_spawns ((s.next_process_id, p) ∷ []));
    }

    perform-Called :
        (debug : Bool) (c : Call f P) (s : SimState f P) (more : ℕ)
        → IsAllotted children hand (in_calls (λ p. children p + 1) (c ∷ []) + more) s
        → Ensures
            (Called more (holding f P v s + in_calls v (c ∷ [])) s)
            (or_panic (perform f P debug c s))
    unfolding perform schedule_wakeup
    perform-Called debug (schedules time waker) s more h = go (debug && not (in_future f time s))
      where
        e : ScheduledWaker f
        e = record { time = time; seq = s.seq_counter; waker = waker }

        go :
            (b : Bool)
            → Ensures (Called more (holding f P v s + 0) s) (
                or_panic (
                  if b
                  then none
                  else some (record s {
                    seq_counter = wrap_suc s.seq_counter;
                    event_queue = push ⦃o = event_ord f⦄ e s.event_queue;
                  })))
        go true = tt
        go false = record {
          allotted = record { once = h.once; known = h.known; room = omega (arith, h.room) };
          same = refl;
          holds = omega arith;
        }
    perform-Called debug (spawns p) s more h =
        let c = spawn-Called p s more (less-to-come _ _ s (omega arith) h) in
        record { allotted = c.allotted; same = c.same; holds = omega (arith, c.holds) }
    perform-Called debug (wakes w) s more h = record {
      allotted = record { once = h.once; known = h.known; room = omega (arith, h.room) };
      same = refl;
      holds = omega arith;
    }
    perform-Called debug panics s more h = tt

    pub perform_all-Called :
        (debug : Bool) (cs : List (Call f P)) (s : SimState f P) (more : ℕ)
        → IsAllotted children hand (in_calls (λ p. children p + 1) cs + more) s
        → Ensures (Called more (holding f P v s + in_calls v cs) s) (perform_all f P debug cs s)
    unfolding perform_all
    perform_all-Called debug [] s more h = record {
      allotted = less-to-come _ more s (omega arith) h;
      same = refl;
      holds = omega arith;
    }
    perform_all-Called debug (c ∷ cs) s more h =
        Ensures-bind
          (Called (in_calls (λ p. children p + 1) cs + more) (holding f P v s + in_calls v (c ∷ []))
            s)
          (Called more (holding f P v s + in_calls v (c ∷ cs)) s) (or_panic (perform f P debug c s))
          (perform_all f P debug cs)
          (perform-Called debug c s (in_calls (λ p. children p + 1) cs + more)
            (less-to-come _ _ s (omega (arith, in_calls-cons (λ p. children p + 1) c cs)) h))
          (λ s' d. after s' d (perform_all-Called debug cs s' more d.allotted))
      where
        after :
            (s' : SimState f P)
            → Called
                (in_calls (λ p. children p + 1) cs + more)
                (holding f P v s + in_calls v (c ∷ []))
                s
                s'
            → Ensures
                (Called more (holding f P v s' + in_calls v cs) s')
                (perform_all f P debug cs s')
            → Ensures
                (Called more (holding f P v s + in_calls v (c ∷ cs)) s)
                (perform_all f P debug cs s')
        after s' d = Ensures-imp _ _ (perform_all f P debug cs s') (λ s'' e. record {
          allotted = e.allotted;
          same = e.same ∙ d.same;
          holds = omega (arith, e.holds, d.holds, in_calls-cons v c cs);
        })
