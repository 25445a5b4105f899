-- ===== src/Env/Effects.antt =====
-- src/env.rs: what a poll of a process does to the slots, the ready queue and the events.
pub mod Entry
use sim_core.Base.{
  ℕ, zero, suc, ◌+◌, ◌-◌, ◌<◌, ◌≤◌, ◌≡◌, ◌≢◌, refl, sym, ap, ◌∙◌, ◌⊎◌, inl, inr, Bool, true, false,
  not, ◌&&◌, List, [], ◌∷◌, ◌++◌, Option, none, some, arith, length, length-set, length-append,
  get_elem?, set, leb, if◌then◌else◌, ◌==◌, wrap_suc, u64_mod, Bool-cases,
}
use sim_core.Heap.{push, HeapOrd}
use sim_core.Base.Order.{is_gt}
use sim_core.Float.{Float}
use sim_core.Executor.Waker.{SimWaker, make_waker}
use sim_core.Executor.State.{
  event_cmp, SimState, ScheduledWaker, ProcessEntry, event_ord, in_future, schedule_wakeup,
  alloc_process_id,
}
use sim_core.Env.{
  ok, ◌>>=◌, or_panic, Call, schedules, spawns, wakes, panics, spawn, perform, perform_all, nones,
  resize, admit, admit_all, ids, drain_pending_spawns, Program, Sim, Outcome, put_back, poll_entry,
}
use sim_core.Env.Results.{Ensures, Ensures-bind, Ensures-imp}

abbrev pub times : ℕ → List ℕ → ℕ
times x [] = 0
times x (y ∷ ys) = (if y == x then 1 else 0) + times x ys

pub times-append : (x : ℕ) (ys zs : List ℕ) → times x (ys ++ zs) ≡ times x ys + times x zs
times-append x [] zs = omega arith
times-append x (y ∷ ys) zs = omega (arith, times-append x ys zs)

module _ (f : Float) where
  -- An event that wakes this process at this time, which is a number.
  abbrev pub HasEvent : ℕ → f.F → List (ScheduledWaker f) → Type 0
  HasEvent x t [] = ⊥
  HasEvent x t (e ∷ es) =
      ((e.time ≡ t) × (e.waker.process_id ≡ x) × (f.is_finite t ≡ true)) ⊎ HasEvent x t es

  module _ (x : ℕ) (t : f.F) (e : ScheduledWaker f) where
    either :
        (b : Bool) (xs ys : List (ScheduledWaker f))
        → HasEvent x t xs
        → HasEvent x t ys
        → HasEvent x t (if b then xs else ys)
    either true xs ys h g = h
    either false xs ys h g = g

    push-old :
        (es : List (ScheduledWaker f))
        → HasEvent x t es
        → HasEvent x t (push ⦃o = event_ord f⦄ e es)
    unfolding push
    push-old [] h = elim h [ ]
    push-old (e' ∷ es) h =
        either (is_gt (event_cmp f e' e)) (e' ∷ push ⦃o = event_ord f⦄ e es) (e ∷ e' ∷ es)
          (elim h [ inl here ↦ inl here | inr there ↦ inr (push-old es there) ]) (inr h)

    push-new :
        (es : List (ScheduledWaker f))
        → (e.time ≡ t) × (e.waker.process_id ≡ x) × (f.is_finite t ≡ true)
        → HasEvent x t (push ⦃o = event_ord f⦄ e es)
    unfolding push
    push-new [] h = inl h
    push-new (e' ∷ es) h =
        either (is_gt (event_cmp f e' e)) (e' ∷ push ⦃o = event_ord f⦄ e es) (e ∷ e' ∷ es)
          (inr (push-new es h)) (inl h)

module _ (f : Float) (P : Type 0) where
  abbrev pub entry_at : List (Option (ProcessEntry f P)) → ℕ → Option (ProcessEntry f P)
  entry_at [] x = none
  entry_at (p ∷ ps) zero = p
  entry_at (p ∷ ps) (suc x) = entry_at ps x

  pub entry_at-get_elem :
      (ps : List (Option (ProcessEntry f P))) (x : ℕ) (v : Option (ProcessEntry f P))
      → get_elem? ps x ≡ some v
      → entry_at ps x ≡ v
  entry_at-get_elem [] x v h = cc
  entry_at-get_elem (p ∷ ps) zero v h = cc
  entry_at-get_elem (p ∷ ps) (suc x) v h = entry_at-get_elem ps x v h

  pub entry_at-set :
      (ps : List (Option (ProcessEntry f P))) (i x : ℕ) (v : Option (ProcessEntry f P))
      → i < length ps
      → entry_at (set ps i v) x ≡ (if i == x then v else entry_at ps x)
  entry_at-set [] i x v lt = absurd (omega arith)
  entry_at-set (p ∷ ps) zero zero v lt = refl
  entry_at-set (p ∷ ps) zero (suc x) v lt = ground arith
  entry_at-set (p ∷ ps) (suc i) zero v lt = ground arith
  entry_at-set (p ∷ ps) (suc i) (suc x) v lt = ground (arith, entry_at-set ps i x v (omega arith))

  entry_at-nones : (n x : ℕ) → entry_at (nones f P n) x ≡ none
  entry_at-nones zero x = refl
  entry_at-nones (suc n) zero = refl
  entry_at-nones (suc n) (suc x) = entry_at-nones n x

  entry_at-append :
      (ps : List (Option (ProcessEntry f P))) (n x : ℕ)
      → entry_at (ps ++ nones f P n) x ≡ entry_at ps x
  entry_at-append [] n x = entry_at-nones n x
  entry_at-append (p ∷ ps) n zero = refl
  entry_at-append (p ∷ ps) n (suc x) = entry_at-append ps n x

  length-nones : (n : ℕ) → length (nones f P n) ≡ n
  length-nones zero = refl
  length-nones (suc n) = ap suc (length-nones n)

  pub entry_at-admit :
      (id : ℕ) (p : P) (ps : List (Option (ProcessEntry f P))) (x : ℕ)
      → entry_at (admit f P id p ps) x
        ≡ (if id == x then some (record { future = p; waker = make_waker id }) else entry_at ps x)
  entry_at-admit id p ps x = go (leb (length ps) id) refl
    where
      v : Option (ProcessEntry f P)
      v = some (record { future = p; waker = make_waker id })

      go :
          (b : Bool)
          → leb (length ps) id ≡ b
          → entry_at (set (if b then resize f P (id + 1) ps else ps) id v) x
            ≡ (if id == x then v else entry_at ps x)
      go true h = ground (
        arith,
        h,
        entry_at-append ps (id + 1 - length ps) x,
        entry_at-set (resize f P (id + 1) ps) id x v (
            ground (
              arith,
              h,
              length-append ps (nones f P (id + 1 - length ps)),
              length-nones (id + 1 - length ps),
            )),
      )
      go false h = entry_at-set ps id x v (ground (arith, h))

  -- What calls ask for: processes, wakes of a process, events for it.
  abbrev pub children : List (Call f P) → List P
  children [] = []
  children (spawns p ∷ cs) = p ∷ children cs
  children (schedules time w ∷ cs) = children cs
  children (wakes w ∷ cs) = children cs
  children (panics ∷ cs) = children cs

  abbrev pub woken : ℕ → List (Call f P) → ℕ
  woken x [] = 0
  woken x (spawns p ∷ cs) = woken x cs
  woken x (schedules time w ∷ cs) = woken x cs
  woken x (wakes w ∷ cs) = (if w.process_id == x then 1 else 0) + woken x cs
  woken x (panics ∷ cs) = woken x cs

  abbrev pub Alarms : ℕ → f.F → List (Call f P) → Type 0
  Alarms x t [] = ⊥
  Alarms x t (spawns p ∷ cs) = Alarms x t cs
  Alarms x t (schedules time w ∷ cs) = ((time ≡ t) × (w.process_id ≡ x)) ⊎ Alarms x t cs
  Alarms x t (wakes w ∷ cs) = Alarms x t cs
  Alarms x t (panics ∷ cs) = Alarms x t cs

  abbrev pub numbered : ℕ → List P → List (ℕ × P)
  numbered n [] = []
  numbered n (p ∷ ps) = (n, p) ∷ numbered (wrap_suc n) ps

  abbrev pub after_ids : ℕ → List P → ℕ
  after_ids n [] = n
  after_ids n (p ∷ ps) = after_ids (wrap_suc n) ps

  pub record Performed (cs : List (Call f P)) (s s' : SimState f P) : Type 0 where
    pub table : s'.processes ≡ s.processes
    pub time : s'.current_time ≡ s.current_time
    pub pending : s'.pending_spawns ≡ s.pending_spawns ++ numbered s.next_process_id (children cs)
    pub next : s'.next_process_id ≡ after_ids s.next_process_id (children cs)
    pub ready : (x : ℕ) → times x s'.ready_queue ≡ times x s.ready_queue + woken x cs
    pub events : (x : ℕ) (t : f.F) → HasEvent f x t s.event_queue → HasEvent f x t s'.event_queue
    pub alarms : (x : ℕ) (t : f.F) → Alarms x t cs → HasEvent f x t s'.event_queue

  ++-nil : (xs : List (ℕ × P)) → xs ++ [] ≡ xs
  ++-nil [] = refl
  ++-nil (x ∷ xs) = cc (++-nil xs)

  ++-snoc : (xs ys : List (ℕ × P)) (y : ℕ × P) → (xs ++ y ∷ []) ++ ys ≡ xs ++ y ∷ ys
  ++-snoc [] ys y = refl
  ++-snoc (x ∷ xs) ys y = cc (++-snoc xs ys y)

  pub perform_all-Performed :
      (cs : List (Call f P)) (s : SimState f P)
      → Ensures (Performed cs s) (perform_all f P true cs s)
  unfolding perform_all perform spawn schedule_wakeup alloc_process_id
  perform_all-Performed [] s = record {
    table = refl;
    time = refl;
    pending = sym (++-nil s.pending_spawns);
    next = refl;
    ready = λ x. omega arith;
    events = λ x t h. h;
    alarms = λ x t h. elim h [ ];
  }
  perform_all-Performed (spawns p ∷ cs) s =
      let id = s.next_process_id in
      let s' = record s {
        next_process_id = wrap_suc id;
        pending_spawns = s.pending_spawns ++ (id, p) ∷ [];
      } in
      Ensures-imp (Performed cs s') (Performed (spawns p ∷ cs) s) _
        (λ s'' k. record {
          table = k.table;
          time = k.time;
          pending =
              k.pending ∙ ++-snoc s.pending_spawns (numbered (wrap_suc id) (children cs)) (id, p);
          next = k.next;
          ready = k.ready;
          events = k.events;
          alarms = k.alarms;
        })
        (perform_all-Performed cs s')
  perform_all-Performed (wakes w ∷ cs) s =
      let s' = record s { ready_queue = s.ready_queue ++ w.process_id ∷ [] } in
      Ensures-imp (Performed cs s') (Performed (wakes w ∷ cs) s) _
        (λ s'' k. record {
          table = k.table;
          time = k.time;
          pending = k.pending;
          next = k.next;
          ready = λ x. omega (arith, k.ready x, times-append x s.ready_queue (w.process_id ∷ []));
          events = k.events;
          alarms = k.alarms;
        })
        (perform_all-Performed cs s')
  perform_all-Performed (panics ∷ cs) s = tt
  perform_all-Performed (schedules time w ∷ cs) s = go (in_future f time s) refl (
      perform_all-Performed cs (record s {
        seq_counter = wrap_suc s.seq_counter;
        event_queue =
            push ⦃o = event_ord f⦄ (record { time = time; seq = s.seq_counter; waker = w })
              s.event_queue;
      }))
    where
      e : ScheduledWaker f
      e = record { time = time; seq = s.seq_counter; waker = w }

      s1 : SimState f P
      s1 = record s {
        seq_counter = wrap_suc s.seq_counter;
        event_queue = push ⦃o = event_ord f⦄ e s.event_queue;
      }

      go :
          (b : Bool)
          → in_future f time s ≡ b
          → Ensures (Performed cs s1) (perform_all f P true cs s1)
          → Ensures
              (Performed (schedules time w ∷ cs) s)
              (or_panic (if not b then none else some s1) >>= perform_all f P true cs)
      go false h later = tt
      go true h later =
          Ensures-imp (Performed cs s1) (Performed (schedules time w ∷ cs) s) _
            (λ s'' k. record {
              table = k.table;
              time = k.time;
              pending = k.pending;
              next = k.next;
              ready = k.ready;
              events = λ x t g. k.events x t (push-old f x t e s.event_queue g);
              alarms = λ x t g. elim g [
                | inl (at, who) ↦
                    k.events x t (
                      push-new f x t e s.event_queue
                        (at, who, ground (arith, h, ap f.is_finite at)))
                | inr later ↦ k.alarms x t later
              ];
            })
            later
