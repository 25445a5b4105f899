-- ===== src/Env/Weight.antt =====
-- src/env.rs: how much is under way in the event loop, where processes pay for what they ask for.
use sim_core.Base.{
  ℕ, zero, suc, ◌+◌, ◌-◌, ◌*◌, ◌≤◌, ◌≡◌, refl, Bool, true, false, not, ◌&&◌, List, [], ◌∷◌, ◌++◌,
  Option, none, some, arith, length, length-append, get_elem?, set, leb, wrap_suc, if◌then◌else◌,
}
use sim_core.Heap.{HeapOrd, push}
use sim_core.Float.{Float}
use sim_core.Executor.Waker.{make_waker}
use sim_core.Executor.State.{
  SimState, ScheduledWaker, ProcessEntry, schedule_wakeup, alloc_process_id, event_ord, in_future,
}
use sim_core.Env.{
  Result, ok, panicked, unfinished, ◌>>=◌, or_panic, Call, schedules, spawns, wakes, panics, spawn,
  perform, perform_all, nones, resize, admit, admit_all, ids, drain_pending_spawns,
}

-- The model's fuel has not run out, and a state that is returned weighs at most so much.
abbrev pub Within {ℓ} : {A : Type ℓ} → (A → ℕ) → ℕ → Result A → Type 0
Within weight bound (ok a) = weight a ≤ bound
Within weight bound panicked = Unit
Within weight bound unfinished = ⊥

pub Within-bind {ℓ κ} :
    {A : Type ℓ} {B : Type κ} (weight : A → ℕ) (weight' : B → ℕ) (bound bound' : ℕ) (r : Result A)
    (g : A → Result B)
    → Within weight bound r
    → ((a : A) → weight a ≤ bound → Within weight' bound' (g a))
    → Within weight' bound' (r >>= g)
Within-bind weight weight' bound bound' (ok a) g h k = k a h
Within-bind weight weight' bound bound' panicked g h k = tt
Within-bind weight weight' bound bound' unfinished g h k = elim h [ ]

pub Within-mono {ℓ} :
    {A : Type ℓ} (weight : A → ℕ) (low high : ℕ) (r : Result A)
    → low ≤ high
    → Within weight low r
    → Within weight high r
Within-mono weight low high (ok a) le h = omega arith
Within-mono weight low high panicked le h = tt
Within-mono weight low high unfinished le h = elim h [ ]

length-push {ℓ} :
    {A : Type ℓ} ⦃o : HeapOrd A⦄ (e : A) (xs : List A) → length (push e xs) ≡ suc (length xs)
unfolding push
length-push e [] = refl
length-push e (x ∷ xs) = ground (arith, length-push e xs)

-- `size`: what a process can still ask for.
module _ (f : Float) (P : Type 0) (size : P → ℕ) where
  -- An event ends as an entry of the ready queue.
  abbrev pub cost : Call f P → ℕ
  cost (schedules time waker) = 2
  cost (spawns p) = size p + 1
  cost (wakes waker) = 1
  cost panics = 0

  abbrev pub costs : List (Call f P) → ℕ
  costs [] = 0
  costs (c ∷ cs) = cost c + costs cs

  abbrev pub size_left : Option P → ℕ
  size_left none = 0
  size_left (some p) = size p

  abbrev pub slot_size : Option (ProcessEntry f P) → ℕ
  slot_size none = 0
  slot_size (some e) = size e.future

  abbrev pub table : List (Option (ProcessEntry f P)) → ℕ
  table [] = 0
  table (s ∷ ss) = slot_size s + table ss

  abbrev pub spawned : List (ℕ × P) → ℕ
  spawned [] = 0
  spawned ((id, p) ∷ ss) = size p + 1 + spawned ss

  -- All that is under way: processes, spawns, ready entries and events.
  abbrev pub weight : SimState f P → ℕ
  weight s =
      table s.processes + spawned s.pending_spawns + length s.ready_queue + 2 * length s.event_queue

  table-append : (ps qs : List (Option (ProcessEntry f P))) → table (ps ++ qs) ≡ table ps + table qs
  table-append [] qs = omega arith
  table-append (p ∷ ps) qs = omega (arith, table-append ps qs)

  table-nones : (n : ℕ) → table (nones f P n) ≡ 0
  table-nones zero = refl
  table-nones (suc n) = omega (arith, table-nones n)

  pub table-set :
      (ps : List (Option (ProcessEntry f P))) (i : ℕ) (v : Option (ProcessEntry f P))
      → table (set ps i v) ≤ table ps + slot_size v
  table-set [] i v = omega arith
  table-set (p ∷ ps) zero v = omega arith
  table-set (p ∷ ps) (suc i) v = omega (arith, table-set ps i v)

  pub table-take :
      (ps : List (Option (ProcessEntry f P))) (i : ℕ) (e : ProcessEntry f P)
      → get_elem? ps i ≡ some (some e)
      → table (set ps i none) + size e.future ≡ table ps
  table-take [] i e h = cc
  table-take (p ∷ ps) zero e h = ground arith
  table-take (p ∷ ps) (suc i) e h = omega (arith, table-take ps i e h)

  admit-le :
      (id : ℕ) (p : P) (ps : List (Option (ProcessEntry f P)))
      → table (admit f P id p ps) ≤ table ps + size p
  admit-le id p ps = go (leb (length ps) id)
    where
      go :
          (b : Bool)
          → table (
              set
                (if b then resize f P (id + 1) ps else ps)
                id
                (some (record { future = p; waker = make_waker id })))
            ≤ table ps + size p
      go true = omega (
        arith,
        table-set (resize f P (id + 1) ps) id (some (record { future = p; waker = make_waker id })),
        table-append ps (nones f P (id + 1 - length ps)),
        table-nones (id + 1 - length ps),
      )
      go false = table-set ps id _

  admit_all-le :
      (ss : List (ℕ × P)) (ps : List (Option (ProcessEntry f P)))
      → table (admit_all f P ss ps) + length (ids f P ss) ≤ table ps + spawned ss
  unfolding admit_all
  admit_all-le [] ps = omega arith
  admit_all-le ((id, p) ∷ ss) ps =
      omega (arith, admit_all-le ss (admit f P id p ps), admit-le id p ps)

  pub drain-le : (s : SimState f P) → weight (drain_pending_spawns f P s) ≤ weight s
  unfolding drain_pending_spawns
  drain-le s = omega (
    arith,
    admit_all-le s.pending_spawns s.processes,
    length-append s.ready_queue (ids f P s.pending_spawns),
  )

  spawned-append : (ss ts : List (ℕ × P)) → spawned (ss ++ ts) ≡ spawned ss + spawned ts
  spawned-append [] ts = omega arith
  spawned-append ((id, p) ∷ ss) ts = omega (arith, spawned-append ss ts)

  perform-Within :
      (debug : Bool) (c : Call f P) (s : SimState f P)
      → Within weight (weight s + cost c) (or_panic (perform f P debug c s))
  unfolding perform spawn schedule_wakeup alloc_process_id
  perform-Within debug (schedules time waker) s = go (debug && not (in_future f time s))
    where
      e : ScheduledWaker f
      e = record { time = time; seq = s.seq_counter; waker = waker }

      go :
          (b : Bool)
          → Within weight (weight s + 2) (
              or_panic (
                if b
                then none
                else some (record s {
                  seq_counter = wrap_suc s.seq_counter;
                  event_queue = push ⦃o = event_ord f⦄ e s.event_queue;
                })))
      go true = tt
      go false = omega (arith, length-push ⦃o = event_ord f⦄ e s.event_queue)
  perform-Within debug (spawns p) s =
      omega (arith, spawned-append s.pending_spawns ((s.next_process_id, p) ∷ []))
  perform-Within debug (wakes waker) s =
      omega (arith, length-append s.ready_queue (waker.process_id ∷ []))
  perform-Within debug panics s = tt

  pub perform_all-Within :
      (debug : Bool) (cs : List (Call f P)) (s : SimState f P) (bound : ℕ)
      → weight s + costs cs ≤ bound
      → Within weight bound (perform_all f P debug cs s)
  unfolding perform_all
  perform_all-Within debug [] s bound h = omega arith
  perform_all-Within debug (c ∷ cs) s bound h =
      Within-bind weight weight _ bound (or_panic (perform f P debug c s))
        (perform_all f P debug cs) (perform-Within debug c s)
        (λ s' h'. perform_all-Within debug cs s' bound (omega arith))
