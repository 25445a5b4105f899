-- ===== src/Compare/Queue/Sources.antt =====
-- examples/compare.rs: a poll of a process of a simulated queue, and what the process is woken by next.
pub mod Polls
use sim_core.Base.{
  ℕ, zero, suc, ◌+◌, ◌<◌, ◌≤◌, ◌≡◌, ◌≢◌, refl, sym, ap, ◌∙◌, subst, ◌⊎◌, inl, inr, Bool, true,
  false, ◌&&◌, List, [], ◌∷◌, ◌++◌, Option, none, some, arith, update, if◌then◌else◌, ◌==◌,
  Bool-cases,
}
use mathlib.Core.Path.{fun_ext}
use sim_core.Base.Order.{Ord}
use sim_core.Float.{Float}
use sim_core.Executor.Waker.{SimWaker, make_waker}
use sim_core.Executor.State.{ScheduledWaker}
use sim_core.Env.{Call, schedules, spawns, wakes, panics, Outcome}
use sim_core.Env.Conservation.Calls.{fails}
use sim_core.Env.Effects.{HasEvent, Alarms, children, woken, times}
use sim_core.Env.Effects.Entry.{kids, kid_count}
use sim_core.Timeout.{Timeout}
use sim_core.Timeout.Calls.{timeout_at, is_due, marked, poll_calls}
use sim_core.Rng.{SplitMix64}
use sim_core.Rng.Sample.{Math, splitmix64, exponential}
use sim_core.WaitQueue.{WaitQueue, World, is_granted}
use sim_core.Request
use sim_core.Request.{Request, Polled}
use sim_core.Request.Effects.{PollEffect, poll-Effect}
use sim_core.Compare.Await.{wake_calls, after_calls, awaiting, await_new, sleep}
use sim_core.Compare.Queue.{
  Shared, Stage, entering, waiting, served, Process, arrives, customer, Done, world, next_arrival,
  arrive, polled, request, depart, depart_with, poll_customer, poll_arrivals, program,
}
use sim_core.Compare.Queue.Laws.{to_come}
use sim_core.Compare.Queue.Books.{
  Role, idle, holds, asks, quiet, Booked, Asking, request-Asking, asks-Asking,
}
use sim_core.Compare.Queue.Books.Polling.{poll-Booked, role-there}
use sim_core.Compare.Queue.Books.Leaving.{drop_guard-Booked}

module _ (f : Float) (K : Type 0) where
  -- What a process has of the resource.
  abbrev pub role_of : Process f K → Role K
  role_of (arrives left t) = idle
  role_of (customer key arrival service entering) = idle
  role_of (customer key arrival service (waiting r)) = asks r
  role_of (customer key arrival service (served wait t)) = holds

  abbrev pub role_left : Option (Process f K) → Role K
  role_left none = idle
  role_left (some p) = role_of p

  abbrev pub coming : Option (Process f K) → ℕ
  coming none = 0
  coming (some p) = to_come f K p

  abbrev pub IsEntering : Option (Process f K) → Type 0
  IsEntering none = Unit
  IsEntering (some (arrives left t)) = ⊥
  IsEntering (some (customer key arrival service entering)) = Unit
  IsEntering (some (customer key arrival service (waiting r))) = ⊥
  IsEntering (some (customer key arrival service (served wait t))) = ⊥

  -- The process `id` sleeps: an event for it is there or is asked for.
  module _ (id : ℕ) (events : List (ScheduledWaker f)) (calls : List (Call f (Process f K))) where
    abbrev pub Sleeps : Timeout f → Type 0
    Sleeps t =
        (t.scheduled ≡ true)
        × (Alarms f (Process f K) id t.deadline calls ⊎ HasEvent f id t.deadline events)

    -- What is left of a process will be woken.
    abbrev pub Rests : Shared f K → Option (Process f K) → Type 0
    Rests u none = Unit
    Rests u (some (arrives left none)) = ⊥
    Rests u (some (arrives left (some t))) = Sleeps t
    Rests u (some (customer key arrival service entering)) = ⊥
    Rests u (some (customer key arrival service (waiting r))) =
        is_granted (world f K u) r.flags ≡ false
    Rests u (some (customer key arrival service (served wait t))) = Sleeps t

  pub after_spawn :
      (id : ℕ) (events : List (ScheduledWaker f)) (calls : List (Call f (Process f K)))
      (q : Process f K) (u : Shared f K) (left : Option (Process f K))
      → Rests id events calls u left
      → Rests id events (spawns q ∷ calls) u left
  after_spawn id events calls q u none h = tt
  after_spawn id events calls q u (some (arrives left none)) h = h
  after_spawn id events calls q u (some (arrives left (some t))) h = h
  after_spawn id events calls q u (some (customer key arrival service entering)) h = h
  after_spawn id events calls q u (some (customer key arrival service (waiting r))) h = h
  after_spawn id events calls q u (some (customer key arrival service (served wait t))) h = h

  pub wake_calls-children : (ids : List ℕ) → children f (Process f K) (wake_calls f ids) ≡ []
  wake_calls-children [] = refl
  wake_calls-children (id ∷ ids) = wake_calls-children ids

  pub wake_calls-woken :
      (x : ℕ) (ids : List ℕ) → woken f (Process f K) x (wake_calls f ids) ≡ times x ids
  wake_calls-woken x [] = refl
  wake_calls-woken x (id ∷ ids) = omega (arith, wake_calls-woken x ids)

  -- A poll of the process `id` that does not panic.
  pub record Settles (n : ℕ) (roles : ℕ → Role K) (id : ℕ) (events : List (ScheduledWaker f))
      (u : Shared f K) (coming_in : ℕ) (kid : Option (Process f K)) (out : Done f K) : Type 0 where
    pub only : children f (Process f K) out.calls ≡ kids f (Process f K) kid
    pub enters : IsEntering kid
    pub booked : Booked K n (update roles id (role_left out.left)) out.shared.queue out.shared.flags
    pub fewer : coming out.left + kid_count f (Process f K) kid ≤ coming_in
    pub rests : Rests id events out.calls out.shared out.left
    pub grants :
        (x : ℕ) (r : Request K)
        → id ≢ x
        → roles x ≡ asks r
        → is_granted (world f K out.shared) r.flags ≡ true
        → (is_granted (world f K u) r.flags ≡ true) ⊎ (0 < woken f (Process f K) x out.calls)

  abbrev pub Turns :
      ℕ
      → (ℕ → Role K)
      → ℕ
      → List (ScheduledWaker f)
      → Shared f K
      → ℕ
      → Option (Process f K)
      → Done f K
      → Type 0
  Turns n roles id events u coming_in kid out =
      (fails f (Process f K) out.calls ≡ true) ⊎ Settles n roles id events u coming_in kid out

  -- A customer that comes in besides.
  pub spawn-Turns :
      (n : ℕ) (roles : ℕ → Role K) (id : ℕ) (events : List (ScheduledWaker f)) (u : Shared f K)
      (c : ℕ) (key : K) (arrival service : f.F) (d : Done f K)
      → Turns n roles id events u c none d
      → let q = customer key arrival service entering in
        Turns n roles id events u (c + 1) (some q) (after_calls f (spawns q ∷ []) d)
  spawn-Turns n roles id events u c key arrival service d (inl dies) = inl dies
  spawn-Turns n roles id events u c key arrival service d (inr s) =
      let q = customer key arrival service entering in
      inr (record {
        only = cc s.only;
        enters = tt;
        booked = s.booked;
        fewer = omega (arith, s.fewer);
        rests = after_spawn id events d.calls q d.shared d.left s.rests;
        grants = s.grants;
      })

  module _ (n : ℕ) (roles : ℕ → Role K) (id : ℕ) (events : List (ScheduledWaker f))
      (back : Timeout f → Process f K) (c : ℕ) (role : Role K) (u v : Shared f K)
      (same : (x : ℕ) (r : Request K)
        → id ≢ x
        → roles x ≡ asks r
        → is_granted (world f K v) r.flags ≡ true
        → is_granted (world f K u) r.flags ≡ true)
      (b : Booked K n (update roles id role) v.queue v.flags)
      (what : (t : Timeout f) (calls : List (Call f (Process f K)))
        → (role_of (back t) ≡ role)
          × (to_come f K (back t) ≤ c)
          × (Sleeps id events calls t → Rests id events calls v (some (back t)))) where
    -- A process goes to sleep, or sleeps on.
    pub awaiting-Settles :
        (t : Timeout f)
        → (t.scheduled ≡ true → HasEvent f id t.deadline events)
        → Settles n roles id events u c none (awaiting f (make_waker id) back v t)
    unfolding poll_calls
    awaiting-Settles t h = go t.scheduled h
      where
        go :
            (b : Bool)
            → (b ≡ true → HasEvent f id t.deadline events)
            → Settles n roles id events u c none (record {
              calls = if b then [] else schedules t.deadline (make_waker id) ∷ [];
              left = some (back (marked f t));
              shared = v;
            })
        go true there = record {
          only = refl;
          enters = tt;
          booked =
              subst (λ r. Booked K n (update roles id r) v.queue v.flags)
                (sym (what (marked f t) []).0) b;
          fewer = omega (arith, what (marked f t) []);
          rests = (what (marked f t) []).2 (refl, inr (there refl));
          grants = λ x r ne e g. inl (same x r ne e g);
        }
        go false there = record {
          only = refl;
          enters = tt;
          booked =
              subst (λ r. Booked K n (update roles id r) v.queue v.flags)
                (sym (what (marked f t) []).0) b;
          fewer = omega (arith, what (marked f t) []);
          rests =
              (what (marked f t) (schedules t.deadline (make_waker id) ∷ [])).2
                (refl, inl (inl (refl, refl)));
          grants = λ x r ne e g. inl (same x r ne e g);
        }

    pub sleep-Turns :
        (now delay : f.F)
        → Turns n roles id events u c none (sleep f now (make_waker id) delay back v)
    unfolding timeout_at
    sleep-Turns now delay = go (f.le f.zero delay && f.is_finite delay)
      where
        go :
            (b : Bool)
            → Turns n roles id events u c none (
                await_new f (make_waker id) back v (
                  if b
                  then some (record { deadline = f.add now delay; scheduled = false })
                  else none))
        go true = inr (
            awaiting-Settles (record { deadline = f.add now delay; scheduled = false })
              (λ e. absurd cc))
        go false = inl refl
