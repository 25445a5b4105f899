-- ===== src/Env/Effects/Entry.antt =====
-- src/env.rs: what `poll_entry` does, as a whole.
use sim_core.Base.{
  ℕ, zero, suc, ◌+◌, ◌<◌, ◌≡◌, ◌≢◌, refl, sym, ap, ◌∙◌, subst, true, List, [], ◌∷◌, ◌++◌, Option,
  none, some, arith, length, length-set, get_elem?, set, if◌then◌else◌, ◌==◌, u64_mod,
}
use sim_core.Float.{Float}
use sim_core.Executor.Waker.{SimWaker, make_waker}
use sim_core.Executor.State.{SimState, ProcessEntry, event_ord}
use sim_core.Env.{
  perform_all, admit_all, ids, drain_pending_spawns, Program, Sim, Outcome, put_back, poll_entry,
}
use sim_core.Env.Results.{Ensures, Ensures-bind}
use sim_core.Env.Effects.{
  times, times-append, HasEvent, entry_at, entry_at-set, entry_at-admit, children, woken, Alarms,
  numbered, after_ids, Performed, perform_all-Performed,
}

module _ (f : Float) (P : Type 0) where
  abbrev pub as_entry : SimWaker → Option P → Option (ProcessEntry f P)
  as_entry w none = none
  as_entry w (some p) = some (record { future = p; waker = w })

  -- At most one process is spawned.
  abbrev pub kids : Option P → List P
  kids none = []
  kids (some q) = q ∷ []

  abbrev pub newborn : Option P → ℕ → ℕ → Option (ProcessEntry f P) → Option (ProcessEntry f P)
  newborn none n x o = o
  newborn (some q) n x o = if n == x then some (record { future = q; waker = make_waker n }) else o

  abbrev pub born : Option P → ℕ → ℕ → ℕ
  born none n x = 0
  born (some q) n x = if n == x then 1 else 0

  abbrev pub next_id : Option P → ℕ → ℕ
  next_id none n = n
  next_id (some q) n = suc n

  abbrev pub kid_count : Option P → ℕ
  kid_count none = 0
  kid_count (some q) = 1

  module _ {U : Type 0} (program : Program f P U) where
    pub record Effect (id : ℕ) (e : ProcessEntry f P) (out : Outcome f P U) (kid : Option P)
        (m m' : Sim f P U) : Type 0 where
      pub shared : m'.shared ≡ out.shared
      pub time : m'.state.current_time ≡ m.state.current_time
      pub settled : m'.state.pending_spawns ≡ []
      pub next : m'.state.next_process_id ≡ next_id kid m.state.next_process_id
      pub entries :
          (x : ℕ)
          → entry_at f P m'.state.processes x ≡ (
              if id == x
              then as_entry e.waker out.left
              else newborn kid m.state.next_process_id x (entry_at f P m.state.processes x))
      pub ready :
          (x : ℕ)
          → times x m'.state.ready_queue
            ≡ times x m.state.ready_queue
              + woken f P x out.calls
              + born kid m.state.next_process_id x
      pub events :
          (x : ℕ) (t : f.F)
          → HasEvent f x t m.state.event_queue
          → HasEvent f x t m'.state.event_queue
      pub alarms :
          (x : ℕ) (t : f.F) → Alarms f P x t out.calls → HasEvent f x t m'.state.event_queue

    slot-long :
        (ps : List (Option (ProcessEntry f P))) (i : ℕ) (s : Option (ProcessEntry f P))
        → get_elem? ps i ≡ some s
        → i < length ps
    slot-long [] i s h = cc
    slot-long (p ∷ ps) zero s h = omega arith
    slot-long (p ∷ ps) (suc i) s h = omega (arith, slot-long ps i s h)

    module _ (id : ℕ) (e : ProcessEntry f P) (m : Sim f P U)
        (there : get_elem? m.state.processes id ≡ some (some e)) where
      abbrev out : Outcome f P U
      out = program m.state.current_time e.waker m.shared e.future

      abbrev taken : SimState f P
      taken = record (m.state) { processes = set m.state.processes id none }

      put_back-entries :
          (left : Option P) (s : SimState f P)
          → s.processes ≡ set m.state.processes id none
          → (x : ℕ)
          → entry_at f P (put_back f P true program id e.waker left s).processes x
            ≡ (if id == x then as_entry e.waker left else entry_at f P m.state.processes x)
      put_back-entries none s same x =
          ap (λ ps. entry_at f P ps x) same
          ∙ entry_at-set f P m.state.processes id x none
              (slot-long m.state.processes id (some e) there)
      put_back-entries (some p) s same x =
          let long = slot-long m.state.processes id (some e) there in
          let v : Option (ProcessEntry f P) = some (record { future = p; waker = e.waker }) in
          ground (
            arith,
            ap (λ ps. entry_at f P (set ps id v) x) same,
            entry_at-set f P (set m.state.processes id none) id x v
                (omega (arith, long, length-set m.state.processes id none)),
            entry_at-set f P m.state.processes id x none long,
          )

      put_back-rest :
          (left : Option P) (s : SimState f P)
          → let s' = put_back f P true program id e.waker left s in
            (s'.pending_spawns ≡ s.pending_spawns)
            × (s'.ready_queue ≡ s.ready_queue)
            × (s'.event_queue ≡ s.event_queue)
            × (s'.current_time ≡ s.current_time)
            × (s'.next_process_id ≡ s.next_process_id)
      put_back-rest none s = (refl, refl, refl, refl, refl)
      put_back-rest (some p) s = (refl, refl, refl, refl, refl)

      drain-entries :
          (kid : Option P) (n : ℕ) (s : SimState f P)
          → s.pending_spawns ≡ numbered f P n (kids kid)
          → let s' = drain_pending_spawns f P s in
            ((x : ℕ) → entry_at f P s'.processes x ≡ newborn kid n x (entry_at f P s.processes x))
            × ((x : ℕ) → times x s'.ready_queue ≡ times x s.ready_queue + born kid n x)
      unfolding drain_pending_spawns admit_all
      drain-entries none n s h = (
        λ x. ap (λ ps. entry_at f P (admit_all f P ps s.processes) x) h,
        λ x. omega (
          arith,
          times-append x s.ready_queue (ids f P s.pending_spawns),
          ap (λ ps. times x (ids f P ps)) h,
        ),
      )
      drain-entries (some q) n s h = (
        λ x.
            ap (λ ps. entry_at f P (admit_all f P ps s.processes) x) h
            ∙ entry_at-admit f P n q s.processes x,
        λ x. omega (
          arith,
          times-append x s.ready_queue (ids f P s.pending_spawns),
          ap (λ ps. times x (ids f P ps)) h,
        ),
      )

      newborn-other :
          (kid : Option P) (n x : ℕ) (a b : Option (ProcessEntry f P))
          → id ≢ n
          → newborn kid n x (if id == x then a else b) ≡ (if id == x then a else newborn kid n x b)
      newborn-other none n x a b ne = refl
      newborn-other (some q) n x a b ne = ground arith

      next_id-after :
          (kid : Option P) (n : ℕ)
          → n + kid_count kid < u64_mod
          → after_ids f P n (kids kid) ≡ next_id kid n
      next_id-after none n room = refl
      next_id-after (some q) n room = ground arith

      ended :
          (kid : Option P) (s : SimState f P)
          → m.state.pending_spawns ≡ []
          → children f P out.calls ≡ kids kid
          → m.state.next_process_id + kid_count kid < u64_mod
          → id ≢ m.state.next_process_id
          → Performed f P out.calls taken s
          → Effect id e out kid m (record {
            state = drain_pending_spawns f P (put_back f P true program id e.waker out.left s);
            shared = out.shared;
          })
      unfolding drain_pending_spawns
      ended kid s empty only room other k =
          let n = m.state.next_process_id in
          let back = put_back f P true program id e.waker out.left s in
          let (same_pending, same_ready, same_events, same_time, same_next) =
            put_back-rest out.left s in
          let waiting : s.pending_spawns ≡ numbered f P n (kids kid) =
            k.pending
            ∙ ap (λ ps. ps ++ numbered f P n (children f P out.calls)) empty
            ∙ ap (numbered f P n) only in
          let (entries, ready) = drain-entries kid n back (same_pending ∙ waiting) in
          record {
            shared = refl;
            time = same_time ∙ k.time;
            settled = refl;
            next = same_next ∙ k.next ∙ ap (after_ids f P n) only ∙ next_id-after kid n room;
            entries = λ x.
                entries x
                ∙ ap (newborn kid n x) (put_back-entries out.left s k.table x)
                ∙ newborn-other kid n x (as_entry e.waker out.left)
                    (entry_at f P m.state.processes x) other;
            ready = λ x. omega (arith, ready x, ap (times x) same_ready, k.ready x);
            events = λ x t h. subst (HasEvent f x t) (sym same_events) (k.events x t h);
            alarms = λ x t h. subst (HasEvent f x t) (sym same_events) (k.alarms x t h);
          }

      pub poll_entry-Effect :
          (kid : Option P)
          → m.state.pending_spawns ≡ []
          → children f P out.calls ≡ kids kid
          → m.state.next_process_id + kid_count kid < u64_mod
          → id ≢ m.state.next_process_id
          → Ensures (Effect id e out kid m) (poll_entry f P true program id e m)
      unfolding poll_entry
      poll_entry-Effect kid empty only room other =
          Ensures-bind (Performed f P out.calls taken) (Effect id e out kid m)
            (perform_all f P true out.calls taken) _ (perform_all-Performed f P out.calls taken)
            (λ s k. ended kid s empty only room other k)
