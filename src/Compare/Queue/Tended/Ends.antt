-- ===== src/Compare/Queue/Tended/Ends.antt =====
-- examples/compare.rs: when nothing is left to do, no process of a simulated queue is left.
use sim_core.Base.{
  ℕ, suc, ◌≡◌, refl, ap, ◌∙◌, subst, ◌⊎◌, inl, inr, false, List, [], ◌∷◌, Option, none, some, arith,
  total-zero, Bool-cases,
}
use sim_core.Float.{Float}
use sim_core.Executor.State.{ProcessEntry}
use sim_core.Env.Conservation.Slots.{in_slot, in_table}
use sim_core.Env.Effects.{HasEvent, times, entry_at}
use sim_core.Timeout.{Timeout}
use sim_core.WaitQueue.{is_granted}
use sim_core.Request.{Request}
use sim_core.Request.Invariant.{owed}
use sim_core.Compare.Queue.{entering, waiting, served, Process, arrives, customer, world}
use sim_core.Compare.Queue.Books.{idle, asks, asks-flags, held}
use sim_core.Compare.Queue.Sources.{role_of}
use sim_core.Compare.Queue.Tended.{Run, slot, role_at, Woken, Sleeping, Source, Tended}

module _ (f : Float) {K : Type 0} (m : Run f K) (h : Tended f K [] m)
    (ready : m.state.ready_queue ≡ []) (over : m.state.event_queue ≡ []) where
  unwoken : (x : ℕ) → Woken f K [] m x → ⊥
  unwoken x woke = omega (arith, woke, ap (times x) ready)

  asleep : (x : ℕ) (t : Timeout f) → Sleeping f K [] m x t → ⊥
  asleep x t (scheduled, inl event) = subst (HasEvent f x t.deadline) over event
  asleep x t (scheduled, inr (woke, le)) = unwoken x woke

  -- Only a process that waits for the server can be left.
  Source-waits :
      (x : ℕ) (p : Process f K)
      → Source f K [] m x p
      → (r : Request K) × (role_of f K p ≡ asks r)
        × (is_granted (world f K m.shared) r.flags ≡ false)
  Source-waits x (arrives left none) s = absurd (unwoken x s)
  Source-waits x (arrives left (some t)) s = absurd (asleep x t s)
  Source-waits x (customer key arrival service entering) s = absurd (unwoken x s)
  Source-waits x (customer key arrival service (served wait t)) s = absurd (asleep x t s)
  Source-waits x (customer key arrival service (waiting r)) s =
      elim (Bool-cases (is_granted (world f K m.shared) r.flags)) [
        | inl granted ↦ absurd (unwoken x (s granted))
        | inr ungranted ↦ (r, refl, ungranted)
      ]

  slot-cases :
      (x : ℕ)
      → (role_at f K (slot f K m x) ≡ idle)
        ⊎ ((r : Request K) × (role_at f K (slot f K m x) ≡ asks r)
            × (is_granted (world f K m.shared) r.flags ≡ false))
  slot-cases x = go (slot f K m x) refl
    where
      go :
          (s : Option (ProcessEntry f (Process f K)))
          → slot f K m x ≡ s
          → (role_at f K s ≡ idle)
            ⊎ ((r : Request K) × (role_at f K s ≡ asks r)
                × (is_granted (world f K m.shared) r.flags ≡ false))
      go none e = inl refl
      go (some e) at = inr (Source-waits x e.future (h.sources x e at).1)

  held-none : (x : ℕ) → held K (role_at f K (slot f K m x)) ≡ 0
  held-none x = elim (slot-cases x) [
    | inl free ↦ ap (held K) free
    | inr (r, asks_r, g) ↦ ap (held K) asks_r
  ]

  owed-none : (a : ℕ) → owed (h.booked.requests a) (m.shared.flags.cell a) ≡ 0
  owed-none a = go (h.booked.requests a) refl
    where
      go : (r : Option (Request K)) → h.booked.requests a ≡ r → owed r (m.shared.flags.cell a) ≡ 0
      go none e = refl
      go (some r) e =
          let (c, g, id, asks_r) = h.booked.known a r e in
          elim (slot-cases id) [
            | inl free ↦ absurd cc
            | inr (r', asks_r', ungranted) ↦
                let same =
                  asks-flags K (λ x. role_at f K (slot f K m x)) id id r r' asks_r asks_r' refl in
                ground (arith, same, h.booked.pool.own a r e, ungranted)
          ]

  pub none-left : (x : ℕ) → slot f K m x ≡ none
  none-left x = go (slot f K m x) refl
    where
      go : (s : Option (ProcessEntry f (Process f K))) → slot f K m x ≡ s → s ≡ none
      go none e = refl
      go (some e) at =
          let (r, asks_r, ungranted) = Source-waits x e.future (h.sources x e at).1 in
          let there = h.booked.asked x r (ap (role_at f K) at ∙ asks_r) in
          let (unconsumed, registered, id, known) = h.booked.known r.flags r there in
          let pool = h.booked.pool in
          let parked = pool.parked r.flags r there registered unconsumed ungranted in
          let full = pool.full r.flags (omega (arith, parked)) (pool.live r.flags r there) in
          absurd (
            omega (
              arith,
              full,
              pool.counted,
              h.booked.roomy,
              total-zero m.state.next_process_id _ held-none,
              total-zero m.shared.flags.next _ owed-none,
            ))

-- A table without processes.
pub in_table-none :
    (f : Float) (P : Type 0) (v : P → ℕ) (ps : List (Option (ProcessEntry f P)))
    → ((x : ℕ) → entry_at f P ps x ≡ none)
    → in_table f P v ps ≡ 0
in_table-none f P v [] h = refl
in_table-none f P v (p ∷ ps) h =
    omega (arith, in_table-none f P v ps (λ x. h (suc x)), ap (in_slot f P v) (h 0))
