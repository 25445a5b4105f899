-- ===== src/Env/Conservation/Slots.antt =====
-- src/env.rs: the slots of the process table and the spawned processes that wait for one.
use sim_core.Base.{
  ℕ, zero, suc, ◌+◌, ◌-◌, ◌≤◌, ◌<◌, ◌≡◌, refl, ap, Bool, true, false, List, [], ◌∷◌, ◌++◌, Option,
  none, some, arith, length, length-append, get_elem?, set, leb, if◌then◌else◌, ◌==◌,
}
use sim_core.Float.{Float}
use sim_core.Executor.Waker.{make_waker}
use sim_core.Executor.State.{SimState, ProcessEntry}
use sim_core.Env.{nones, resize, admit, admit_all}

module _ (f : Float) (P : Type 0) where
  abbrev pub Table : Type 0
  Table = List (Option (ProcessEntry f P))

  -- `v` of each process.
  module _ (v : P → ℕ) where
    abbrev pub in_slot : Option (ProcessEntry f P) → ℕ
    in_slot none = 0
    in_slot (some e) = v e.future

    abbrev pub in_table : Table → ℕ
    in_table [] = 0
    in_table (s ∷ ss) = in_slot s + in_table ss

    abbrev pub in_pending : List (ℕ × P) → ℕ
    in_pending [] = 0
    in_pending ((id, p) ∷ ss) = v p + in_pending ss

    abbrev pub holding : SimState f P → ℕ
    holding s = in_table s.processes + in_pending s.pending_spawns

    in_table-append : (ps qs : Table) → in_table (ps ++ qs) ≡ in_table ps + in_table qs
    in_table-append [] qs = omega arith
    in_table-append (p ∷ ps) qs = omega (arith, in_table-append ps qs)

    in_table-nones : (n : ℕ) → in_table (nones f P n) ≡ 0
    in_table-nones zero = refl
    in_table-nones (suc n) = omega (arith, in_table-nones n)

    pub in_pending-append :
        (ss ts : List (ℕ × P)) → in_pending (ss ++ ts) ≡ in_pending ss + in_pending ts
    in_pending-append [] ts = omega arith
    in_pending-append ((id, p) ∷ ss) ts = omega (arith, in_pending-append ss ts)

  -- Whether a process is in the slot of this id, and how many wait for it.
  abbrev pub at_slot : Option (Option (ProcessEntry f P)) → ℕ
  at_slot none = 0
  at_slot (some none) = 0
  at_slot (some (some e)) = 1

  abbrev pub occupied : ℕ → Table → ℕ
  occupied a ps = at_slot (get_elem? ps a)

  abbrev pub named : ℕ → List (ℕ × P) → ℕ
  named a [] = 0
  named a ((id, p) ∷ ss) = (if id == a then 1 else 0) + named a ss

  pub named-append : (a : ℕ) (ss ts : List (ℕ × P)) → named a (ss ++ ts) ≡ named a ss + named a ts
  named-append a [] ts = omega arith
  named-append a ((id, p) ∷ ss) ts = omega (arith, named-append a ss ts)

  -- A write to a slot that is there and empty.
  pub in_table-set :
      (v : P → ℕ) (ps : Table) (i : ℕ) (s : Option (ProcessEntry f P))
      → i < length ps
      → occupied i ps ≡ 0
      → in_table v (set ps i s) ≡ in_table v ps + in_slot v s
  in_table-set v [] i s lt h = absurd (omega arith)
  in_table-set v (none ∷ ps) zero s lt h = omega arith
  in_table-set v (some e ∷ ps) zero s lt h = absurd (omega arith)
  in_table-set v (p ∷ ps) (suc i) s lt h = omega (arith, in_table-set v ps i s (omega arith) h)

  pub in_table-take :
      (v : P → ℕ) (ps : Table) (i : ℕ) (e : ProcessEntry f P)
      → get_elem? ps i ≡ some (some e)
      → in_table v (set ps i none) + v e.future ≡ in_table v ps
  in_table-take v [] i e h = cc
  in_table-take v (p ∷ ps) zero e h = ground arith
  in_table-take v (p ∷ ps) (suc i) e h = omega (arith, in_table-take v ps i e h)

  pub occupied-set :
      (ps : Table) (i a : ℕ) (s : Option (ProcessEntry f P))
      → i < length ps
      → occupied a (set ps i s) ≡ (if i == a then at_slot (some s) else occupied a ps)
  occupied-set [] i a s lt = absurd (omega arith)
  occupied-set (p ∷ ps) zero zero s lt = refl
  occupied-set (p ∷ ps) zero (suc a) s lt = ground arith
  occupied-set (p ∷ ps) (suc i) zero s lt = ground arith
  occupied-set (p ∷ ps) (suc i) (suc a) s lt = ground (arith, occupied-set ps i a s (omega arith))

  occupied-nones : (a n : ℕ) → occupied a (nones f P n) ≡ 0
  occupied-nones a zero = refl
  occupied-nones zero (suc n) = refl
  occupied-nones (suc a) (suc n) = occupied-nones a n

  occupied-append : (ps : Table) (a n : ℕ) → occupied a (ps ++ nones f P n) ≡ occupied a ps
  occupied-append [] a n = occupied-nones a n
  occupied-append (p ∷ ps) zero n = refl
  occupied-append (p ∷ ps) (suc a) n = occupied-append ps a n

  length-nones : (n : ℕ) → length (nones f P n) ≡ n
  length-nones zero = refl
  length-nones (suc n) = ap suc (length-nones n)

  -- The table that `admit` writes to: it has the slot, and the same processes.
  record Grown (v : P → ℕ) (id : ℕ) (ps qs : Table) : Type 0 where
    long : id < length qs
    same : in_table v qs ≡ in_table v ps
    slots : (a : ℕ) → occupied a qs ≡ occupied a ps

  resize-Grown :
      (v : P → ℕ) (id : ℕ) (ps : Table)
      → Grown v id ps (if leb (length ps) id then resize f P (id + 1) ps else ps)
  resize-Grown v id ps = go (leb (length ps) id) refl
    where
      go :
          (b : Bool)
          → leb (length ps) id ≡ b
          → Grown v id ps (if b then resize f P (id + 1) ps else ps)
      go true e = record {
        long = ground (
          arith,
          e,
          length-append ps (nones f P (id + 1 - length ps)),
          length-nones (id + 1 - length ps),
        );
        same = omega (
          arith,
          in_table-append v ps (nones f P (id + 1 - length ps)),
          in_table-nones v (id + 1 - length ps),
        );
        slots = λ a. occupied-append ps a (id + 1 - length ps);
      }
      go false e = record { long = ground (arith, e); same = refl; slots = λ a. refl }

  -- A process is admitted to an empty slot.
  admit-exact :
      (v : P → ℕ) (id : ℕ) (p : P) (ps : Table)
      → occupied id ps ≡ 0
      → (in_table v (admit f P id p ps) ≡ in_table v ps + v p)
        × ((a : ℕ) → occupied a (admit f P id p ps) ≡ (if id == a then 1 else occupied a ps))
  admit-exact v id p ps free =
      let g = resize-Grown v id ps in
      let grown = if leb (length ps) id then resize f P (id + 1) ps else ps in
      let e : Option (ProcessEntry f P) = some (record { future = p; waker = make_waker id }) in
      (
        omega (arith, in_table-set v grown id e g.long (omega (arith, g.slots id, free)), g.same),
        λ a. ground (arith, occupied-set grown id a e g.long, g.slots a),
      )

  -- Where no id is taken twice, all spawned processes are admitted and none is lost.
  pub admit_all-exact :
      (v : P → ℕ) (ss : List (ℕ × P)) (ps : Table)
      → ((a : ℕ) → occupied a ps + named a ss ≤ 1)
      → (in_table v (admit_all f P ss ps) ≡ in_table v ps + in_pending v ss)
        × ((a : ℕ) → occupied a (admit_all f P ss ps) ≡ occupied a ps + named a ss)
  unfolding admit_all
  admit_all-exact v [] ps once = (omega arith, λ a. omega arith)
  admit_all-exact v ((id, p) ∷ ss) ps once =
      let here = admit-exact v id p ps (ground (arith, once id)) in
      let rest = admit_all-exact v ss (admit f P id p ps) (λ a. ground (arith, once a, here.1 a)) in
      (omega (arith, rest.0, here.0), λ a. ground (arith, rest.1 a, here.1 a, once a))
