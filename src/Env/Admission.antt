-- ===== src/Env/Admission.antt =====
-- src/env.rs: the processes that were spawned, when the loop takes them up.
use sim_core.Base.{
  ℕ, zero, suc, ◌+◌, ◌-◌, ◌<◌, ◌≡◌, ◌≢◌, refl, ◌∙◌, ap, Bool, true, false, List, [], ◌∷◌, ◌++◌,
  Option, some, arith, length, length-append, get_elem?, set, All, leb, if◌then◌else◌,
}
use sim_core.Float.{Float}
use sim_core.Executor.Waker.{make_waker}
use sim_core.Executor.State.{SimState, ProcessEntry}
use sim_core.Env.{nones, resize, admit, admit_all, drain_pending_spawns, ids}

module _ {ℓ} {A : Type ℓ} where
  get_elem?-set : (xs : List A) (i : ℕ) (v : A) → i < length xs → get_elem? (set xs i v) i ≡ some v
  get_elem?-set [] i v h = absurd (omega arith)
  get_elem?-set (x ∷ xs) zero v h = refl
  get_elem?-set (x ∷ xs) (suc i) v h = get_elem?-set xs i v (omega arith)

  get_elem?-set_other :
      (xs : List A) (i j : ℕ) (v : A) → i ≢ j → get_elem? (set xs i v) j ≡ get_elem? xs j
  get_elem?-set_other [] i j v h = refl
  get_elem?-set_other (x ∷ xs) zero zero v h = absurd (h refl)
  get_elem?-set_other (x ∷ xs) zero (suc j) v h = refl
  get_elem?-set_other (x ∷ xs) (suc i) zero v h = refl
  get_elem?-set_other (x ∷ xs) (suc i) (suc j) v h =
      get_elem?-set_other xs i j v (λ e. h (ap suc e))

  get_elem?-append :
      (xs ys : List A) (j : ℕ) (v : A) → get_elem? xs j ≡ some v → get_elem? (xs ++ ys) j ≡ some v
  get_elem?-append [] ys j v h = cc
  get_elem?-append (x ∷ xs) ys zero v h = h
  get_elem?-append (x ∷ xs) ys (suc j) v h = get_elem?-append xs ys j v h

module _ (f : Float) (P : Type 0) where
  length-nones : (n : ℕ) → length (nones f P n) ≡ n
  length-nones zero = refl
  length-nones (suc n) = ap suc (length-nones n)

  abbrev Table : Type 0
  Table = List (Option (ProcessEntry f P))

  abbrev grown : ℕ → Table → Table
  grown id ps = if leb (length ps) id then resize f P (id + 1) ps else ps

  grown-long : (id : ℕ) (ps : Table) → id < length (grown id ps)
  grown-long id ps = go (leb (length ps) id) refl
    where
      go :
          (b : Bool)
          → leb (length ps) id ≡ b
          → id < length (if b then resize f P (id + 1) ps else ps)
      go true e = ground (
        arith,
        e,
        length-append ps (nones f P (id + 1 - length ps)),
        length-nones (id + 1 - length ps),
      )
      go false e = ground (arith, e)

  grown-keeps :
      (id j : ℕ) (ps : Table) (v : Option (ProcessEntry f P))
      → get_elem? ps j ≡ some v
      → get_elem? (grown id ps) j ≡ some v
  grown-keeps id j ps v h = go (leb (length ps) id)
    where
      go : (b : Bool) → get_elem? (if b then resize f P (id + 1) ps else ps) j ≡ some v
      go true = get_elem?-append ps _ j v h
      go false = h

  abbrev pub entry : ℕ × P → Option (ProcessEntry f P)
  entry (id, p) = some (record { future = p; waker = make_waker id })

  admit_all-keeps :
      (pending : List (ℕ × P)) (ps : Table) (j : ℕ) (v : Option (ProcessEntry f P))
      → All (λ (s : ℕ × P). s.0 ≢ j) pending
      → get_elem? ps j ≡ some v
      → get_elem? (admit_all f P pending ps) j ≡ some v
  unfolding admit_all
  admit_all-keeps [] ps j v others h = h
  admit_all-keeps ((id, p) ∷ rest) ps j v others h =
      admit_all-keeps rest (admit f P id p ps) j v others.1
        (get_elem?-set_other (grown id ps) id j _ others.0 ∙ grown-keeps id j ps v h)

  abbrev pub Distinct : List (ℕ × P) → Type 0
  Distinct [] = Unit
  Distinct (s ∷ ss) = All (λ (t : ℕ × P). t.0 ≢ s.0) ss × Distinct ss

  admit_all-admits :
      (pending : List (ℕ × P)) (ps : Table)
      → Distinct pending
      → All (λ (s : ℕ × P). get_elem? (admit_all f P pending ps) s.0 ≡ some (entry s)) pending
  unfolding admit_all
  admit_all-admits [] ps distinct = tt
  admit_all-admits ((id, p) ∷ rest) ps distinct = (
    admit_all-keeps rest (admit f P id p ps) id _ distinct.0
        (get_elem?-set (grown id ps) id _ (grown-long id ps)),
    admit_all-admits rest (admit f P id p ps) distinct.1,
  )

  -- When the spawned processes, whose ids are distinct, are taken up, each is in the slot of its id
  -- with a waker for it, their ids go behind what was ready, in the order of the spawns, every slot
  -- of another id is as it was, and nothing is left to take up.
  pub drain_pending_spawns-admits :
      (s : SimState f P) (j : ℕ) (v : Option (ProcessEntry f P))
      → Distinct s.pending_spawns
      → All (λ (t : ℕ × P). t.0 ≢ j) s.pending_spawns
      → get_elem? s.processes j ≡ some v
      → let s' = drain_pending_spawns f P s in
        All (λ (t : ℕ × P). get_elem? s'.processes t.0 ≡ some (entry t)) s.pending_spawns
        × (s'.ready_queue ≡ s.ready_queue ++ ids f P s.pending_spawns)
        × (get_elem? s'.processes j ≡ some v)
        × (s'.pending_spawns ≡ [])
  unfolding drain_pending_spawns
  drain_pending_spawns-admits s j v distinct others h = (
    admit_all-admits s.pending_spawns s.processes distinct,
    refl,
    admit_all-keeps s.pending_spawns s.processes j v others h,
    refl,
  )
