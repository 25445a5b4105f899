-- ===== src/Compare/Queue/Tended/Polls.antt =====
-- examples/compare.rs: a poll of a process of a simulated queue leaves every process with what will
-- wake it.
use sim_core.Base.{
  ℕ, ◌+◌, ◌<◌, ◌≤◌, ◌≡◌, ◌≢◌, refl, sym, ap, ◌∙◌, subst, inl, inr, Bool, true, false, List, ◌∷◌,
  Option, none, some, arith, update, if◌then◌else◌, ◌==◌, Bool-cases, total, total-change,
  total-suc, total-eq, u64_mod,
}
use mathlib.Core.Path.{fun_ext}
use sim_core.Base.Order.{Ord}
use sim_core.Float.{Float}
use sim_core.Executor.Waker.{SimWaker, make_waker}
use sim_core.Executor.State.{ProcessEntry}
use sim_core.Env.Effects.{times}
use sim_core.Env.Effects.Entry.{kid_count, newborn, born, next_id, as_entry, Effect}
use sim_core.WaitQueue.{is_granted}
use sim_core.Compare.Queue.{
  Shared, entering, waiting, served, Process, arrives, customer, Done, world,
}
use sim_core.Compare.Queue.Laws.{to_come}
use sim_core.Compare.Queue.Books.{idle, Booked}
use sim_core.Compare.Queue.Books.Leaving.{grow-Booked}
use sim_core.Compare.Queue.Sources.{role_left, coming, IsEntering, Rests, Settles}
use sim_core.Compare.Queue.Tended.{
  Run, slot, role_at, coming_at, Source, Tended, Source-moves, Rests-Source,
}

pub total-ge : (n i : ℕ) (w : ℕ → ℕ) → i < n → w i ≤ total n w
total-ge n i w lt = omega (
  arith,
  total-change n i (update w i 0) w lt (λ j ne. ground arith),
  (let gone : update w i 0 i ≡ 0 = ground arith in gone),
)

module _ (f : Float) {K : Type 0} ⦃o : Ord K⦄ where
  -- After a poll of the process `id`, by what it did to the environment and to the books.
  module _ (program' : f.F → SimWaker → Shared f K → Process f K → Done f K) (id : ℕ)
      (batch : List ℕ) (p : Process f K) (m m' : Run f K) (out : Done f K)
      (kid : Option (Process f K)) (h : Tended f K (id ∷ batch) m)
      (here : slot f K m id ≡ some (record { future = p; waker = make_waker id }))
      (lt : id < m.state.next_process_id)
      (s : Settles f K m.state.next_process_id
        (λ x. role_at f K (slot f K m x))
        id
        m.state.event_queue
        m.shared
        (to_come f K p)
        kid
        out)
      (k : Effect f
        (Process f K)
        program'
        id
        (record { future = p; waker = make_waker id })
        out
        kid
        m
        m') where
    abbrev n : ℕ
    n = m.state.next_process_id

    -- A process that comes in has nothing of the resource and brings nobody.
    newcomer :
        (q : Option (Process f K))
        → IsEntering f K q
        → (role_left f K q ≡ idle) × (coming f K q ≡ 0)
    newcomer none e = (refl, refl)
    newcomer (some (arrives left t)) e = elim e [ ]
    newcomer (some (customer key arrival service (waiting r))) e = elim e [ ]
    newcomer (some (customer key arrival service (served wait t))) e = elim e [ ]
    newcomer (some (customer key arrival service entering)) e = (refl, refl)

    roles-after :
        (x : ℕ)
        → role_at f K (slot f K m' x)
          ≡ update (λ y. role_at f K (slot f K m y)) id (role_left f K out.left) x
    roles-after x = ap (role_at f K) (k.entries x) ∙ split (id == x)
      where
        left-role :
            (l : Option (Process f K))
            → role_at f K (as_entry f (Process f K) (make_waker id) l) ≡ role_left f K l
        left-role none = refl
        left-role (some q) = refl

        kid-role :
            (q : Option (Process f K))
            → IsEntering f K q
            → role_at f K (newborn f (Process f K) q m.state.next_process_id x (slot f K m x))
              ≡ role_at f K (slot f K m x)
        kid-role none e = refl
        kid-role (some (arrives left t)) e = elim e [ ]
        kid-role (some (customer key arrival service (waiting r))) e = elim e [ ]
        kid-role (some (customer key arrival service (served wait t))) e = elim e [ ]
        kid-role (some (customer key arrival service entering)) e =
            ground (arith, ap (role_at f K) (h.fresh m.state.next_process_id (omega arith)))

        split :
            (b : Bool)
            → role_at f K (
                if b
                then as_entry f (Process f K) (make_waker id) out.left
                else newborn f (Process f K) kid m.state.next_process_id x (slot f K m x))
              ≡ (if b then role_left f K out.left else role_at f K (slot f K m x))
        split true = left-role out.left
        split false = kid-role kid s.enters

    Booked-after :
        Booked K m'.state.next_process_id
          (λ x. role_at f K (slot f K m' x))
          m'.shared.queue
          m'.shared.flags
    Booked-after =
        subst (λ i. Booked K i (λ x. role_at f K (slot f K m' x)) m'.shared.queue m'.shared.flags)
          (sym k.next)
          (subst (λ rs. Booked K (next_id f (Process f K) kid n) rs m'.shared.queue m'.shared.flags)
            (sym (fun_ext roles-after))
            (subst
              (λ v.
                Booked K (next_id f (Process f K) kid n)
                  (update (λ y. role_at f K (slot f K m y)) id (role_left f K out.left)) v.queue
                  v.flags)
              (sym k.shared) (grown kid)))
      where
        grown :
            (q : Option (Process f K))
            → Booked K
                (next_id f (Process f K) q m.state.next_process_id)
                (update (λ y. role_at f K (slot f K m y)) id (role_left f K out.left))
                out.shared.queue
                out.shared.flags
        grown none = s.booked
        grown (some q) =
            grow-Booked m.state.next_process_id _ out.shared.queue out.shared.flags s.booked

    coming-after :
        (x : ℕ)
        → coming_at f K (slot f K m' x)
          ≡ update (λ y. coming_at f K (slot f K m y)) id (coming f K out.left) x
    coming-after x = ap (coming_at f K) (k.entries x) ∙ split (id == x)
      where
        left-coming :
            (l : Option (Process f K))
            → coming_at f K (as_entry f (Process f K) (make_waker id) l) ≡ coming f K l
        left-coming none = refl
        left-coming (some q) = refl

        kid-coming :
            (q : Option (Process f K))
            → IsEntering f K q
            → coming_at f K (newborn f (Process f K) q m.state.next_process_id x (slot f K m x))
              ≡ coming_at f K (slot f K m x)
        kid-coming none e = refl
        kid-coming (some (arrives left t)) e = elim e [ ]
        kid-coming (some (customer key arrival service (waiting r))) e = elim e [ ]
        kid-coming (some (customer key arrival service (served wait t))) e = elim e [ ]
        kid-coming (some (customer key arrival service entering)) e =
            ground (arith, ap (coming_at f K) (h.fresh m.state.next_process_id (omega arith)))

        split :
            (b : Bool)
            → coming_at f K (
                if b
                then as_entry f (Process f K) (make_waker id) out.left
                else newborn f (Process f K) kid m.state.next_process_id x (slot f K m x))
              ≡ (if b then coming f K out.left else coming_at f K (slot f K m x))
        split true = left-coming out.left
        split false = kid-coming kid s.enters

    fits :
        (q : Option (Process f K))
        → coming f K out.left + kid_count f (Process f K) q ≤ to_come f K p
        → next_id f (Process f K) q n
            + total
                (next_id f (Process f K) q n)
                (update (λ y. coming_at f K (slot f K m y)) id (coming f K out.left))
          < u64_mod
    fits none fewer = omega (
      arith,
      h.room,
      ap (coming_at f K) here,
      (let own : update (λ y. coming_at f K (slot f K m y)) id (coming f K out.left) id
              ≡ coming f K out.left =
            ground arith in
          own),
      total-change n id (update (λ y. coming_at f K (slot f K m y)) id (coming f K out.left))
          (λ y. coming_at f K (slot f K m y)) lt (λ j ne. ground arith),
    )
    fits (some q) fewer = omega (
      arith,
      h.room,
      ap (coming_at f K) here,
      (let own : update (λ y. coming_at f K (slot f K m y)) id (coming f K out.left) id
              ≡ coming f K out.left =
            ground arith in
          own),
      total-change n id (update (λ y. coming_at f K (slot f K m y)) id (coming f K out.left))
          (λ y. coming_at f K (slot f K m y)) lt (λ j ne. ground arith),
      total-suc n (update (λ y. coming_at f K (slot f K m y)) id (coming f K out.left)),
      (let last : update (λ y. coming_at f K (slot f K m y)) id (coming f K out.left) n ≡ 0 =
            ground (arith, lt, ap (coming_at f K) (h.fresh n (omega arith))) in
          last),
    )

    room-after :
        m'.state.next_process_id
          + total m'.state.next_process_id (λ x. coming_at f K (slot f K m' x))
        < u64_mod
    room-after =
        subst (λ i. i + total i (λ x. coming_at f K (slot f K m' x)) < u64_mod) (sym k.next)
          (omega (
            arith,
            total-eq (next_id f (Process f K) kid n) (λ x. coming_at f K (slot f K m' x))
                (update (λ y. coming_at f K (slot f K m y)) id (coming f K out.left))
                (λ x lt. coming-after x),
            fits kid s.fewer,
          ))

    fresh-after : (x : ℕ) → m'.state.next_process_id ≤ x → slot f K m' x ≡ none
    fresh-after x le = k.entries x ∙ ground (arith, lt, beyond kid (subst (λ i. i ≤ x) k.next le))
      where
        beyond :
            (q : Option (Process f K))
            → next_id f (Process f K) q m.state.next_process_id ≤ x
            → (newborn f (Process f K) q m.state.next_process_id x (slot f K m x) ≡ none)
              × (m.state.next_process_id ≤ x)
        beyond none le = (h.fresh x le, le)
        beyond (some q) le = (ground (arith, le, h.fresh x (omega (arith, le))), omega (arith, le))

    some_inj : (a b : ProcessEntry f (Process f K)) → some a ≡ some b → a ≡ b
    some_inj a b e = cc e

    -- The polled process, if something is left of it.
    left-Source :
        (l : Option (Process f K)) (e : ProcessEntry f (Process f K))
        → Rests f K id m.state.event_queue out.calls out.shared l
        → as_entry f (Process f K) (make_waker id) l ≡ some e
        → (e.waker ≡ make_waker id) × Source f K batch m' id e.future
    left-Source none e rests at = absurd cc
    left-Source (some q) e rests at =
        subst (λ e'. (e'.waker ≡ make_waker id) × Source f K batch m' id e'.future)
          (some_inj (record { future = q; waker = make_waker id }) e at)
          (refl, Rests-Source f K batch m m' id out k.shared (k.alarms id) (k.events id) q rests)

    -- A process that was there before.
    other-Source :
        (x : ℕ) (e : ProcessEntry f (Process f K))
        → id ≢ x
        → slot f K m x ≡ some e
        → (e.waker ≡ make_waker x) × Source f K batch m' x e.future
    other-Source x e ne at =
        let (waker, source) = h.sources x e at in
        (
          waker,
          Source-moves f K (id ∷ batch) batch m m' x (λ woke. ground (arith, ne, woke, k.ready x))
              (λ t there. inl (k.events x t there))
              (λ t woke le. ap (λ now. f.le t now) k.time ∙ le) e.future
              (λ r role granted.
                elim (s.grants x r ne (ap (role_at f K) at ∙ role)
                  (ap (λ u. is_granted (world f K u) r.flags) (sym k.shared) ∙ granted)) [
                    | inl before ↦ inl before
                    | inr woke ↦ inr (omega (arith, woke, k.ready x))
                  ])
              source,
        )

    -- A process that came in.
    kid-Source :
        (q : Option (Process f K)) (x : ℕ) (e : ProcessEntry f (Process f K))
        → IsEntering f K q
        → (born f (Process f K) q n x ≤ times x m'.state.ready_queue)
        → id ≢ x
        → newborn f (Process f K) q n x (slot f K m x) ≡ some e
        → (e.waker ≡ make_waker x) × Source f K batch m' x e.future
    kid-Source none x e enters woke ne at = other-Source x e ne at
    kid-Source (some (arrives left t)) x e enters woke ne at = elim enters [ ]
    kid-Source (some (customer key arrival service (waiting r))) x e enters woke ne at =
        elim enters [ ]
    kid-Source (some (customer key arrival service (served wait t))) x e enters woke ne at =
        elim enters [ ]
    kid-Source (some (customer key arrival service entering)) x e enters woke ne at =
        elim (Bool-cases (n == x)) [
          | inl new ↦ born_here (ground (arith, new)) (ground (arith, new, at))
          | inr old ↦ other-Source x e ne (ground (arith, old, at))
        ]
      where
        q : Process f K
        q = customer key arrival service entering

        born_here :
            m.state.next_process_id ≡ x
            → some (record {
              future = customer key arrival service entering;
              waker = make_waker m.state.next_process_id;
            })
              ≡ some e
            → (e.waker ≡ make_waker x) × Source f K batch m' x e.future
        born_here same at =
            subst (λ e'. (e'.waker ≡ make_waker x) × Source f K batch m' x e'.future)
              (some_inj
                (record {
                  future = customer key arrival service entering;
                  waker = make_waker m.state.next_process_id;
                })
                e at)
              (ap make_waker same, ground (arith, woke, same))

    sources-after :
        (x : ℕ) (e : ProcessEntry f (Process f K))
        → slot f K m' x ≡ some e
        → (e.waker ≡ make_waker x) × Source f K batch m' x e.future
    sources-after x e there = split (id == x) refl (sym (k.entries x) ∙ there)
      where
        split :
            (b : Bool)
            → (id == x) ≡ b
            → (if b
                then as_entry f (Process f K) (make_waker id) out.left
                else newborn f (Process f K) kid m.state.next_process_id x (slot f K m x))
              ≡ some e
            → (e.waker ≡ make_waker x) × Source f K batch m' x e.future
        split true same at =
            let x_id : id ≡ x = ground (arith, same) in
            subst (λ y. (e.waker ≡ make_waker y) × Source f K batch m' y e.future) x_id
              (left-Source out.left e s.rests at)
        split false other at =
            kid-Source kid x e s.enters (omega (arith, k.ready x)) (λ e. ground (arith, other, e))
              at

    pub after-Tended : Tended f K batch m'
    after-Tended = record {
      settled = k.settled;
      booked = Booked-after;
      room = room-after;
      fresh = fresh-after;
      sources = sources-after;
    }
