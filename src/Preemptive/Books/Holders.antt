-- ===== src/Preemptive/Books/Holders.antt =====
-- src/resource/preemptive.rs: the holders of a pool in use against its guards.
use sim_core.Base.{
  ℕ, ◌+◌, ◌<◌, ◌≡◌, ◌≢◌, refl, ap, subst, Bool, true, false, List, [], ◌∷◌, ◌++◌, Option, none,
  some, arith, All, All-append, All-imp, count, count-append, length, update, if◌then◌else◌, ◌==◌,
  u64_mod,
}
use sim_core.Preemptive.{Holder, PreemptiveGuard, Scene, grant, signal_preempted, remove_id}
use sim_core.Event.{fire}

abbrev pub holds : ℕ → List Holder → ℕ
holds a hs = count (λ (h : Holder). h.id == a) hs

-- The guards, by id: each has a holder unless it has been preempted. An id is the address of the
-- cells too, since both are counted up together.
pub record Held (sc : Scene) (guards : ℕ → Option PreemptiveGuard) : Type 0 where
  pub synced : sc.state.next_holder_id ≡ sc.signals.next
  pub numbered :
      All (λ (h : Holder). (h.id ≡ h.signal) × (h.signal < sc.signals.next)) sc.state.holders
  pub own :
      (a : ℕ) (g : PreemptiveGuard)
      → guards a ≡ some g
      → (g.id ≡ a) × (g.signal ≡ a) × (a < sc.signals.next)
  pub backed :
      (a : ℕ) (g : PreemptiveGuard)
      → guards a ≡ some g
      → (sc.signals.cell a).preempted ≡ false
      → 0 < holds a sc.state.holders

pub grant-Held :
    (priority : ℕ) (sc : Scene) (guards : ℕ → Option PreemptiveGuard)
    → sc.signals.next + 1 < u64_mod
    → Held sc guards
    → let (g, sc') = grant priority sc in Held sc' (update guards g.id (some g))
unfolding grant
grant-Held priority sc guards room held =
    let h : Holder = record {
      priority = priority;
      id = sc.state.next_holder_id;
      signal = sc.signals.next;
    } in
    record {
      synced = omega (arith, held.synced);
      numbered =
          All-append _ sc.state.holders (h ∷ [])
            (All-imp _ _ sc.state.holders (λ x p. (p.0, omega (arith, p.1))) held.numbered)
            ((held.synced, omega arith), tt);
      own = λ a g e. ground (arith, held.own a g, held.synced);
      backed = λ a g e kept. ground (
        arith,
        held.backed a g,
        held.own a g,
        held.synced,
        count-append {0} (λ (x : Holder). x.id == a) sc.state.holders (h ∷ []),
      );
    }

All-without :
    (P : Holder → Type 0) (before : List Holder) (v : Holder) (after : List Holder)
    → All P (before ++ v ∷ after)
    → P v × All P (before ++ after)
All-without P [] v after h = h
All-without P (x ∷ xs) v after h =
    let (hv, rest) = All-without P xs v after h.1 in (hv, (h.0, rest))

-- The victim's entry goes and it is told.
pub evict-Held :
    (sc : Scene) (guards : ℕ → Option PreemptiveGuard) (before : List Holder) (v : Holder)
    (after : List Holder)
    → sc.state.holders ≡ before ++ v ∷ after
    → Held sc guards
    → Held
        (signal_preempted v (record sc { state = record (sc.state) { holders = before ++ after } }))
        guards
unfolding signal_preempted fire
evict-Held sc guards before v after split held = record {
  synced = held.synced;
  numbered = apart.1;
  own = held.own;
  backed = λ a g e kept. ground (
    arith,
    held.backed a g e,
    ap (holds a) split,
    count-append {0} (λ (x : Holder). x.id == a) before (v ∷ after),
    count-append {0} (λ (x : Holder). x.id == a) before after,
    apart.0,
  );
}
  where
    apart :
        ((v.id ≡ v.signal) × (v.signal < sc.signals.next))
        × All (λ (h : Holder). (h.id ≡ h.signal) × (h.signal < sc.signals.next)) (before ++ after)
    apart = All-without _ before v after (subst (All _) split held.numbered)

pub length-remove_id :
    (a : ℕ) (hs : List Holder) → 0 < holds a hs → length (remove_id a hs) + 1 ≡ length hs
unfolding remove_id
length-remove_id a [] h = absurd (omega arith)
length-remove_id a (x ∷ xs) h = ground (arith, length-remove_id a xs)

holds-remove_id : (a b : ℕ) (hs : List Holder) → a ≢ b → holds b (remove_id a hs) ≡ holds b hs
unfolding remove_id
holds-remove_id a b [] h = refl
holds-remove_id a b (x ∷ xs) h = ground (arith, holds-remove_id a b xs)

All-remove_id : (P : Holder → Type 0) (a : ℕ) (hs : List Holder) → All P hs → All P (remove_id a hs)
unfolding remove_id
All-remove_id P a [] h = tt
All-remove_id P a (x ∷ xs) h = go (x.id == a) (All-remove_id P a xs h.1)
  where
    go : (b : Bool) → All P (remove_id a xs) → All P (if b then xs else x ∷ remove_id a xs)
    go true rest = h.1
    go false rest = (h.0, rest)

-- A guard that has not been preempted goes, and its holder with it.
pub leave-Held :
    (sc : Scene) (guards : ℕ → Option PreemptiveGuard) (a : ℕ)
    → Held sc guards
    → Held
        (record sc { state = record (sc.state) { holders = remove_id a sc.state.holders } })
        (update guards a none)
leave-Held sc guards a held = record {
  synced = held.synced;
  numbered = All-remove_id _ a sc.state.holders held.numbered;
  own = λ b g e. ground (arith, held.own b g);
  backed = λ b g e kept. ground (arith, held.backed b g, holds-remove_id a b sc.state.holders);
}

-- A guard that has been preempted goes.
pub forget-Held :
    (sc : Scene) (guards : ℕ → Option PreemptiveGuard) (a : ℕ)
    → Held sc guards
    → Held sc (update guards a none)
forget-Held sc guards a held = record {
  synced = held.synced;
  numbered = held.numbered;
  own = λ b g e. ground (arith, held.own b g);
  backed = λ b g e kept. ground (arith, held.backed b g);
}
