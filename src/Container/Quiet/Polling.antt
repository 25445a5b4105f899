-- ===== src/Container/Quiet/Polling.antt =====
-- src/resource/container.rs: a container in use whose heads of queues cannot be served, after a new
-- request and after a poll.
use sim_core.Base.{
  ℕ, suc, ◌<◌, ◌≡◌, refl, subst, ◌∙◌, Bool, true, false, not, ◌&&◌, List, [], ◌∷◌, ◌++◌, Option,
  none, some, arith, All, All-append, All-imp, any, if◌then◌else◌,
}
use sim_core.Base.Store.{alloc}
use sim_core.Executor.Waker.{SimWaker}
use sim_core.Float.{Float}
use sim_core.Container.{
  World, is_canceled, is_live, Waiter, ContainerState, get_fits, put_fits, trigger_cascade,
  has_live_get_waiter, has_live_put_waiter,
}
use sim_core.Container.Cascade.{quiet, quiet-Uncanceled, Made, IsQuiet, trigger_cascade-Cascaded}
use sim_core.Container.Cases.{poll_get_cases, poll_put_cases}
use sim_core.Container.Requests.{
  ContainerRequest, Polled, make_request, poll_put, poll_get, Side, gets, puts, Slot, System,
  fresh_flags, poll_side, make_at, after_poll, poll_at, waiter,
}

module _ (f : Float) where
  open f use {F, le, lt, add, sub}

  -- A new waiter goes behind a live one, or cannot be served.
  pub quiet-append :
      (fits : F → F → Bool) (w : World) (level : F) (xs : List (Waiter f)) (y : Waiter f)
      → quiet f fits w level xs ≡ true
      → (fits level y.amount && not (any (is_live f w) xs)) ≡ false
      → quiet f fits w level (xs ++ y ∷ []) ≡ true
  unfolding quiet
  quiet-append fits w level [] y q h = ground arith
  quiet-append fits w level (x ∷ xs) y q h = ground (arith, quiet-append fits w level xs y)

  -- Nothing servable is at the head of a queue, and addresses are where they belong.
  pub record Calm (s : System f) : Type 0 where
    pub rests : IsQuiet f s.state s.world
    pub gets_made : Made f s.world.flags.next s.state.get_waiters
    pub puts_made : Made f s.world.flags.next s.state.put_waiters
    pub slots :
        (a : ℕ) (x : Slot f)
        → s.requests a ≡ some x
        → (x.request.flags ≡ a) × (a < s.world.flags.next)

  pub make_at-Calm :
      (side : Side f) (amount : F) (s : System f)
      → Calm s
      → Calm (make_at f s side (make_request f amount s.state s.world))
  unfolding make_request
  make_at-Calm side amount s v = go (lt f.zero amount && le amount s.state.capacity)
    where
      w' : World
      w' = record s.world { flags = alloc fresh_flags s.world.flags }

      agree :
          (xs : List (Waiter f))
          → Made f s.world.flags.next xs
          → All (λ x. is_canceled w' x.flags ≡ is_canceled s.world x.flags) xs
      agree xs m =
          All-imp (λ x. x.flags < s.world.flags.next)
            (λ x. is_canceled w' x.flags ≡ is_canceled s.world x.flags) xs (λ x lt. ground arith) m

      wider :
          (xs : List (Waiter f)) → Made f s.world.flags.next xs → Made f (suc s.world.flags.next) xs
      wider xs m =
          All-imp (λ x. x.flags < s.world.flags.next) (λ x. x.flags < suc s.world.flags.next) xs
            (λ x lt. omega arith) m

      go :
          (b : Bool)
          → Calm (
              make_at f s side (
                if b
                then some
                    (record { amount = amount; registered = false; flags = s.world.flags.next }, w')
                else none))
      go false = v
      go true = record {
        rests = record {
          gets =
              quiet-Uncanceled f (get_fits f) w' s.world s.state.level s.state.get_waiters
                (agree s.state.get_waiters v.gets_made)
              ∙ v.rests.gets;
          puts =
              quiet-Uncanceled f (put_fits f s.state.capacity) w' s.world s.state.level
                s.state.put_waiters (agree s.state.put_waiters v.puts_made)
              ∙ v.rests.puts;
        };
        gets_made = wider s.state.get_waiters v.gets_made;
        puts_made = wider s.state.put_waiters v.puts_made;
        slots = λ a x e. ground (arith, v.slots a x);
      }

  -- What a poll by a request made here leaves.
  pub record CalmPoll (n : ℕ) (a : ℕ) (p : Polled f) : Type 0 where
    rests : IsQuiet f p.state p.world
    gets_made : Made f n p.state.get_waiters
    puts_made : Made f n p.state.put_waiters
    next : p.world.flags.next ≡ n
    own : p.request.flags ≡ a

  module _ (s : System f) (v : Calm s) (r : ContainerRequest f) (waker : SimWaker)
      (lt' : r.flags < s.world.flags.next) where
    cascaded :
        (t : ContainerState f)
        → t.get_waiters ≡ s.state.get_waiters
        → t.put_waiters ≡ s.state.put_waiters
        → let c = trigger_cascade f t s.world in
          CalmPoll s.world.flags.next r.flags
            (record { ready = true; request = r; state = c.0; world = c.1 })
    cascaded t eg ep =
        let c = trigger_cascade-Cascaded f t s.world in
        let m = c.made s.world.flags.next (rw eg v.gets_made, rw ep v.puts_made) in
        record { rests = c.rests; gets_made = m.0; puts_made = m.1; next = c.next; own = refl }

    unmoved :
        (b : Bool) (q : ContainerRequest f)
        → q.flags ≡ r.flags
        → CalmPoll s.world.flags.next r.flags
            (record { ready = b; request = q; state = s.state; world = s.world })
    unmoved b q e = record {
      rests = v.rests;
      gets_made = v.gets_made;
      puts_made = v.puts_made;
      next = refl;
      own = e;
    }

    get_calm : CalmPoll s.world.flags.next r.flags (poll_get f r waker s.state s.world)
    unfolding has_live_get_waiter
    get_calm =
        poll_get_cases f r waker s.state s.world (CalmPoll s.world.flags.next r.flags)
          (λ _. unmoved true r refl) (λ _ _ _. cascaded _ refl refl)
          (λ _ _ h. record {
            rests = record {
              gets =
                  quiet-append (get_fits f) s.world s.state.level s.state.get_waiters
                    (waiter f r waker) v.rests.gets h;
              puts = v.rests.puts;
            };
            gets_made = All-append _ s.state.get_waiters _ v.gets_made (lt', tt);
            puts_made = v.puts_made;
            next = refl;
            own = refl;
          })
          (λ _ _. unmoved false _ refl)

    put_calm : CalmPoll s.world.flags.next r.flags (poll_put f r waker s.state s.world)
    unfolding has_live_put_waiter
    put_calm =
        poll_put_cases f r waker s.state s.world (CalmPoll s.world.flags.next r.flags)
          (λ _. unmoved true r refl) (λ _ _ _. cascaded _ refl refl)
          (λ _ _ h. record {
            rests = record {
              gets = v.rests.gets;
              puts =
                  quiet-append (put_fits f s.state.capacity) s.world s.state.level
                    s.state.put_waiters (waiter f r waker) v.rests.puts h;
            };
            gets_made = v.gets_made;
            puts_made = All-append _ s.state.put_waiters _ v.puts_made (lt', tt);
            next = refl;
            own = refl;
          })
          (λ _ _. unmoved false _ refl)

  pub after_poll-Calm :
      (s : System f) (a : ℕ) (x : Slot f) (p : Polled f)
      → Calm s
      → a < s.world.flags.next
      → CalmPoll s.world.flags.next a p
      → Calm (after_poll f s a x p)
  after_poll-Calm s a x p v lt' c = record {
    rests = c.rests;
    gets_made = rw c.next c.gets_made;
    puts_made = rw c.next c.puts_made;
    slots = λ b y e. ground (arith, v.slots b y, c.next, c.own);
  }

  pub poll_at-Calm :
      (s : System f) (a : ℕ) (waker : SimWaker) (o : Option (Slot f))
      → s.requests a ≡ o
      → Calm s
      → Calm (poll_at f s a waker o)
  poll_at-Calm s a waker none e v = v
  poll_at-Calm s a waker (some x) e v = go x.finished x.side
    where
      own : (x.request.flags ≡ a) × (a < s.world.flags.next)
      own = v.slots a x e

      inside : x.request.flags < s.world.flags.next
      inside = omega (arith, own)

      go :
          (done : Bool) (side : Side f)
          → Calm (
              if done
              then s
              else after_poll f s a x (poll_side f side x.request waker s.state s.world))
      go true side = v
      go false gets = after_poll-Calm s a x _ v own.1 (
          subst (λ b. CalmPoll s.world.flags.next b (poll_get f x.request waker s.state s.world))
            own.0 (get_calm s v x.request waker inside))
      go false puts = after_poll-Calm s a x _ v own.1 (
          subst (λ b. CalmPoll s.world.flags.next b (poll_put f x.request waker s.state s.world))
            own.0 (put_calm s v x.request waker inside))
