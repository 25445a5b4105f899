-- ===== src/Compare/Args.antt =====
-- examples/compare.rs: the arguments of the command line. What `str::parse` reads is the standard
-- library's.
use sim_core.Base.{
  ℕ, ◌≡◌, refl, ap, ◌∙◌, Bool, true, false, List, [], ◌∷◌, Option, some, if◌then◌else◌, All,
}
use sim_core.Float.{Float}
use sim_core.Env.{Result, ok, panicked, ◌>>=◌, or_panic}
use sim_core.Rng.Sample.{Math}
use sim_core.Compare.Json.{Text, codes, same}

-- `val.parse()` at `u64`, `usize` and `f64`.
pub record Parse (f : Float) : Type 0 where
  pub u64 : Text → Option ℕ
  pub usize : Text → Option ℕ
  pub f64 : Text → Option f.F

module _ (f : Float) where
  open f use {F}

  pub record Args : Type 0 where
    pub model : Text
    pub seeds : ℕ
    pub n : ℕ
    pub lambda : F
    pub mu : F
    pub servers : ℕ
    pub parallel : Bool

  module _ (parse : Parse f) where
    -- The `match` on the key; an unknown key or a value that does not parse panics.
    unfoldable pub set : Text → Text → Args → Result Args
    set key val args =
        if same key (codes "--model")
        then ok (record args { model = val })
        else (if same key (codes "--seeds")
            then (or_panic (parse.u64 val) >>= λ x. ok (record args { seeds = x }))
            else (if same key (codes "--n")
                then (or_panic (parse.u64 val) >>= λ x. ok (record args { n = x }))
                else (if same key (codes "--lambda")
                    then (or_panic (parse.f64 val) >>= λ x. ok (record args { lambda = x }))
                    else (if same key (codes "--mu")
                        then (or_panic (parse.f64 val) >>= λ x. ok (record args { mu = x }))
                        else (if same key (codes "--servers")
                            then (or_panic (parse.usize val) >>= λ x.
                                ok (record args { servers = x }))
                            else panicked)))))

    -- The loop over the arguments; a key that is the last has the empty value.
    unfoldable pub parse_from : List Text → Args → Result Args
    parse_from [] args = ok args
    parse_from (key ∷ []) args =
        if same key (codes "--parallel")
        then ok (record args { parallel = true })
        else set key [] args
    parse_from (key ∷ val ∷ rest) args =
        let flagged = parse_from (val ∷ rest) (record args { parallel = true }) in
        let valued = set key val args >>= parse_from rest in
        if same key (codes "--parallel") then flagged else valued

    -- One turn of the loop, for an option with a value.
    parse_from-set :
        (key val : Text) (rest : List Text) (args args' : Args)
        → same key (codes "--parallel") ≡ false
        → set key val args ≡ ok args'
        → parse_from (key ∷ val ∷ rest) args ≡ parse_from rest args'
    unfolding parse_from
    parse_from-set key val rest args args' h g = cc (h, g)

    set-seeds :
        (val : Text) (x : ℕ) (args : Args)
        → parse.u64 val ≡ some x
        → set (codes "--seeds") val args ≡ ok (record args { seeds = x })
    unfolding set
    set-seeds val x args h = ap (λ o. or_panic o >>= λ y. ok (record args { seeds = y })) h

    set-n :
        (val : Text) (x : ℕ) (args : Args)
        → parse.u64 val ≡ some x
        → set (codes "--n") val args ≡ ok (record args { n = x })
    unfolding set
    set-n val x args h = ap (λ o. or_panic o >>= λ y. ok (record args { n = y })) h

    set-lambda :
        (val : Text) (x : F) (args : Args)
        → parse.f64 val ≡ some x
        → set (codes "--lambda") val args ≡ ok (record args { lambda = x })
    unfolding set
    set-lambda val x args h = ap (λ o. or_panic o >>= λ y. ok (record args { lambda = y })) h

    set-mu :
        (val : Text) (x : F) (args : Args)
        → parse.f64 val ≡ some x
        → set (codes "--mu") val args ≡ ok (record args { mu = x })
    unfolding set
    set-mu val x args h = ap (λ o. or_panic o >>= λ y. ok (record args { mu = y })) h

    set-servers :
        (val : Text) (x : ℕ) (args : Args)
        → parse.usize val ≡ some x
        → set (codes "--servers") val args ≡ ok (record args { servers = x })
    unfolding set
    set-servers val x args h = ap (λ o. or_panic o >>= λ y. ok (record args { servers = y })) h

    parse_from-parallel :
        (rest : List Text) (args : Args)
        → parse_from (codes "--parallel" ∷ rest) args
          ≡ parse_from rest (record args { parallel = true })
    unfolding parse_from
    parse_from-parallel [] args = refl
    parse_from-parallel (val ∷ rest) args = refl

  -- What a user asks for, an option at a time.
  pub data Setting : Type 0 where
    to_model : Text → Setting
    to_seeds : ℕ → Setting
    to_n : ℕ → Setting
    to_lambda : F → Setting
    to_mu : F → Setting
    to_servers : ℕ → Setting
    in_parallel : Setting

  -- The specification: what a setting means for the arguments.
  abbrev pub apply : Setting → Args → Args
  apply (to_model t) args = record args { model = t }
  apply (to_seeds x) args = record args { seeds = x }
  apply (to_n x) args = record args { n = x }
  apply (to_lambda x) args = record args { lambda = x }
  apply (to_mu x) args = record args { mu = x }
  apply (to_servers x) args = record args { servers = x }
  apply in_parallel args = record args { parallel = true }

  abbrev pub settled : List Setting → Args → Args
  settled [] args = args
  settled (s ∷ ss) args = settled ss (apply s args)

  -- A setting in front of the rest of the command line.
  abbrev pub say : (F → Text) → (ℕ → Text) → Setting → List Text → List Text
  say print show (to_model t) rest = codes "--model" ∷ t ∷ rest
  say print show (to_seeds x) rest = codes "--seeds" ∷ show x ∷ rest
  say print show (to_n x) rest = codes "--n" ∷ show x ∷ rest
  say print show (to_lambda x) rest = codes "--lambda" ∷ print x ∷ rest
  say print show (to_mu x) rest = codes "--mu" ∷ print x ∷ rest
  say print show (to_servers x) rest = codes "--servers" ∷ show x ∷ rest
  say print show in_parallel rest = codes "--parallel" ∷ rest

  abbrev pub command_line : (F → Text) → (ℕ → Text) → List Setting → List Text
  command_line print show [] = []
  command_line print show (s ∷ ss) = say print show s (command_line print show ss)

  -- What is documented of printing and parsing: a number is read back.
  abbrev pub IsRead : Parse f → (F → Text) → (ℕ → Text) → Setting → Type 0
  IsRead parse print show (to_model t) = Unit
  IsRead parse print show (to_seeds x) = parse.u64 (show x) ≡ some x
  IsRead parse print show (to_n x) = parse.u64 (show x) ≡ some x
  IsRead parse print show (to_lambda x) = parse.f64 (print x) ≡ some x
  IsRead parse print show (to_mu x) = parse.f64 (print x) ≡ some x
  IsRead parse print show (to_servers x) = parse.usize (show x) ≡ some x
  IsRead parse print show in_parallel = Unit

  module _ (parse : Parse f) (print : F → Text) (show : ℕ → Text) where
    say-apply :
        (s : Setting) (rest : List Text) (args : Args)
        → IsRead parse print show s
        → parse_from parse (say print show s rest) args ≡ parse_from parse rest (apply s args)
    unfolding set
    say-apply (to_model t) rest args h = parse_from-set parse _ _ rest args _ refl refl
    say-apply (to_seeds x) rest args h =
        parse_from-set parse _ _ rest args _ refl (set-seeds parse _ x args h)
    say-apply (to_n x) rest args h =
        parse_from-set parse _ _ rest args _ refl (set-n parse _ x args h)
    say-apply (to_lambda x) rest args h =
        parse_from-set parse _ _ rest args _ refl (set-lambda parse _ x args h)
    say-apply (to_mu x) rest args h =
        parse_from-set parse _ _ rest args _ refl (set-mu parse _ x args h)
    say-apply (to_servers x) rest args h =
        parse_from-set parse _ _ rest args _ refl (set-servers parse _ x args h)
    say-apply in_parallel rest args h = parse_from-parallel parse rest args

    parse_from-command_line :
        (ss : List Setting) (args : Args)
        → All (IsRead parse print show) ss
        → parse_from parse (command_line print show ss) args ≡ ok (settled ss args)
    unfolding parse_from
    parse_from-command_line [] args h = refl
    parse_from-command_line (s ∷ ss) args h =
        say-apply s (command_line print show ss) args h.0
        ∙ parse_from-command_line ss (apply s args) h.1

  module _ (m : Math f) where
    -- 0.9 is 9 by 10, correctly rounded.
    abbrev pub default_args : Args
    default_args = record {
      model = codes "mm1";
      seeds = 1;
      n = 1000;
      lambda = m.div (m.of_u64 9) (m.of_u64 10);
      mu = m.one;
      servers = 1;
      parallel = false;
    }

    -- From the arguments of the program, its own name left out.
    unfoldable pub parse_args : Parse f → List Text → Result Args
    parse_args parse argv = parse_from parse argv default_args

    -- `parse_args` reads a command line of settings, in any order, any of them repeated or left out
    -- and `--parallel` anywhere, as all of them applied in turn to the defaults: each setting
    -- changes its own argument and no other, and the last one of a kind counts. Condition: the
    -- numbers that are set are read back from their texts.
    pub parse_args-command_line :
        (parse : Parse f) (print : F → Text) (show : ℕ → Text) (ss : List Setting)
        → All (IsRead parse print show) ss
        → parse_args parse (command_line print show ss) ≡ ok (settled ss default_args)
    unfolding parse_args
    parse_args-command_line parse print show ss h =
        parse_from-command_line parse print show ss default_args h
