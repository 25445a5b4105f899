-- ===== src/Tests/Compare.antt =====
-- A queue of two customers with one server, and a report of the container model:
-- examples/compare.rs.
use sim_core.Base.{
  ℕ, zero, suc, ◌≡◌, ◌^◌, refl, true, false, List, [], ◌∷◌, Option, some, arith, length,
}
use sim_core.Base.Order.{unit_ord}
use sim_core.Float.Sample.{naturals, naturals-IsIeee}
use sim_core.Env.{ok, run}
use sim_core.WaitQueue
use sim_core.Compare.Container.{Rec}
use sim_core.Compare.Json.{Text, codes, obj, field, events_for}
use sim_core.Compare.Json.Fields.{is_plain, field-obj}
use sim_core.Compare.Args.{
  Args, Setting, to_model, to_seeds, to_lambda, to_servers, in_parallel, parse_args, command_line,
  parse_args-command_line,
}
use sim_core.Compare.Events.{IsPrinter, events_for-container_report}
use sim_core.Compare.Reports.{container_report, no_key}
use sim_core.Compare.Queue.{begin, program, Process}
use sim_core.Compare.Queue.Progress.{AllServed, run-AllServed}
use sim_core.Tests.Sampling.{fractions}

run-AllServed_example : AllServed naturals naturals-IsIeee fractions no_key 5 5 2 (
    run naturals
      (Process naturals (Unit {0}))
      true
      (program naturals fractions no_key 5 5)
      20
      20
      (begin naturals (Unit {0}) 42 2 (WaitQueue.new 1)))
run-AllServed_example =
    run-AllServed naturals naturals-IsIeee fractions no_key 5 5 42 2 1 20 20 (omega arith)
      (omega arith) (omega arith) (omega arith) (omega arith)

-- Numbers as strokes.
abbrev print : ℕ → Text
print zero = []
print (suc n) = b'|' ∷ print n

abbrev parse : Text → Option ℕ
parse s = some (length s)

print-plain : (n : ℕ) → is_plain (print n) ≡ true
print-plain zero = refl
print-plain (suc n) = print-plain n

length-print : (n : ℕ) → length (print n) ≡ n
length-print zero = refl
length-print (suc n) = omega (arith, length-print n)

strokes : IsPrinter naturals fractions print parse (λ n. n)
strokes = record {
  plain = print-plain;
  reads = λ n finite. cc (length-print n);
  whole = λ n small. refl;
  whole_finite = λ n small. refl;
}

abbrev recs : List (Rec naturals)
recs = record { large = true; wait = 4 } ∷ record { large = false; wait = 1 } ∷ []

events_for-container_report_example :
    events_for naturals parse
      (λ n. n)
      (codes "container")
      (container_report naturals fractions print recs)
      3
    ≡ ok 5
events_for-container_report_example =
    events_for-container_report naturals fractions print parse (λ n. n) strokes 3 recs (omega arith)
      (omega arith)

field-obj_example :
    field (obj ((codes "wait", codes "4.5") ∷ (codes "served", codes "30") ∷ [])) (codes "served")
    ≡ some (codes "30")
field-obj_example =
    field-obj b's' (codes "erved") refl
      ((codes "wait", codes "4.5") ∷ (codes "served", codes "30") ∷ []) refl

-- A flag in the middle, an option given twice, and two that are left out.
abbrev asked : List (Setting naturals)
asked =
    to_model (codes "mmc") ∷ to_seeds 3 ∷ to_lambda 5 ∷ in_parallel ∷ to_servers 2 ∷ to_seeds 4 ∷ []

abbrev read : Args naturals
read = record {
  model = codes "mmc";
  seeds = 4;
  n = 1000;
  lambda = 5;
  mu = 2 ^ 53;
  servers = 2;
  parallel = true;
}

parse_args-command_line_example :
    parse_args naturals fractions
      (record { u64 = parse; usize = parse; f64 = parse })
      (command_line naturals print print asked)
    ≡ ok read
parse_args-command_line_example =
    parse_args-command_line naturals fractions (record { u64 = parse; usize = parse; f64 = parse })
      print print asked (tt, (refl, (refl, (tt, (refl, (refl, tt))))))
