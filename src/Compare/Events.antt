-- ===== src/Compare/Events.antt =====
-- examples/compare.rs: the events that `events_for` counts in a report.
use sim_core.Base.{
  ℕ, ◌+◌, ◌^◌, ◌≤◌, ◌<◌, ◌≡◌, refl, ap, true, false, ◌∙◌, List, Option, none, some, arith, length,
  u64_mod,
}
use sim_core.Float.{Float}
use sim_core.Env.{ok}
use sim_core.Rng.Sample.{Math}
use sim_core.Compare.Container.{Rec}
use sim_core.Compare.Json.{Text, codes, num, read_u64, field_u64, events_for}
use sim_core.Compare.Json.Fields.{is_plain, field-obj}
use sim_core.Compare.Reports.{container_report, mean_of_large}

-- What the standard library documents of numbers that it prints and reads: the text has digits, a
-- point and a sign at most, a finite number is read back as itself, and integers up to 2^53 are
-- exact.
pub record IsPrinter (f : Float) (m : Math f) (print : f.F → Text) (parse : Text → Option f.F)
    (to_u64 : f.F → ℕ) : Type 0 where
  pub plain : (x : f.F) → is_plain (print x) ≡ true
  pub reads : (x : f.F) → f.is_finite x ≡ true → parse (print x) ≡ some x
  pub whole : (n : ℕ) → n ≤ 2 ^ 53 → to_u64 (m.of_u64 n) ≡ n
  pub whole_finite : (n : ℕ) → n ≤ 2 ^ 53 → f.is_finite (m.of_u64 n) ≡ true

module _ (f : Float) (m : Math f) (print : f.F → Text) (parse : Text → Option f.F)
    (to_u64 : f.F → ℕ) (printer : IsPrinter f m print parse to_u64) where
  num-plain : (x : f.F) → is_plain (num f print x) ≡ true
  unfolding num
  num-plain x = ground (arith, printer.plain x)

  read_u64-num :
      (n : ℕ) → n ≤ 2 ^ 53 → read_u64 f parse to_u64 (some (num f print (m.of_u64 n))) ≡ n
  unfolding num
  read_u64-num n small = ground (
    arith,
    printer.reads (m.of_u64 n) (printer.whole_finite n small),
    printer.whole n small,
    printer.whole_finite n small,
  )

  served-container_report :
      (recs : List (Rec f))
      → length recs ≤ 2 ^ 53
      → field_u64 f parse to_u64 (container_report f m print recs) "served" ≡ length recs
  unfolding field_u64 container_report
  served-container_report recs small =
      let found = field-obj _ _ refl _ (
        ground (
          arith,
          num-plain (mean_of_large f m print recs none),
          num-plain (mean_of_large f m print recs (some false)),
          num-plain (mean_of_large f m print recs (some true)),
          num-plain (m.of_u64 (length recs)),
        )) in
      ap (read_u64 f parse to_u64) found ∙ read_u64-num (length recs) small

  -- The events that are counted for a report of the container model are the arrivals and the
  -- consumers that were served, one record each: the number of records is read back from the text
  -- of the report, past the three fields before it. Conditions: at most 2^53 records, and no
  -- overflow of the sum.
  pub events_for-container_report :
      (n : ℕ) (recs : List (Rec f))
      → length recs ≤ 2 ^ 53
      → n + length recs < u64_mod
      → events_for f parse to_u64 (codes "container") (container_report f m print recs) n
        ≡ ok (n + length recs)
  unfolding events_for field_u64 container_report
  events_for-container_report n recs small fits =
      ap ok (ground (arith, served-container_report recs small))
