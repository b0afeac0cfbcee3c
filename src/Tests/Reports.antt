-- ===== src/Tests/Reports.antt =====
-- The reports.
use mem_sentry.StackTrace.{Linker, symbolize}
use mem_sentry.Flamegraph.Folded.{generate_folded_stacks}
use mem_sentry.Flamegraph.Folded.Reader.{read_folded}
use mem_sentry.Flamegraph.Folded.Stacks.{stack_of, read_folded-generate_folded_stacks}
use mem_sentry.Base.{
  refl, any, [], map, ◌≡◌, ◌∷◌, true, false, none, some, not, keep, arith, replicate,
}
use mem_sentry.Base.Dict
use mem_sentry.Types.{Text, codes, AllocationRecord}
use mem_sentry.Tracker
use mem_sentry.Printing.{Printer}
use mem_sentry.Json.Reader.{read_json}
use mem_sentry.Reporter.Json.Document.{document}
use mem_sentry.Escape.Xml.{any-markup}
use mem_sentry.Markup.{IsNested}
use mem_sentry.Manager.Reports.{export_html, export_html_lem}
use mem_sentry.Manager.State.{Platform, State}
use mem_sentry.Manager.Leaks.Partition.{matches}
use mem_sentry.Manager.Export.{report_source, export_json, export_json_lem}
use mem_sentry.Tests.World.{os, fresh_state}

abbrev quarter : Printer
quarter = record { general = λ d. codes "0.25"; fixed = λ precision d. codes "0.25" }

abbrev leaked : AllocationRecord
leaked = record {
  allocation_id = 1;
  user_ptr = 4176;
  raw_ptr = 4096;
  requested_size = 100;
  total_size = 200;
  alignment = 16;
  thread_id = 7;
  tag = 0;
  timestamp = 0;
  callstack = 4096 ∷ 8192 ∷ replicate 30 0;
  frame_count = 2;
}

abbrev one_leak : State
one_leak = record fresh_state { tracker = Tracker.insert 4176 leaked fresh_state.tracker }

export_json_lem_example :
    let leaks =
      keep (λ r. not (matches os one_leak.rules r)) (Tracker.snapshot_all one_leak.tracker) in
    ((export_json os quarter true one_leak).0.0 ≡ true)
    × ((text : Text) × ((export_json os quarter true one_leak).0.1 ≡ some text)
        × (read_json text ≡ some (document (report_source os quarter) one_leak.stats leaks)))
    × ((export_json os quarter false one_leak).0 ≡ (false, none))
unfolding Dict.lookup
export_json_lem_example =
    export_json_lem os quarter one_leak (λ a f e. absurd (ground (arith, e)))
      (λ e. cc, ground arith)

-- Every address is that of a function named f.
abbrev one_function : Linker
one_function = record {
  dladdr = λ a. some (record { dli_sname = some (codes "f"); dli_fname = none });
  demangle = λ t. none;
}

read_folded-generate_folded_stacks_example :
    read_folded (generate_folded_stacks one_function (leaked ∷ []) []).0
    ≡ some (map (stack_of one_function) (leaked ∷ []))
unfolding Dict.lookup keep symbolize any
read_folded-generate_folded_stacks_example =
    read_folded-generate_folded_stacks one_function (leaked ∷ []) []
      (λ a f e. absurd (ground (arith, e)))
      (
        (
          (
            ((λ e. absurd (omega (arith, e)), tt), (λ e. absurd (omega (arith, e)), tt)),
            (((λ e. absurd (omega (arith, e)), tt), (λ e. absurd (omega (arith, e)), tt)), tt),
          ),
          omega arith,
        ),
        tt,
      )

abbrev named_os : Platform
named_os = record os { linker = one_function }

one_record : Tracker.snapshot_all one_leak.tracker ≡ leaked ∷ []
unfolding Tracker.snapshot_all Tracker.insert Dict.insert
one_record = refl

export_html_lem_example :
    ((export_html named_os quarter true one_leak).0.0 ≡ true)
    × ((text : Text) × ((export_html named_os quarter true one_leak).0.1 ≡ some text)
        × IsNested text)
    × ((export_html named_os quarter false one_leak).0 ≡ (false, none))
unfolding Dict.lookup keep symbolize any
export_html_lem_example =
    export_html_lem named_os quarter one_leak
      (λ d. any-markup (codes "0.25") refl, λ precision d. any-markup (codes "0.25") refl)
      (λ a f e. absurd (ground (arith, e)))
      (rw one_record (
        (
          any-markup (codes "General") refl,
          ((any-markup (codes "f") refl, tt), ((any-markup (codes "f") refl, tt), tt)),
        ),
        tt,
      ))
