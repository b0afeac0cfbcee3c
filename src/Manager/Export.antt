-- ===== src/Manager/Export.antt =====
-- `Manager::export_json` of src/memsentry.cpp: the JSON report of the records that no rule
-- suppresses. Whether the file could be opened is a parameter, and what is written to it a result.
use mem_sentry.Base.{◌≡◌, refl, Bool, true, false, not, keep, Option, none, some}
use mem_sentry.Types.{Text}
use mem_sentry.Tracker
use mem_sentry.StackTrace.Resolve.{IsCoherent}
use mem_sentry.Printing.{Printer}
use mem_sentry.Reporter.{Source, frag_ratio}
use mem_sentry.Reporter.Json.{write_file, serialize}
use mem_sentry.Reporter.Json.Document.{document, read_json-serialize}
use mem_sentry.Json.Lexer.{IsNumber}
use mem_sentry.Json.Reader.{read_json}
use mem_sentry.Manager.State.{Platform, State, guarded}
use mem_sentry.Manager.Leaks.{unsuppressed}
use mem_sentry.Manager.Leaks.Partition.{matches, unsuppressed-keep, unsuppressed-IsCoherent}

module _ (os : Platform) (out : Printer) where
  abbrev pub report_source : Source
  report_source = record {
    text_at = os.text_at;
    linker = os.linker;
    doubles = os.doubles;
    printer = out;
  }

  unfoldable pub export_json : Bool → State → (Bool × Option Text) × State
  unfolding unsuppressed
  export_json opened = guarded λ s.
      let leaks = unsuppressed os s.rules (Tracker.snapshot_all s.tracker) s.symbol_cache in
      let r = write_file report_source opened s.stats leaks.0 leaks.1 in
      (r.0, record s { symbol_cache = r.1 })

  -- With a coherent symbol cache and a fragmentation ratio that prints as a number, an export to a
  -- file that opens writes a text from which a JSON reader gets the counters and, in order, the
  -- records that no rule suppresses, with tags, symbols and file names unescaped; if the file does
  -- not open, nothing is written and the result is false.
  pub export_json_lem :
      (s : State)
      → IsCoherent os.linker s.symbol_cache
      → IsNumber (out.general (frag_ratio os.doubles s.stats))
      → let leaks = keep (λ r. not (matches os s.rules r)) (Tracker.snapshot_all s.tracker) in
        ((export_json true s).0.0 ≡ true)
        × ((text : Text) × ((export_json true s).0.1 ≡ some text)
            × (read_json text ≡ some (document report_source s.stats leaks)))
        × ((export_json false s).0 ≡ (false, none))
  unfolding export_json write_file
  export_json_lem s c number_ratio =
      let recs = Tracker.snapshot_all s.tracker in
      let leaks = unsuppressed os s.rules recs s.symbol_cache in
      let read =
        read_json-serialize report_source s.stats leaks.0 leaks.1
          (unsuppressed-IsCoherent os s.rules recs s.symbol_cache c) number_ratio in
      (
        refl,
        (
          (serialize report_source s.stats leaks.0 leaks.1).0,
          refl,
          rw (← unsuppressed-keep os s.rules recs s.symbol_cache c) read,
        ),
        refl,
      )
