-- ===== src/Reporter/Html/Nesting/Whole.antt =====
-- The tags of the whole HTML page, in `HtmlReporter::generate` of src/reporter.cpp.
use mem_sentry.Base.{
  ℕ, suc, ◌≡◌, refl, Bool, true, false, List, [], ◌∷◌, ltb, length, All, All-imp, any, Bool-cases,
  inl, inr,
}
use mem_sentry.Types.{Text, codes, AllocationRecord}
use mem_sentry.Stats.{MemoryStats}
use mem_sentry.Snapshot.{sum_sizes}
use mem_sentry.Histogram.{new_histogram, feed}
use mem_sentry.StackTrace.{SymbolCache, resolve}
use mem_sentry.StackTrace.Resolve.{IsCoherent, resolve_lem}
use mem_sentry.Suppression.{is_empty}
use mem_sentry.Suppression.Rules.{frames_of}
use mem_sentry.Printing.{decimal}
use mem_sentry.Escape.Xml.{IsInert}
use mem_sentry.Flamegraph.{build_tree}
use mem_sentry.Flamegraph.Svg.{generate_svg}
use mem_sentry.Flamegraph.Svg.Nesting.{generate_svg-content}
use mem_sentry.Flamegraph.Svg.Titles.{IsInertFrame, build_tree-AreTitles}
use mem_sentry.Markup.{content, scan, through, skip, decimal-IsInert, PrintsInert, IsNested}
use mem_sentry.Reporter.{Source, tag_text, frag_ratio, format_bytes}
use mem_sentry.Reporter.Page.{page_head, page_title, table_head, page_script}
use mem_sentry.Reporter.Html.{
  max_bucket_count, frames_html, badge, row_html, rows_html, buckets_html, summary_html, generate,
}
use mem_sentry.Reporter.Html.Nesting.{
  format_bytes-IsInert, frames_html-content, new_histogram-HaveLabels, feed-HaveLabels,
  buckets_html-content, row_html-content,
}

page_head-content : scan (content, []) page_head ≡ (content, codes "body" ∷ codes "html" ∷ [])
unfolding page_head scan
page_head-content = refl

page_title-content :
    (opens : List Text) → scan (content, opens) page_title ≡ (content, codes "header" ∷ opens)
unfolding page_title scan
page_title-content opens = refl

table_head-content :
    (opens : List Text)
    → scan (content, opens) table_head ≡ (content, codes "tbody" ∷ codes "table" ∷ opens)
unfolding table_head scan
table_head-content opens = refl

page_script-content : scan (content, codes "body" ∷ codes "html" ∷ []) page_script ≡ (content, [])
unfolding page_script scan
page_script-content = refl

badge-content :
    (clean : Bool) (opens : List Text) → scan (content, opens) (badge clean) ≡ (content, opens)
unfolding badge scan
badge-content true opens = refl
badge-content false opens = refl

-- The tag and the frames of a record have no markup.
abbrev pub IsShown : Source → AllocationRecord → Type 0
IsShown from rec = All IsInert (tag_text from rec) × All IsInertFrame (frames_of from.linker rec)

module _ (from : Source) (inert : PrintsInert from.printer) where
  rows_html-content :
      (i : ℕ) (recs : List AllocationRecord) (cache : SymbolCache) (opens : List Text)
      → IsCoherent from.linker cache
      → All (IsShown from) recs
      → scan (content, opens) (rows_html from i recs cache).0 ≡ (content, opens)
  unfolding rows_html scan
  rows_html-content i [] cache opens c shown = refl
  rows_html-content i (rec ∷ recs) cache opens c shown =
      let td : List Text = codes "td" ∷ codes "tr" ∷ opens in
      let row = row_html-content from inert i rec opens (shown.0).0 in
      let (frames, coherent) = resolve_lem from.linker rec.callstack rec.frame_count cache c in
      let trace = frames_html-content 0 (frames_of from.linker rec) td (shown.0).1 in
      elim (Bool-cases (ltb 0 rec.frame_count)) [
        | inl framed ↦
            let resolved = resolve from.linker rec.callstack rec.frame_count cache in
            rw (framed, frames)
              (through (content, opens) (row_html from i rec) _ row
                (through (content, td) (frames_html 0 (frames_of from.linker rec)) _ trace
                  (rows_html-content (suc i) recs resolved.1 opens coherent shown.1)))
        | inr bare ↦ rw bare (
            through (content, opens) (row_html from i rec) _ row
              (rows_html-content (suc i) recs cache opens c shown.1))
      ]

  summary_html-content :
      (stats : MemoryStats) (recs : List AllocationRecord) (opens : List Text)
      → scan (content, codes "header" ∷ opens) (summary_html from stats recs) ≡ (content, opens)
  unfolding summary_html scan
  summary_html-content stats recs opens =
      let fp = from.doubles in
      let bytes = λ (n : ℕ). format_bytes-IsInert fp from.printer n inert in
      let card : List Text = codes "div" ∷ codes "div" ∷ codes "div" ∷ opens in
      let header_div : List Text = codes "div" ∷ codes "header" ∷ opens in
      through (content, header_div) (badge (is_empty recs)) _
        (badge-content (is_empty recs) header_div)
        (skip card (format_bytes fp from.printer (sum_sizes 0 recs)) _ (bytes (sum_sizes 0 recs)) (
          skip card (decimal (length recs)) _ (decimal-IsInert (length recs)) (
            skip card (format_bytes fp from.printer stats.peak_allocated_bytes) _
              (bytes stats.peak_allocated_bytes)
              (skip card ((from.printer).fixed 1 (fp.mul (frag_ratio fp stats) (fp.of_uint64 100)))
                _ (inert.1 1 _)
                (skip card (decimal stats.total_allocation_count) _
                  (decimal-IsInert stats.total_allocation_count)
                  (skip card (decimal stats.total_free_count) _
                    (decimal-IsInert stats.total_free_count) refl))))))

  -- Where numbers are printed without markup, with a coherent symbol cache, and if no tag, symbol or
  -- file of a record has markup, the elements of the HTML page are nested: every start tag has its end
  -- tag, in order.
  pub generate-IsNested :
      (stats : MemoryStats) (recs : List AllocationRecord) (cache : SymbolCache)
      → IsCoherent from.linker cache
      → All (IsShown from) recs
      → IsNested (generate from stats recs cache).0
  unfolding generate scan any
  generate-IsNested stats recs cache c shown =
      let fp = from.doubles in
      let body : List Text = codes "body" ∷ codes "html" ∷ [] in
      let section : List Text = codes "div" ∷ body in
      let hist = feed recs new_histogram in
      let labels = feed-HaveLabels recs new_histogram new_histogram-HaveLabels in
      let tree = build_tree from.linker recs cache in
      let (titled, coherent) =
        build_tree-AreTitles from.linker recs cache c (All-imp (λ r h. h.1) recs shown) in
      let svg = generate_svg fp from.printer tree.0 (fp.of_uint64 1000) (fp.of_uint64 22) in
      let rows = rows_html from 0 recs tree.1 in
      let table : List Text = codes "tbody" ∷ codes "table" ∷ section in
      through (content, []) page_head _ page_head-content
        (through (content, body) page_title _ (page_title-content body)
          (through (content, codes "header" ∷ body) (summary_html from stats recs) _
            (summary_html-content stats recs body)
            (through (content, codes "div" ∷ section) svg _
              (generate_svg-content fp from.printer tree.0 (fp.of_uint64 1000) (fp.of_uint64 22)
                (codes "div" ∷ section) inert titled)
              (through (content, section) (buckets_html from (max_bucket_count 1 hist) hist) _
                (buckets_html-content from inert (max_bucket_count 1 hist) hist section labels)
                (skip (codes "h2" ∷ section) (decimal (length recs)) _
                  (decimal-IsInert (length recs))
                  (through (content, section) table_head _ (table_head-content section)
                    (through (content, table) rows.0 _
                      (rows_html-content 0 recs tree.1 table coherent shown)
                      (through (content, body) page_script [] page_script-content refl))))))))
