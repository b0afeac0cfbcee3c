-- ===== src/Reporter/Html/Nesting.antt =====
-- The tags of the parts of the HTML page: the frames, the bars and the rows, in
-- `HtmlReporter::generate` of src/reporter.cpp.
pub mod Whole
use mem_sentry.Base.{
  arith, ℕ, zero, suc, ◌+◌, ◌*◌, ◌≡◌, refl, Bool, true, false, List, [], ◌∷◌, ◌++◌, ltb, ◌==◌,
  if◌then◌else◌, length, All, All-append, any, Bool-cases, inl, inr,
}
use mem_sentry.Memory.{word_mod}
use mem_sentry.Types.{Text, codes, StackFrame, AllocationRecord}
use mem_sentry.Sampling.{Doubles}
use mem_sentry.Stats.{MemoryStats}
use mem_sentry.Snapshot.{sum_sizes}
use mem_sentry.Histogram.{SizeBucket, AllocationHistogram, new_histogram, covers, record_size, feed}
use mem_sentry.StackTrace.{SymbolCache, resolve}
use mem_sentry.StackTrace.Resolve.{IsCoherent, resolve_lem}
use mem_sentry.Suppression.{is_empty}
use mem_sentry.Suppression.Rules.{frames_of}
use mem_sentry.Printing.{Printer, write, decimal, hexadecimal}
use mem_sentry.Escape.Xml.{IsInert, any-markup}
use mem_sentry.Flamegraph.{build_tree}
use mem_sentry.Flamegraph.Svg.{generate_svg}
use mem_sentry.Flamegraph.Svg.Nesting.{generate_svg-content}
use mem_sentry.Flamegraph.Svg.Titles.{IsInertFrame, build_tree-AreTitles}
use mem_sentry.Markup.{
  Scan, content, value, scan, through, HasNoTag, any-tag, skip, skip_text, skip_value,
  decimal-IsInert, hexadecimal-IsInert, PrintsInert, IsNested,
}
use mem_sentry.Reporter.{Source, tag_text, frag_ratio, format_bytes}
use mem_sentry.Reporter.Page.{page_head, page_title, table_head, page_script}
use mem_sentry.Reporter.Html.{
  max_bucket_count, stack_loc, frame_html, frames_html, badge, row_html, rows_html, bucket_html,
  buckets_html, summary_html, generate,
}

pub format_bytes-IsInert :
    (fp : Doubles) (out : Printer) (n : ℕ) → PrintsInert out → All IsInert (format_bytes fp out n)
unfolding format_bytes any
format_bytes-IsInert fp out n inert = elim (Bool-cases (ltb n 1024)) [
  | inl bytes ↦
      rw bytes (All-append IsInert (decimal n) _ (decimal-IsInert n) (any-markup (codes " B") refl))
  | inr more ↦ elim (Bool-cases (ltb n (1024 * 1024))) [
    | inl kilo ↦
        rw (more, kilo)
          (All-append IsInert (out.fixed 2 _) _ (inert.1 2 _) (any-markup (codes " KB") refl))
    | inr most ↦ elim (Bool-cases (ltb n (1024 * 1024 * 1024))) [
      | inl mega ↦
          rw (more, most, mega)
            (All-append IsInert (out.fixed 2 _) _ (inert.1 2 _) (any-markup (codes " MB") refl))
      | inr giga ↦
          rw (more, most, giga)
            (All-append IsInert (out.fixed 2 _) _ (inert.1 2 _) (any-markup (codes " GB") refl))
    ]
  ]
]

stack_loc-content :
    (frame : StackFrame) (opens : List Text)
    → IsInertFrame frame
    → scan (content, opens) (stack_loc frame) ≡ (content, opens)
unfolding stack_loc scan
stack_loc-content frame opens plain = elim (Bool-cases (is_empty frame.file_name)) [
  | inl unnamed ↦ rw unnamed
  | inr named ↦ rw named (
      skip (codes "span" ∷ opens) frame.file_name _ plain.1 (
        skip (codes "span" ∷ opens) (decimal frame.line_number) _
          (decimal-IsInert frame.line_number) refl))
]

pub frames_html-content :
    (f : ℕ) (frames : List StackFrame) (opens : List Text)
    → All IsInertFrame frames
    → scan (content, opens) (frames_html f frames) ≡ (content, opens)
unfolding frames_html frame_html scan
frames_html-content f [] opens plain = refl
frames_html-content f (frame ∷ frames) opens plain =
    let rest = frames_html-content (suc f) frames opens plain.1 in
    let div : List Text = codes "div" ∷ opens in
    let line : scan (content, opens) (frame_html f frame) ≡ (content, opens) =
      skip div (decimal f) _ (decimal-IsInert f) (
        skip (codes "span" ∷ div) frame.symbol_name _ (plain.0).0 (
          through (content, div) (stack_loc frame) _ (stack_loc-content frame div plain.0) refl)) in
    through (content, opens) (frame_html f frame) (frames_html (suc f) frames) line rest

-- The labels of the buckets stay, whatever is counted.
abbrev pub HaveLabels : AllocationHistogram → Type 0
HaveLabels h = All (λ b. HasNoTag b.label) h

any-HaveLabels :
    (h : AllocationHistogram)
    → any (λ (b : SizeBucket). any (λ c. c == 60) b.label) h ≡ false
    → HaveLabels h
unfolding any
any-HaveLabels [] tested = tt
any-HaveLabels (b ∷ bs) tested =
    (any-tag b.label (ground (arith, tested)), any-HaveLabels bs (ground (arith, tested)))

pub new_histogram-HaveLabels : HaveLabels new_histogram
unfolding any
new_histogram-HaveLabels = any-HaveLabels new_histogram refl

record_size-HaveLabels :
    (size : ℕ) (h : AllocationHistogram) → HaveLabels h → HaveLabels (record_size size h)
unfolding record_size
record_size-HaveLabels size [] labels = tt
record_size-HaveLabels size (b ∷ bs) labels = elim (Bool-cases (covers b size)) [
  | inl here ↦ rw here labels
  | inr later ↦ rw later (labels.0, record_size-HaveLabels size bs labels.1)
]

pub feed-HaveLabels :
    (recs : List AllocationRecord) (h : AllocationHistogram)
    → HaveLabels h
    → HaveLabels (feed recs h)
unfolding feed
feed-HaveLabels [] h labels = labels
feed-HaveLabels (rec ∷ recs) h labels =
    feed-HaveLabels recs (record_size rec.requested_size h)
      (record_size-HaveLabels rec.requested_size h labels)

module _ (from : Source) (inert : PrintsInert from.printer) where
  pub buckets_html-content :
      (most : ℕ) (h : AllocationHistogram) (opens : List Text)
      → HaveLabels h
      → scan (content, opens) (buckets_html from most h) ≡ (content, opens)
  unfolding buckets_html bucket_html scan
  buckets_html-content most [] opens labels = refl
  buckets_html-content most (b ∷ bs) opens labels =
      let rest = buckets_html-content most bs opens labels.1 in
      let bytes = format_bytes from.doubles from.printer b.total_bytes in
      let bar_div : List Text = codes "div" ∷ opens in
      let val_div : List Text = codes "div" ∷ bar_div in
      let bar : scan (content, opens) (bucket_html from most b) ≡ (content, opens) =
        skip_text val_div b.label _ labels.0 (
          skip_value (codes "div") val_div _ _ (inert.1 1 _) (
            skip val_div (decimal b.count) _ (decimal-IsInert b.count) (
              skip val_div bytes _
                (format_bytes-IsInert from.doubles from.printer b.total_bytes inert) refl))) in
      through (content, opens) (bucket_html from most b) (buckets_html from most bs) bar rest

  pub row_html-content :
      (i : ℕ) (rec : AllocationRecord) (opens : List Text)
      → All IsInert (tag_text from rec)
      → scan (content, opens) (row_html from i rec) ≡ (content, codes "td" ∷ codes "tr" ∷ opens)
  unfolding row_html scan
  row_html-content i rec opens tagged =
      let tr : List Text = codes "tr" ∷ opens in
      let td : List Text = codes "td" ∷ tr in
      skip_value (codes "tr") opens (decimal i) _ (decimal-IsInert i) (
        skip td (decimal rec.allocation_id) _ (decimal-IsInert rec.allocation_id) (
          skip (codes "code" ∷ td) (hexadecimal rec.user_ptr) _ (hexadecimal-IsInert rec.user_ptr) (
            skip (codes "strong" ∷ td) (decimal rec.requested_size) _
              (decimal-IsInert rec.requested_size)
              (skip td (decimal rec.alignment) _ (decimal-IsInert rec.alignment) (
                skip (codes "span" ∷ td) (tag_text from rec) _ tagged (
                  skip td (decimal rec.thread_id) _ (decimal-IsInert rec.thread_id) (
                    skip td (decimal rec.frame_count) _ (decimal-IsInert rec.frame_count)
                      (skip_value (codes "tr") opens (decimal i) _ (decimal-IsInert i) refl))))))))
