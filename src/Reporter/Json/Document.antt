-- ===== src/Reporter/Json/Document.antt =====
-- What `serialize` writes is JSON, and a reader finds in it what was reported.
use mem_sentry.Base.{
  ℕ, suc, ◌≡◌, ap, List, [], ◌∷◌, ◌++◌, append_assoc, some, ltb, ◌==◌, if◌then◌else◌, length, arith,
  keep, map, not, take, Bool-cases, inl, inr,
}
use mem_sentry.Types.{Text, codes, StackFrame, AllocationRecord}
use mem_sentry.Stats.{MemoryStats}
use mem_sentry.StackTrace.{SymbolCache, resolve, symbolize}
use mem_sentry.StackTrace.Resolve.{IsCoherent, resolve_lem}
use mem_sentry.Suppression.Rules.{frames_of}
use mem_sentry.Snapshot.{sum_sizes}
use mem_sentry.Printing.{decimal, hexadecimal}
use mem_sentry.Json.{
  Value, Items, num, str, arr, obj, no_item, item, no_field, field, Token, mark, tokens,
  more_items_tokens, first_item_tokens,
}
use mem_sentry.Json.Lexer.{gap, lex, Lexes, Lexes-append, Lexes-number, IsNumber}
use mem_sentry.Json.Reader.{read_json, read_json-Lexes}
use mem_sentry.Reporter.{Source, tag_text, frag_ratio}
use mem_sentry.Reporter.Json.Lines.{
  literal, numeral_line, number_line, string_line, address_line, last_entry, entry_before, regroup,
  items_last, items_more,
}
use mem_sentry.Reporter.Json.{
  frame_json, frames_json, record_json, records_json, summary_json, serialize,
}

abbrev number : ℕ → Value
number n = num (decimal n)

abbrev frame_value : ℕ → StackFrame → Value
frame_value f frame = obj (
    field (codes "frame") (number f) (
      field (codes "symbol") (str frame.symbol_name) (
        field (codes "file") (str frame.file_name)
          (field (codes "line") (number frame.line_number) no_field))))

pub frame_values : ℕ → List StackFrame → Items
frame_values f [] = no_item
frame_values f (frame ∷ frames) = item (frame_value f frame) (frame_values (suc f) frames)

frame_json-Lexes :
    (f : ℕ) (frame : StackFrame) → Lexes gap (frame_json f frame) gap (tokens (frame_value f frame))
unfolding frame_json lex tokens
frame_json-Lexes f frame = Lexes-append _ (literal (codes "        {\n")) (
    Lexes-append _ (number_line f (literal (codes "          \"frame\": ")) (literal (codes ",\n")))
      (Lexes-append _
        (string_line frame.symbol_name (literal (codes "          \"symbol\": \""))
          (literal (codes "\",\n")))
        (Lexes-append _
          (string_line frame.file_name (literal (codes "          \"file\": \""))
            (literal (codes "\",\n")))
          (Lexes-append _
            (number_line frame.line_number (literal (codes "          \"line\": "))
              (literal (codes "\n")))
            (Lexes-append _ (literal (codes "        }")) (literal []))))))

-- The frames, before a text that ends the array.
frames_json-Lexes :
    (f : ℕ) (frames : List StackFrame) {tail : Text} {us : List Token}
    → Lexes gap tail gap (mark b']' ∷ us)
    → Lexes gap (frames_json f frames ++ tail) gap (first_item_tokens (frame_values f frames) ++ us)
unfolding frames_json tokens frame_values
frames_json-Lexes f [] k = k
frames_json-Lexes f (frame ∷ []) {tail} {us} k =
    rw
      (
        regroup (frame_json f frame) [] (codes "\n") [] tail,
        append_assoc (tokens (frame_value f frame)) (mark b']' ∷ []) us,
      )
      (last_entry (frame_json-Lexes f frame) k)
frames_json-Lexes f (frame ∷ next ∷ frames) {tail} {us} k =
    let rest = frames_json-Lexes (suc f) (next ∷ frames) k in
    rw
      (
        regroup (frame_json f frame) (codes ",") (codes "\n") (frames_json (suc f) (next ∷ frames))
            tail,
        append_assoc (tokens (frame_value f frame))
            (more_items_tokens (frame_values (suc f) (next ∷ frames))) us,
      )
      (entry_before (frame_json-Lexes f frame) rest)

module _ (from : Source) where
  abbrev pub record_value : AllocationRecord → Value
  record_value rec = obj (
      field (codes "id") (number rec.allocation_id) (
        field (codes "address") (str (codes "0x" ++ hexadecimal rec.user_ptr)) (
          field (codes "requested_size") (number rec.requested_size) (
            field (codes "total_size") (number rec.total_size) (
              field (codes "alignment") (number rec.alignment) (
                field (codes "thread_id") (number rec.thread_id) (
                  field (codes "tag") (str (tag_text from rec)) (
                    field (codes "stacktrace") (arr (frame_values 0 (frames_of from.linker rec)))
                      no_field))))))))

  pub record_values : List AllocationRecord → Items
  record_values [] = no_item
  record_values (rec ∷ recs) = item (record_value rec) (record_values recs)

  -- The record's fields, its frames, and what follows them.
  record_json-Lexes :
      (rec : AllocationRecord) {tail : Text} {us : List Token}
      → Lexes gap tail gap us
      → Lexes gap
          (record_json from rec
            ++ (frames_json 0 (frames_of from.linker rec)
                ++ (codes "      ]\n" ++ (codes "    }" ++ tail))))
          gap
          (tokens (record_value rec) ++ us)
  unfolding record_json lex tokens
  record_json-Lexes rec {tail} {us} k =
      let frames = frames_of from.linker rec in
      let closed : Lexes gap (codes "      ]\n" ++ (codes "    }" ++ tail)) gap
          (mark b']' ∷ mark b'}' ∷ us) =
        Lexes-append _ (literal (codes "      ]\n")) (Lexes-append _ (literal (codes "    }")) k) in
      let listed = frames_json-Lexes 0 frames closed in
      rw (append_assoc (first_item_tokens (frame_values 0 frames)) (mark b'}' ∷ []) us) (
        Lexes-append (record_json from rec)
          (Lexes-append _ (literal (codes "    {\n")) (
            Lexes-append _
              (number_line rec.allocation_id (literal (codes "      \"id\": "))
                (literal (codes ",\n")))
              (Lexes-append _ (address_line rec.user_ptr) (
                Lexes-append _
                  (number_line rec.requested_size (literal (codes "      \"requested_size\": "))
                    (literal (codes ",\n")))
                  (Lexes-append _
                    (number_line rec.total_size (literal (codes "      \"total_size\": "))
                      (literal (codes ",\n")))
                    (Lexes-append _
                      (number_line rec.alignment (literal (codes "      \"alignment\": "))
                        (literal (codes ",\n")))
                      (Lexes-append _
                        (number_line rec.thread_id (literal (codes "      \"thread_id\": "))
                          (literal (codes ",\n")))
                        (Lexes-append _
                          (string_line (tag_text from rec) (literal (codes "      \"tag\": \""))
                            (literal (codes "\",\n")))
                          (Lexes-append _ (literal (codes "      \"stacktrace\": [\n"))
                            (literal []))))))))))
          listed)

  regroup_record :
      (a b c d e f g t : Text)
      → (a ++ (b ++ (c ++ (d ++ (e ++ (f ++ g)))))) ++ t
        ≡ a ++ (b ++ (c ++ (d ++ (e ++ (f ++ (g ++ t))))))
  regroup_record a b c d e f g t = simp append_assoc

  -- The frames that are written are those that the linker gives, whatever is in the cache.
  resolved_frames :
      (rec : AllocationRecord) (cache : SymbolCache)
      → IsCoherent from.linker cache
      → let resolved : List StackFrame × SymbolCache =
          if ltb 0 rec.frame_count
          then resolve from.linker rec.callstack rec.frame_count cache
          else ([], cache) in
        (resolved.0 ≡ frames_of from.linker rec) × IsCoherent from.linker resolved.1
  unfolding keep
  resolved_frames rec cache c = elim (Bool-cases (ltb 0 rec.frame_count)) [
    | inl some_frames ↦
        rw some_frames (resolve_lem from.linker rec.callstack rec.frame_count cache c)
    | inr no_frame ↦
        let none_there : 0 ≡ rec.frame_count = ground (arith, no_frame) in
        rw no_frame (
          ap (λ n. map (symbolize from.linker) (keep (λ f. not (f == 0)) (take n rec.callstack)))
              none_there,
          c,
        )
  ]

  nothing_listed :
      {tail : Text} {us : List Token}
      → Lexes gap tail gap (mark b']' ∷ us)
      → Lexes gap tail gap (first_item_tokens no_item ++ us)
  unfolding tokens
  nothing_listed k = k

  -- The records, before a text that ends the array.
  records_json-Lexes :
      (recs : List AllocationRecord) (cache : SymbolCache) {tail : Text} {us : List Token}
      → IsCoherent from.linker cache
      → Lexes gap tail gap (mark b']' ∷ us)
      → Lexes gap
          ((records_json from recs cache).0 ++ tail)
          gap
          (first_item_tokens (record_values recs) ++ us)
  unfolding records_json record_values lex
  records_json-Lexes [] cache c k = nothing_listed k
  records_json-Lexes (rec ∷ []) cache {tail} {us} c k =
      let shown = resolved_frames rec cache c in
      rw
        (
          shown.0,
          regroup_record (record_json from rec) (frames_json 0 (frames_of from.linker rec))
              (codes "      ]\n") (codes "    }") [] (codes "\n") [] tail,
          items_last (record_value rec) us,
        )
        (record_json-Lexes rec (Lexes-append _ (literal (codes "\n")) k))
  records_json-Lexes (rec ∷ next ∷ recs) cache {tail} {us} c k =
      let shown = resolved_frames rec cache c in
      let resolved : List StackFrame × SymbolCache =
        if ltb 0 rec.frame_count
        then resolve from.linker rec.callstack rec.frame_count cache
        else ([], cache) in
      let rest = records_json-Lexes (next ∷ recs) resolved.1 shown.1 k in
      rw
        (
          shown.0,
          regroup_record (record_json from rec) (frames_json 0 (frames_of from.linker rec))
              (codes "      ]\n") (codes "    }") (codes ",") (codes "\n")
              (records_json from (next ∷ recs) resolved.1).0 tail,
          items_more (record_value rec) (record_value next) (record_values recs) us,
        )
        (record_json-Lexes rec
          (Lexes-append _ (literal (codes ",")) (Lexes-append _ (literal (codes "\n")) rest)))

  abbrev summary_value : MemoryStats → List AllocationRecord → Value
  summary_value stats recs = obj (
      field (codes "total_allocated_bytes") (number stats.total_allocated_bytes) (
        field (codes "total_freed_bytes") (number stats.total_freed_bytes) (
          field (codes "current_allocated_bytes") (number stats.current_allocated_bytes) (
            field (codes "peak_allocated_bytes") (number stats.peak_allocated_bytes) (
              field (codes "external_fragmentation_ratio")
                (num ((from.printer).general (frag_ratio from.doubles stats)))
                (field (codes "total_allocations") (number stats.total_allocation_count) (
                  field (codes "total_frees") (number stats.total_free_count) (
                    field (codes "leak_count") (number (length recs))
                      (field (codes "leak_bytes") (number (sum_sizes 0 recs)) no_field)))))))))

  -- The document that is reported.
  abbrev pub document : MemoryStats → List AllocationRecord → Value
  document stats recs = obj (
      field (codes "summary") (summary_value stats recs)
        (field (codes "leaks") (arr (record_values recs)) no_field))

  -- The summary, and the array of leaks with the end of the document.
  summary_json-Lexes :
      (stats : MemoryStats) (recs : List AllocationRecord) {tail : Text}
      → IsNumber ((from.printer).general (frag_ratio from.doubles stats))
      → Lexes gap tail gap (first_item_tokens (record_values recs) ++ (mark b'}' ∷ []))
      → Lexes gap (summary_json from stats recs ++ tail) gap (tokens (document stats recs))
  unfolding summary_json lex tokens
  summary_json-Lexes stats recs {tail} number_ratio k =
      Lexes-append (summary_json from stats recs)
        (Lexes-append _ (literal (codes "{\n")) (
          Lexes-append _ (literal (codes "  \"summary\": {\n")) (
            Lexes-append _
              (number_line stats.total_allocated_bytes
                (literal (codes "    \"total_allocated_bytes\": ")) (literal (codes ",\n")))
              (Lexes-append _
                (number_line stats.total_freed_bytes (literal (codes "    \"total_freed_bytes\": "))
                  (literal (codes ",\n")))
                (Lexes-append _
                  (number_line stats.current_allocated_bytes
                    (literal (codes "    \"current_allocated_bytes\": ")) (literal (codes ",\n")))
                  (Lexes-append _
                    (number_line stats.peak_allocated_bytes
                      (literal (codes "    \"peak_allocated_bytes\": ")) (literal (codes ",\n")))
                    (Lexes-append _
                      (numeral_line ((from.printer).general (frag_ratio from.doubles stats))
                        (Lexes-number _ number_ratio)
                        (literal (codes "    \"external_fragmentation_ratio\": "))
                        (literal (codes ",\n")))
                      (Lexes-append _
                        (number_line stats.total_allocation_count
                          (literal (codes "    \"total_allocations\": ")) (literal (codes ",\n")))
                        (Lexes-append _
                          (number_line stats.total_free_count
                            (literal (codes "    \"total_frees\": ")) (literal (codes ",\n")))
                          (Lexes-append _
                            (number_line (length recs) (literal (codes "    \"leak_count\": "))
                              (literal (codes ",\n")))
                            (Lexes-append _
                              (number_line (sum_sizes 0 recs)
                                (literal (codes "    \"leak_bytes\": ")) (literal (codes "\n")))
                              (Lexes-append _ (literal (codes "  },\n")) (
                                Lexes-append _ (literal (codes "  \"leaks\": [\n"))
                                  (literal []))))))))))))))
        k

  --
  pub read_json-serialize :
      (stats : MemoryStats) (recs : List AllocationRecord) (cache : SymbolCache)
      → IsCoherent from.linker cache
      → IsNumber ((from.printer).general (frag_ratio from.doubles stats))
      → read_json (serialize from stats recs cache).0 ≡ some (document stats recs)
  unfolding serialize lex
  read_json-serialize stats recs cache c number_ratio = read_json-Lexes (document stats recs) (
      summary_json-Lexes stats recs number_ratio (
        records_json-Lexes recs cache c
          (Lexes-append _ (literal (codes "  ]\n")) (literal (codes "}\n")))))
