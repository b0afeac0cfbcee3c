-- ===== src/StackTrace.antt =====
-- src/stacktrace.cpp, the POSIX version: capturing return addresses, and resolving them through a
-- cache. The system's backtrace, dladdr and __cxa_demangle are parameters.
pub mod Resolve
use mem_sentry.Base.{
  ℕ, zero, suc, ◌+◌, ◌-◌, ◌/◌, ◌%◌, ◌^◌, Bool, true, false, List, [], ◌∷◌, ◌++◌, Option, none, some,
  leb, ltb, ◌==◌, if◌then◌else◌, length, take,
}
use mem_sentry.Base.Dict
use mem_sentry.Base.Dict.{Dict}
use mem_sentry.Types.{Text, codes, StackFrame}

abbrev pub max_capture : ℕ
max_capture = 64

-- The loop of `capture`: pass over the skipped frames, then copy while there is room.
unfoldable pub copy_frames : List ℕ → ℕ → ℕ → List ℕ
copy_frames [] skip room = []
copy_frames (f ∷ fs) (suc skip) room = copy_frames fs skip room
copy_frames (f ∷ fs) zero zero = []
copy_frames (f ∷ fs) zero (suc room) = f ∷ copy_frames fs zero room

-- The addresses that `capture` writes out; their number is its result. `backtrace depth` is the
-- buffer that the system fills. (A depth or skip count of 2 ^ 31 or more, which the casts to int
-- make negative, is not modelled.)
unfoldable pub capture : (ℕ → List ℕ) → ℕ → ℕ → List ℕ
unfolding copy_frames
capture backtrace max_depth skip_frames =
    let wanted = (max_depth + skip_frames) % 2 ^ 32 in
    let buffer = backtrace (if ltb max_capture wanted then max_capture else wanted) in
    if max_depth == 0
    then []
    else if leb (length buffer) skip_frames
    then []
    else copy_frames buffer skip_frames max_depth

-- What dladdr says of an address: the symbol's name and the file's, each of which may be null.
pub record DlInfo : Type 0 where
  pub dli_sname : Option Text
  pub dli_fname : Option Text

pub record Linker : Type 0 where
  pub dladdr : ℕ → Option DlInfo
  pub demangle : Text → Option Text

abbrev pub hex_digit : ℕ → ℕ
hex_digit d = if ltb d 10 then 48 + d else 87 + d

-- `width` hexadecimal digits, the leading ones 0: std::hex with setw and setfill('0').
unfoldable pub hex : ℕ → ℕ → Text
hex zero n = []
hex (suc width) n = hex width (n / 16) ++ hex_digit (n % 16) ∷ []

abbrev pub or_text : Option Text → Text → Text
or_text none t = t
or_text (some s) t = s

-- The names are taken only where there is a symbol; a name that cannot be demangled is taken as is.
abbrev pub name_frame : Linker → StackFrame → Option Text → Option Text → StackFrame
name_frame linker plain none fname = plain
name_frame linker plain (some sname) fname = record plain {
  symbol_name = or_text (linker.demangle sname) sname;
  file_name = or_text fname [];
}

-- The frame of an address that is not in the cache.
unfoldable pub symbolize : Linker → ℕ → StackFrame
unfolding hex
symbolize linker address =
    let plain : StackFrame = record {
      address = address;
      symbol_name = 48 ∷ 120 ∷ hex 16 address;
      file_name = [];
      line_number = 0;
    } in
    elim (linker.dladdr address) [
      | none ↦ plain
      | some info ↦ name_frame linker plain info.dli_sname info.dli_fname
    ]

abbrev pub SymbolCache : Type 0
SymbolCache = Dict StackFrame

unfoldable pub resolve_frame : Linker → ℕ → SymbolCache → StackFrame × SymbolCache
unfolding symbolize
resolve_frame linker address cache = elim (Dict.lookup address cache) [
  | some frame ↦ (frame, cache)
  | none ↦ let frame = symbolize linker address in (frame, Dict.insert address frame cache)
]

-- The loop of `resolve` over the first `count` entries: null ones are passed over.
unfoldable pub resolve_list : Linker → List ℕ → SymbolCache → List StackFrame × SymbolCache
unfolding resolve_frame
resolve_list linker [] cache = ([], cache)
resolve_list linker (f ∷ fs) cache =
    let skipped = resolve_list linker fs cache in
    let first = resolve_frame linker f cache in
    let rest = resolve_list linker fs first.1 in
    if f == 0 then skipped else (first.0 ∷ rest.0, rest.1)

unfoldable pub resolve : Linker → List ℕ → ℕ → SymbolCache → List StackFrame × SymbolCache
unfolding resolve_list
resolve linker frames count cache = resolve_list linker (take count frames) cache
