-- ===== src/Preprocess.antt =====
-- preprocess.cpp: which flags a compilation has, what of the preprocessed text counts, and the key
-- of the result. SHA-256 is a parameter.
pub mod Lines
use distcompile.Prelude.Int.{ℤ, is_zero}
use distcompile.Prelude.{
  newline, is_among, take, drop, append-nil, append_assoc, ℕ, Bool, true, false, ◌&&◌, ◌||◌, not,
  Option, none, some, List, [], ◌∷◌, ◌++◌, Text, codes, leb, ltb, ◌==◌, if◌then◌else◌, length,
  text_eq, is_empty,
}
use distcompile.Util.{sha256_parts, sha256_hex}

pub record CompileConfig : Type 0 where
  pub driver : Text
  pub lang : Text
  pub toolchain : Text
  pub pp_flags : List Text
  pub cc_flags : List Text
  pub debug : Bool

-- `f.rfind(p, 0) == 0`
unfoldable pub starts_with : Text → Text → Bool
starts_with [] f = true
starts_with (c ∷ p) [] = false
starts_with (c ∷ p) (d ∷ f) = if c == d then starts_with p f else false

-- The test `pp`.
unfoldable pub is_pp : Text → Bool
unfolding starts_with
is_pp f =
    starts_with (codes "-I") f
    || starts_with (codes "-D") f
    || starts_with (codes "-U") f
    || text_eq f (codes "-include")
    || text_eq f (codes "-isystem")
    || text_eq f (codes "-iquote")

-- A flag whose value is the next word.
unfoldable pub takes_word : Text → Bool
takes_word f =
    text_eq f (codes "-I")
    || text_eq f (codes "-D")
    || text_eq f (codes "-U")
    || text_eq f (codes "-include")
    || text_eq f (codes "-isystem")
    || text_eq f (codes "-iquote")

unfoldable pub is_debug : Text → Bool
unfolding starts_with
is_debug f = starts_with (codes "-g") f && not (text_eq f (codes "-g0"))

abbrev pub add_pp : Text → CompileConfig → CompileConfig
add_pp f c = record c { pp_flags = c.pp_flags ++ f ∷ [] }

abbrev pub add_cc : Text → CompileConfig → CompileConfig
add_cc f c = record c { cc_flags = c.cc_flags ++ f ∷ []; debug = is_debug f || c.debug }

-- The loop over `cflags`.
unfoldable pub sort_flags : List Text → CompileConfig → CompileConfig
unfolding is_pp takes_word is_debug
sort_flags [] c = c
sort_flags (f ∷ []) c = if is_pp f then add_pp f c else add_cc f c
sort_flags (f ∷ g ∷ flags) c =
    let with_word = sort_flags flags (add_pp g (add_pp f c)) in
    let alone = sort_flags (g ∷ flags) (add_pp f c) in
    let other = sort_flags (g ∷ flags) (add_cc f c) in
    if is_pp f then (if takes_word f then with_word else alone) else other

unfoldable pub make_config : Text → Text → Text → List Text → CompileConfig
unfolding sort_flags
make_config driver lang toolchain cflags = sort_flags cflags record {
  driver = driver;
  lang = lang;
  toolchain = toolchain;
  pp_flags = [];
  cc_flags = [];
  debug = false;
}

-- The lines of a text as the loops find them: up to each '\n', and up to the end of the text when
-- it does not end in one. `line` is what was read since the last line break.
unfoldable pub lines_from : Text → Text → List Text
lines_from line [] = if is_empty line then [] else line ∷ []
lines_from line (c ∷ s) =
    let next = line ∷ lines_from [] s in
    let more = lines_from (line ++ c ∷ []) s in if c == newline then next else more

unfoldable pub is_marker : Text → Bool
is_marker [] = false
is_marker (a ∷ []) = false
is_marker (a ∷ b ∷ []) = false
is_marker (a ∷ b ∷ c ∷ s) = (a == b'#') && (b == 32) && leb b'0' c && leb c b'9'

-- Only " \t\r" from the start of the line to its end.
unfoldable pub is_blank_line : Text → Bool
is_blank_line [] = true
is_blank_line (c ∷ s) = if (c == 32) || (c == 9) || (c == 13) then is_blank_line s else false

unfoldable pub keep_lines : List Text → Text
unfolding is_marker is_blank_line
keep_lines [] = []
keep_lines (line ∷ lines) =
    let rest = keep_lines lines in
    if not (is_marker line) && not (is_blank_line line) then line ++ newline ∷ rest else rest

unfoldable pub strip_line_markers : Text → Text
unfolding lines_from keep_lines
strip_line_markers text = keep_lines (lines_from [] text)

-- What stands before the first '"', and what stands behind it.
unfoldable pub cut_quote : Text → Option (Text × Text)
cut_quote [] = none
cut_quote (c ∷ s) =
    if c == 34
    then some ([], s)
    else (elim (cut_quote s) [ none ↦ none | some (before, behind) ↦ some (c ∷ before, behind) ])

-- The text between the first two '"' of a line.
unfoldable pub quoted_name : Text → Option Text
unfolding cut_quote
quoted_name line = elim (cut_quote line) [
  | none ↦ none
  | some (before, behind) ↦ elim (cut_quote behind) [ none ↦ none | some (name, rest) ↦ some name ]
]

-- `!f.empty() && f[0] != '<'`
abbrev pub is_file : Text → Bool
is_file [] = false
is_file (c ∷ f) = not (c == b'<')

-- The loop of `marker_files`; the set `seen` holds what `out` holds.
unfoldable pub note_files : List Text → List Text → List Text
unfolding is_marker quoted_name
note_files [] out = out
note_files (line ∷ lines) out =
    let skip = note_files lines out in
    if is_marker line
    then elim (quoted_name line) [
      | none ↦ skip
      | some f ↦
          let add = note_files lines (out ++ f ∷ []) in
          if is_file f && not (is_among f out) then add else skip
    ]
    else skip

unfoldable pub marker_files : Text → List Text
unfolding lines_from note_files
marker_files text = note_files (lines_from [] text) []

unfoldable pub flag_lines : List Text → Text
flag_lines [] = []
flag_lines (f ∷ flags) = f ++ newline ∷ flag_lines flags

-- What `compile_key` hashes.
unfoldable pub key_parts : CompileConfig → Text → List Text
unfolding flag_lines strip_line_markers
key_parts cfg text =
    codes "dc-compile-v1"
    ∷ cfg.toolchain
    ∷ cfg.lang
    ∷ flag_lines cfg.cc_flags
    ∷ (if not cfg.debug && text_eq cfg.lang (codes "c") then strip_line_markers text else text)
    ∷ []

unfoldable pub compile_key : (Text → Text) → CompileConfig → Text → Text
unfolding key_parts
compile_key sha256 cfg text = sha256_parts sha256 (key_parts cfg text)

-- What `run_process` returns of a run.
pub record ProcResult : Type 0 where
  pub exit_code : ℤ
  pub output : Text
  pub stderr : Text

pub record Preprocessed : Type 0 where
  pub passed : Bool
  pub error : Text
  pub text : Text
  pub digest : Text
  pub key : Text
  pub deps : List Text

abbrev pub preprocess_argv : Text → CompileConfig → List Text
preprocess_argv src cfg =
    cfg.driver ∷ codes "-E" ∷ codes "-x" ∷ cfg.lang ∷ (cfg.pp_flags ++ cfg.cc_flags ++ src ∷ [])

-- `run` is the compiler, from its arguments to its result.
unfoldable pub preprocess :
    (Text → Text) → (List Text → ProcResult) → Text → CompileConfig → Preprocessed
unfolding compile_key marker_files
preprocess sha256 run src cfg =
    let r = run (preprocess_argv src cfg) in
    if is_zero r.exit_code
    then record {
      passed = true;
      error = [];
      text = r.output;
      digest = sha256_hex sha256 r.output;
      key = compile_key sha256 cfg r.output;
      deps = marker_files r.output;
    }
    else record {
      passed = false;
      error = if is_empty r.stderr then r.output else r.stderr;
      text = [];
      digest = [];
      key = [];
      deps = [];
    }
