-- ===== src/Preprocess/Lines.antt =====
-- What of a preprocessed text reaches the key of a compilation.
use distcompile.Prelude.{
  newline, append-nil, append_assoc, true, false, ◌≡◌, refl, ◌&&◌, ◌||◌, inl, inr, not, List, [],
  ◌∷◌, ◌++◌, Text, codes, ◌==◌, text_eq_refl, Bool-cases, arith, All,
}
use distcompile.Preprocess.{
  CompileConfig, lines_from, is_marker, is_blank_line, keep_lines, strip_line_markers, key_parts,
  compile_key,
}

-- A line break ends the line before it.
lines_break :
    (a w rest : Text)
    → lines_from w (a ++ (newline ∷ rest))
      ≡ lines_from w (a ++ (newline ∷ [])) ++ lines_from [] rest
unfolding lines_from
lines_break [] w rest = refl
lines_break (c ∷ a) w rest = elim (Bool-cases (c == newline)) [
  | inl e ↦ rw (e, lines_break a [] rest)
  | inr e ↦ rw (e, lines_break a (w ++ c ∷ []) rest)
]

keep_lines-append : (u v : List Text) → keep_lines (u ++ v) ≡ keep_lines u ++ keep_lines v
unfolding keep_lines
keep_lines-append [] v = refl
keep_lines-append (l ∷ u) v = elim (Bool-cases (not (is_marker l) && not (is_blank_line l))) [
  | inl e ↦ rw (e, keep_lines-append u v, append_assoc l (newline ∷ keep_lines u) (keep_lines v))
  | inr e ↦ rw (e, keep_lines-append u v)
]

keep_one :
    (l : Text) (v : List Text)
    → (is_marker l || is_blank_line l) ≡ true
    → keep_lines (l ∷ v) ≡ keep_lines v
unfolding keep_lines
keep_one l v h = ground (arith, h)

lines_one :
    (l w : Text)
    → All (λ c. (c == newline) ≡ false) l
    → lines_from w (l ++ (newline ∷ [])) ≡ (w ++ l) ∷ []
unfolding lines_from
lines_one [] w h = cc (append-nil w)
lines_one (c ∷ l) w h = rw (h.0, lines_one l (w ++ c ∷ []) h.1, append_assoc w (c ∷ []) l)

-- A line that stands in no key: a line marker, or nothing but blanks.
strip_line_markers_skips :
    (a l b : Text)
    → All (λ c. (c == newline) ≡ false) l
    → (is_marker l || is_blank_line l) ≡ true
    → strip_line_markers (a ++ (newline ∷ (l ++ (newline ∷ b))))
      ≡ strip_line_markers (a ++ (newline ∷ b))
unfolding strip_line_markers
strip_line_markers_skips a l b plain skipped = cc (
  lines_break a [] (l ++ (newline ∷ b)),
  lines_break l [] b,
  lines_one l [] plain,
  lines_break a [] b,
  keep_lines-append (lines_from [] (a ++ (newline ∷ []))) (lines_from [] (l ++ (newline ∷ b))),
  keep_lines-append (lines_from [] (a ++ (newline ∷ []))) (lines_from [] b),
  keep_one l (lines_from [] b) skipped,
)

-- The key of a C compilation without debug information does not depend on line markers and blank
-- lines: such a line can stand behind any line break of the text, or not, and the key is the same.
pub compile_key_skips :
    (sha256 : Text → Text) (cfg : CompileConfig) (a l b : Text)
    → cfg.debug ≡ false
    → cfg.lang ≡ codes "c"
    → All (λ c. (c == newline) ≡ false) l
    → (is_marker l || is_blank_line l) ≡ true
    → compile_key sha256 cfg (a ++ (newline ∷ (l ++ (newline ∷ b))))
      ≡ compile_key sha256 cfg (a ++ (newline ∷ b))
unfolding compile_key key_parts
compile_key_skips sha256 cfg a l b release lang plain skipped =
    rw (release, lang, text_eq_refl (codes "c"), strip_line_markers_skips a l b plain skipped)
