-- ===== src/Coordinator/Lines/RoundTrip.antt =====
-- What `split_lines` reads back of `join_lines`.
use distcompile.Prelude.{
  newline, append-nil, append_assoc, ◌≡◌, refl, ◌≢◌, false, List, [], ◌∷◌, ◌++◌, Text, ◌==◌, All,
}
use distcompile.Coordinator.Lines.{join_rest, join_lines, split_from, split_lines}

split_from-join_rest :
    (s line : Text) (v : List Text)
    → All (λ c. (c == newline) ≡ false) s
    → All (All (λ c. (c == newline) ≡ false)) v
    → split_from line (s ++ join_rest v) ≡ (line ++ s) ∷ v
unfolding split_from join_rest
split_from-join_rest [] line [] hs hv = cc (append-nil line)
split_from-join_rest [] line (t ∷ v) hs hv =
    cc (append-nil line, split_from-join_rest t [] v hv.0 hv.1)
split_from-join_rest (c ∷ s) line v hs hv =
    rw (hs.0, split_from-join_rest s (line ++ c ∷ []) v hs.1 hv, append_assoc line (c ∷ []) s)

split_lines_lem : (s : Text) → s ≢ [] → split_lines s ≡ split_from [] s
unfolding split_lines
split_lines_lem [] h = absurd (h refl)
split_lines_lem (c ∷ s) h = refl

-- Entries without a line break come back from the column that they are joined in, also when there
-- are none or some are empty, except for a single entry that is empty.
pub split_lines-join_lines :
    (v : List Text)
    → All (All (λ c. (c == newline) ≡ false)) v
    → v ≢ [] ∷ []
    → split_lines (join_lines v) ≡ v
unfolding split_lines join_lines join_rest
split_lines-join_lines [] h one = refl
split_lines-join_lines ([] ∷ []) h one = absurd (one refl)
split_lines-join_lines ([] ∷ t ∷ v) h one = split_from-join_rest [] [] (t ∷ v) h.0 h.1
split_lines-join_lines ((c ∷ s) ∷ v) h one = split_from-join_rest (c ∷ s) [] v h.0 h.1
