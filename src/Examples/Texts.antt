-- ===== src/Examples/Texts.antt =====
-- Hashes, literals and columns, and a blob store, on concrete texts.
use distcompile.Prelude.{
  List, ok, text_eq, newline, ℕ, zero, suc, ◌≡◌, refl, ◌≢◌, ◌<◌, inl, true, false, ◌||◌, none, some,
  [], ◌∷◌, ◌++◌, Text, codes, All, arith,
}
use distcompile.Util.{sha256_hex}
use distcompile.Util.Frame.{frame-injective}
use distcompile.Cas.{Files, put, get, put_blobs}
use distcompile.Cas.Store.{IsDigest, IsSound, put_blobs-IsSound, put-get}
use distcompile.Db.{pg_array, parse_pg_array}
use distcompile.Db.RoundTrip.{parse_pg_array-pg_array}
use distcompile.Preprocess.{CompileConfig, compile_key, is_marker, is_blank_line}
use distcompile.Preprocess.Lines.{compile_key_skips}
use distcompile.Coordinator.Lines.{join_lines, split_lines}
use distcompile.Coordinator.Lines.RoundTrip.{split_lines-join_lines}
use distcompile.Util.{split_ws, words_from}
use distcompile.Manifest.{
  Manifest, no_manifest, parse_manifest, getlines, parse_lines, cut_comment, directive, add_target,
  target_words, expand, has_wildcard, has_name, check_targets, check_libs, is_lib_name,
}
use distcompile.Manifest.Accepted.{parse_manifest-ok}

abbrev zeros : ℕ → Text
zeros zero = []
zeros (suc n) = 0 ∷ zeros n

abbrev pub digest : Text → Text
digest s = zeros 32

zeros_small : (n : ℕ) → All (λ b. b < 256) (zeros n)
zeros_small zero = tt
zeros_small (suc n) = (omega arith, zeros_small n)

pub digest-IsDigest : IsDigest digest
digest-IsDigest = record { size = λ s. refl; bytes = λ s. zeros_small 32 }

frame-injective_example : (codes "a" ∷ codes "bc" ∷ []) ≡ (codes "a" ∷ codes "bc" ∷ [])
frame-injective_example =
    frame-injective (codes "a" ∷ codes "bc" ∷ []) (codes "a" ∷ codes "bc" ∷ [])
      (omega arith, (omega arith, tt)) (omega arith, (omega arith, tt)) refl

abbrev pub empty_store : Files
empty_store path = none

put_blobs-IsSound_example :
    IsSound digest
      (codes "/cas")
      (put_blobs digest
        (λ p. true)
        (codes "/cas")
        ((codes "00", codes "int x;") ∷ ([], codes "int y;") ∷ [])
        empty_store).1
put_blobs-IsSound_example =
    put_blobs-IsSound digest (λ p. true) (codes "/cas")
      ((codes "00", codes "int x;") ∷ ([], codes "int y;") ∷ []) empty_store digest-IsDigest
      (λ h c v e. absurd (cc))

put-get_example :
    ((put digest (λ p. true) (codes "/cas") (codes "int x;") [] empty_store).0
      ≡ sha256_hex digest (codes "int x;"))
    × (get
          (codes "/cas")
          (put digest (λ p. true) (codes "/cas") (codes "int x;") [] empty_store).1
          (sha256_hex digest (codes "int x;"))
        ≡ some (codes "int x;"))
    × ((h : Text)
        → h ≢ sha256_hex digest (codes "int x;")
        → get
            (codes "/cas")
            (put digest (λ p. true) (codes "/cas") (codes "int x;") [] empty_store).1
            h
          ≡ get (codes "/cas") empty_store h)
put-get_example =
    put-get digest (λ p. true) (codes "/cas") (codes "int x;") [] empty_store digest-IsDigest refl
      refl (inl refl)

parse_pg_array-pg_array_example :
    parse_pg_array (pg_array false ([] ∷ codes "a,b" ∷ (34 ∷ 92 ∷ []) ∷ []))
    ≡ [] ∷ codes "a,b" ∷ (34 ∷ 92 ∷ []) ∷ []
parse_pg_array-pg_array_example = parse_pg_array-pg_array ([] ∷ codes "a,b" ∷ (34 ∷ 92 ∷ []) ∷ [])

abbrev c_config : CompileConfig
c_config = record {
  driver = codes "gcc";
  lang = codes "c";
  toolchain = codes "gcc 13";
  pp_flags = [];
  cc_flags = codes "-O2" ∷ [];
  debug = false;
}

marker_line : (is_marker (codes "# 3 x.h") || is_blank_line (codes "# 3 x.h")) ≡ true
unfolding is_marker
marker_line = refl

compile_key_skips_example :
    compile_key digest c_config
      (codes "int x;" ++ (newline ∷ (codes "# 3 x.h" ++ (newline ∷ codes "int y;"))))
    ≡ compile_key digest c_config (codes "int x;" ++ (newline ∷ codes "int y;"))
compile_key_skips_example =
    compile_key_skips digest c_config (codes "int x;") (codes "# 3 x.h") (codes "int y;") refl refl
      (refl, (refl, (refl, (refl, (refl, (refl, (refl, tt))))))) marker_line

split_lines-join_lines_example :
    split_lines (join_lines (codes "-c" ∷ [] ∷ codes "-O2" ∷ []))
    ≡ codes "-c" ∷ [] ∷ codes "-O2" ∷ []
split_lines-join_lines_example =
    split_lines-join_lines (codes "-c" ∷ [] ∷ codes "-O2" ∷ [])
      ((refl, (refl, tt)), (tt, ((refl, (refl, (refl, tt))), tt))) (λ e. cc)

abbrev dcbuild : Text
dcbuild = codes "bin x a.c"

abbrev no_files : Text → List Text
no_files pattern = []

abbrev program : Manifest
program = record no_manifest {
  targets = record { is_lib = false; name = codes "x"; sources = codes "a.c" ∷ []; libs = [] } ∷ [];
}

dcbuild_read : parse_manifest no_files dcbuild (codes "/src") ≡ ok program
unfolding parse_manifest getlines parse_lines cut_comment split_ws words_from directive add_target
    target_words expand has_wildcard has_name check_targets check_libs text_eq
dcbuild_read = refl

parse_manifest-ok_example :
    All
      (λ t. (t.sources ≢ []) × All (λ l. is_lib_name l program.targets ≡ true) t.libs)
      program.targets
parse_manifest-ok_example = parse_manifest-ok no_files dcbuild (codes "/src") program dcbuild_read
