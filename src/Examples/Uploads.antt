-- ===== src/Examples/Uploads.antt =====
-- dcc.cpp on two units, of which the coordinator has the result of one.
use distcompile.Prelude.{
  ◌≡◌, refl, ◌⊎◌, inr, Bool, true, false, none, List, [], ◌∷◌, Text, codes, text_eq, is_among, All,
  ok,
}
use distcompile.Prelude.Int.{pos}
use distcompile.Preprocess.{CompileConfig, ProcResult}
use distcompile.Util.{sha256_hex, to_hex, hex_digit}
use distcompile.Cas.{Files, has, put, put_blobs, find_missing, valid_hash, all_hex, path_of}
use distcompile.Cas.Kept.{Stored}
use distcompile.Rpc.{Status, other_code, no_status, is_success, retry_loop, with_retry}
use distcompile.Client.{TransUnit}
use distcompile.Client.Upload.{
  Stub, needed, load_text, erase, flush, add_blob, send_unit, send_units, send_sources,
  upload_missing,
}
use distcompile.Client.Upload.Sent.{IsServed, upload_missing-Stored}
use distcompile.Examples.Texts.{digest, digest-IsDigest, empty_store}
use distcompile.Examples.Workers.{zeros}

abbrev refused : Status
refused = record { code = other_code 3; error_message = codes "no match" }

-- Both calls reach the handlers.
abbrev answer_put : Bool × Files → Status × Files
answer_put (true, files) = (no_status, files)
answer_put (false, files) = (refused, files)

abbrev stub : Stub Files
stub = record {
  find_missing = λ want w. (no_status, (w.0, find_missing (codes "/b") w.0 want));
  put_blobs = λ blobs files. answer_put (put_blobs digest (λ p. true) (codes "/b") blobs files);
}

answer_put-files : (r : Bool × Files) → (answer_put r).1 ≡ r.1
answer_put-files (true, files) = refl
answer_put-files (false, files) = refl

answer_put-good : (r : Bool × Files) → is_success (answer_put r).0.code ≡ true → r.0 ≡ true
answer_put-good (true, files) e = refl
answer_put-good (false, files) e = absurd (cc)

stub-IsServed : IsServed digest (λ p. true) (codes "/b") stub (λ files. files)
stub-IsServed = record {
  asked = λ want w. refl;
  told = λ want w e. refl;
  arrives = λ blobs w. inr (answer_put-files (put_blobs digest (λ p. true) (codes "/b") blobs w));
  answered = λ blobs w e. (
    answer_put-good (put_blobs digest (λ p. true) (codes "/b") blobs w) e,
    answer_put-files (put_blobs digest (λ p. true) (codes "/b") blobs w),
  );
}

abbrev no_config : CompileConfig
no_config = record {
  driver = codes "cc";
  lang = codes "c";
  toolchain = [];
  pp_flags = [];
  cc_flags = [];
  debug = false;
}

abbrev source : Text → Text → TransUnit
source src key = record {
  src = src;
  cfg = no_config;
  key = key;
  digest = zeros 64;
  text = codes "int x;";
  cost = 6;
  deps = [];
  fresh = true;
  error = [];
}

abbrev two_units : List TransUnit
two_units = source (codes "a.c") (codes "k") ∷ source (codes "b.c") (codes "l") ∷ []

abbrev no_run : List Text → ProcResult
no_run argv = record { exit_code = pos 0; output = []; stderr = [] }

-- The blob store behind the upload.
abbrev stored : Files
stored = (put_blobs digest (λ p. true) (codes "/b") ((zeros 64, codes "int x;") ∷ []) empty_store).1

upload_passes :
    upload_missing stub digest no_run (λ p. none) [] (codes "k" ∷ []) two_units empty_store
    ≡ ok stored
unfolding upload_missing needed load_text send_sources send_units send_unit erase flush add_blob
    put_blobs find_missing put has valid_hash all_hex path_of sha256_hex to_hex hex_digit with_retry
    retry_loop text_eq
upload_passes = refl

upload_missing-Stored_example :
    All
      (λ u.
        (is_among u.key (codes "k" ∷ []) ≡ true)
        ⊎ Stored (codes "/b") stored (load_text digest no_run (λ p. none) [] u).digest)
      two_units
upload_missing-Stored_example =
    upload_missing-Stored digest (λ p. true) (codes "/b") stub (λ files. files) digest-IsDigest
      stub-IsServed no_run (λ p. none) [] (codes "k" ∷ []) two_units empty_store stored
      upload_passes
