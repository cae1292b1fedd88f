-- ===== src/Manifest/Accepted.antt =====
-- What a DCBUILD file that is accepted says.
use distcompile.Prelude.{
  ℕ, ◌+◌, ◌≡◌, ◌≢◌, refl, inl, inr, Bool, true, false, List, [], ◌∷◌, ◌++◌, Text, codes,
  if◌then◌else◌, text_eq, is_empty, Result, ok, err, ◌>>=◌, >>=-eq-ok, Bool-cases, All, All-append,
  All-zip, subst,
}
use distcompile.Util.{split_ws}
use distcompile.Manifest.{
  Target, Manifest, ManifestError, target_words, add_target, set_driver, directive, parse_lines,
  is_lib_name, check_libs, check_targets, no_manifest, parse_manifest, getlines, has_name,
  cut_comment,
}

abbrev HasSources : Target → Type 0
HasSources t = t.sources ≢ []

-- A step that ends in a manifest all of whose targets have sources.
abbrev KeepsSources : Result ManifestError Manifest → Type 0
KeepsSources r = (m : Manifest) → r ≡ ok m → All HasSources m.targets

either {ℓ κ} :
    {A : Type ℓ} (P : A → Type κ) (b : Bool) {x y : A} → P x → P y → P (if b then x else y)
either P true hx hy = hx
either P false hx hy = hy

ok-same : (m m' : Manifest) → ◌≡◌ {A = Result ManifestError Manifest} (ok m) (ok m') → m ≡ m'
ok-same m m' e = cc

keeps_ok : (m : Manifest) → All HasSources m.targets → KeepsSources (ok m)
keeps_ok m h m' e = subst (λ z. All HasSources z.targets) (ok-same m m' e) h

keeps_err : (x : ManifestError) → KeepsSources (err x)
keeps_err x m e = absurd (cc)

add_sourced :
    (sources : List Text) (x : ManifestError) (u : Target) (m : Manifest)
    → u.sources ≡ sources
    → All HasSources m.targets
    → KeepsSources
        (elim sources [ [] ↦ err x | s ∷ more ↦ ok record m { targets = m.targets ++ u ∷ [] } ])
add_sourced [] x u m e h = keeps_err x
add_sourced (s ∷ more) x u m e h =
    keeps_ok (record m { targets = m.targets ++ u ∷ [] })
      (All-append HasSources m.targets (u ∷ []) h (λ none_there. absurd (cc), tt))

add_target-KeepsSources :
    (glob : Text → List Text) (root : Text) (line : ℕ) (is_lib : Bool) (words : List Text)
    (m : Manifest)
    → All HasSources m.targets
    → KeepsSources (add_target glob root line is_lib words m)
unfolding add_target
add_target-KeepsSources glob root line is_lib [] m h = keeps_err _
add_target-KeepsSources glob root line is_lib (name ∷ words) m h =
    either KeepsSources (is_empty words) (keeps_err _) (
      either KeepsSources (has_name name m.targets) (keeps_err _) (λ m' e.
        let (u, read, rest) =
          >>=-eq-ok
            (target_words glob root line words false
              record { is_lib = is_lib; name = name; sources = []; libs = [] })
            _ e in
        add_sourced u.sources _ u m refl h m' rest))

set_driver-KeepsSources :
    (line : ℕ) (cxx : Bool) (words : List Text) (m : Manifest)
    → All HasSources m.targets
    → KeepsSources (set_driver line cxx words m)
unfolding set_driver
set_driver-KeepsSources line cxx [] m h = keeps_err _
set_driver-KeepsSources line true (w ∷ []) m h = keeps_ok _ h
set_driver-KeepsSources line false (w ∷ []) m h = keeps_ok _ h
set_driver-KeepsSources line cxx (w ∷ v ∷ words) m h = keeps_err _

directive-KeepsSources :
    (glob : Text → List Text) (root : Text) (line : ℕ) (d : Text) (words : List Text) (m : Manifest)
    → All HasSources m.targets
    → KeepsSources (directive glob root line d words m)
unfolding directive
directive-KeepsSources glob root line d words m h =
    either KeepsSources (text_eq d (codes "cc")) (set_driver-KeepsSources line false words m h) (
      either KeepsSources (text_eq d (codes "cxx")) (set_driver-KeepsSources line true words m h) (
        either KeepsSources (text_eq d (codes "cflags")) (keeps_ok _ h) (
          either KeepsSources (text_eq d (codes "ldflags")) (keeps_ok _ h) (
            either KeepsSources (text_eq d (codes "lib"))
              (add_target-KeepsSources glob root line true words m h)
              (either KeepsSources (text_eq d (codes "bin"))
                (add_target-KeepsSources glob root line false words m h) (keeps_err _))))))

one_line :
    (words : List Text) (step : Text → List Text → Result ManifestError Manifest)
    (next : Manifest → Result ManifestError Manifest) (m : Manifest)
    → All HasSources m.targets
    → ((d : Text) (more : List Text) → KeepsSources (step d more))
    → ((m' : Manifest) → All HasSources m'.targets → KeepsSources (next m'))
    → KeepsSources (elim words [ [] ↦ next m | d ∷ more ↦ (step d more >>= next) ])
one_line [] step next m h one all m' e = all m h m' e
one_line (d ∷ more) step next m h one all m' e =
    let (after, stepped, rest) = >>=-eq-ok (step d more) next e in
    all after (one d more after stepped) m' rest

parse_lines-KeepsSources :
    (glob : Text → List Text) (root : Text) (line : ℕ) (lines : List Text) (m : Manifest)
    → All HasSources m.targets
    → KeepsSources (parse_lines glob root line lines m)
unfolding parse_lines
parse_lines-KeepsSources glob root line [] m h = keeps_ok m h
parse_lines-KeepsSources glob root line (raw ∷ lines) m h =
    one_line (split_ws (cut_comment raw)) (λ d words. directive glob root line d words m)
      (parse_lines glob root (line + 1) lines) m h
      (λ d words. directive-KeepsSources glob root line d words m h)
      (λ m' h'. parse_lines-KeepsSources glob root (line + 1) lines m' h')

check_libs-ok :
    (all : List Target) (name : Text) (libs : List Text) (b : Bool)
    → check_libs all name libs ≡ ok b
    → All (λ l. is_lib_name l all ≡ true) libs
unfolding check_libs
check_libs-ok all name [] b e = tt
check_libs-ok all name (l ∷ libs) b e = elim (Bool-cases (is_lib_name l all)) [
  | inl y ↦ (y, check_libs-ok all name libs b (rw (y, check_libs) at e))
  | inr n ↦ absurd (cc (rw (n, check_libs) at e))
]

check_targets-ok :
    (all ts : List Target) (b : Bool)
    → check_targets all ts ≡ ok b
    → All (λ t. All (λ l. is_lib_name l all ≡ true) t.libs) ts
unfolding check_targets
check_targets-ok all [] b e = tt
check_targets-ok all (t ∷ ts) b e =
    let (c, first, rest) = >>=-eq-ok (check_libs all t.name t.libs) _ e in
    (check_libs-ok all t.name t.libs c first, check_targets-ok all ts b rest)

-- In a DCBUILD file that is accepted, every target has a source, and whatever a program links is the
-- name of a library of the same file.
pub parse_manifest-ok :
    (glob : Text → List Text) (text root : Text) (m : Manifest)
    → parse_manifest glob text root ≡ ok m
    → All (λ t. (t.sources ≢ []) × All (λ l. is_lib_name l m.targets ≡ true) t.libs) m.targets
unfolding parse_manifest
parse_manifest-ok glob text root m e =
    let (read, lines, checked) =
      >>=-eq-ok (parse_lines glob root 1 (getlines [] text) no_manifest) _ e in
    let (done, libs, same) = >>=-eq-ok (check_targets read.targets read.targets) _ checked in
    subst
      (λ z.
        All (λ t. (t.sources ≢ []) × All (λ l. is_lib_name l z.targets ≡ true) t.libs) z.targets)
      (ok-same read m same)
      (All-zip HasSources (λ t. All (λ l. is_lib_name l read.targets ≡ true) t.libs) read.targets
        (parse_lines-KeepsSources glob root 1 (getlines [] text) no_manifest tt read lines)
        (check_targets-ok read.targets read.targets done libs))
