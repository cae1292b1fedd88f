-- ===== src/Client.antt =====
-- dcc.cpp: which units a build has, which of them the state file still covers, and the graph of
-- tasks that is submitted. What `stat` says of a file and the compiler are parameters.
pub mod Spec
pub mod Upload
use distcompile.Prelude.{
  ℕ, zero, suc, ◌+◌, Bool, true, false, ◌&&◌, ◌||◌, not, Option, none, some, List, [], ◌∷◌, ◌++◌,
  map, Text, codes, ltb, ◌==◌, if◌then◌else◌, length, text_eq, is_empty,
}
use distcompile.Prelude.Int.{ℤ, pos}
use distcompile.Preprocess.{CompileConfig, make_config, ProcResult, Preprocessed, preprocess}
use distcompile.Manifest.{Target, Manifest}
use distcompile.Coordinator.Rows.{put_key}
use distcompile.Coordinator.Submit.{TaskSpec}

pub record FileStamp : Type 0 where
  pub mtime_ns : ℕ
  pub size : ℕ
  pub path : Text

pub record TransUnit : Type 0 where
  pub src : Text
  pub cfg : CompileConfig
  pub key : Text
  pub digest : Text
  pub text : Text
  pub cost : ℕ
  pub deps : List FileStamp
  pub fresh : Bool
  pub error : Text

abbrev pub full_path : Text → Text → Text
full_path root [] = root ++ b'/' ∷ []
full_path root (c ∷ path) = if c == b'/' then c ∷ path else root ++ b'/' ∷ c ∷ path

-- `stat_of` gives the time of the last change in nanoseconds and the size.
unfoldable pub stamp : (Text → Option (ℕ × ℕ)) → Text → Text → Option FileStamp
stamp stat_of root path = elim (stat_of (full_path root path)) [
  | none ↦ none
  | some (mtime, size) ↦ some (record { mtime_ns = mtime; size = size; path = path })
]

abbrev pub is_same : Option FileStamp → FileStamp → Bool
is_same none f = false
is_same (some now) f = (now.mtime_ns == f.mtime_ns) && (now.size == f.size)

unfoldable pub all_same : (Text → Option (ℕ × ℕ)) → Text → List FileStamp → Bool
unfolding stamp
all_same stat_of root [] = true
all_same stat_of root (f ∷ fs) =
    let rest = all_same stat_of root fs in
    if is_same (stamp stat_of root f.path) f then rest else false

unfoldable pub still_valid : (Text → Option (ℕ × ℕ)) → Text → TransUnit → Bool
unfolding all_same
still_valid stat_of root old = if is_empty old.deps then false else all_same stat_of root old.deps

unfoldable pub stamps : (Text → Option (ℕ × ℕ)) → Text → List Text → List FileStamp
unfolding stamp
stamps stat_of root [] = []
stamps stat_of root (d ∷ ds) = elim (stamp stat_of root d) [
  | none ↦ stamps stat_of root ds
  | some f ↦ f ∷ stamps stat_of root ds
]

unfoldable pub run_preprocess :
    (Text → Text)
    → (List Text → ProcResult)
    → (Text → Option (ℕ × ℕ))
    → Text
    → TransUnit
    → TransUnit
unfolding preprocess stamps
run_preprocess sha256 run stat_of root u =
    let p = preprocess sha256 run u.src u.cfg in
    if p.passed
    then record u {
      key = p.key;
      digest = p.digest;
      cost = length p.text;
      text = p.text;
      fresh = true;
      deps = stamps stat_of root p.deps;
    }
    else record u { error = p.error }

-- What stands behind the last '.', or "".
unfoldable pub extension : Text → Option Text
extension [] = none
extension (c ∷ s) = elim (extension s) [
  | some t ↦ some t
  | none ↦ if c == b'.' then some s else none
]

abbrev pub is_cxx_ext : Option Text → Bool
is_cxx_ext none = false
is_cxx_ext (some ext) =
    text_eq ext (codes "cc")
    || text_eq ext (codes "cpp")
    || text_eq ext (codes "cxx")
    || text_eq ext (codes "C")

-- `lang_of(src) == "c++"`
unfoldable pub is_cxx : Text → Bool
unfolding extension
is_cxx src = is_cxx_ext (extension src)

unfoldable pub lang_of : Text → Text
unfolding is_cxx
lang_of src = if is_cxx src then codes "c++" else codes "c"

-- What the loop pushes for a source.
abbrev pub new_unit : Manifest → Text → Text → TransUnit
new_unit m toolchain s = record {
  src = s;
  cfg = make_config (if is_cxx s then m.cxx else m.cc) (lang_of s) toolchain m.cflags;
  key = [];
  digest = [];
  text = [];
  cost = 0;
  deps = [];
  fresh = false;
  error = [];
}

-- The body of the parallel loop: `old` is what the state file has of each source.
unfoldable pub refresh :
    (Text → Text)
    → (List Text → ProcResult)
    → (Text → Option (ℕ × ℕ))
    → Text
    → (Text → Option TransUnit)
    → TransUnit
    → TransUnit
unfolding run_preprocess still_valid
refresh sha256 run stat_of root old u = elim (old u.src) [
  | none ↦ run_preprocess sha256 run stat_of root u
  | some o ↦
      if still_valid stat_of root o
      then record u { key = o.key; digest = o.digest; cost = o.cost; deps = o.deps }
      else run_preprocess sha256 run stat_of root u
]

-- The message for the compilation of a unit.
abbrev pub compile_spec : ℕ → TransUnit → TaskSpec
compile_spec id u = record {
  id = pos id;
  kind = 0;
  name = codes "obj/" ++ u.src ++ codes ".o";
  key = u.key;
  input = u.digest;
  cost = pos u.cost;
  args =
      u.cfg.driver
      ∷ codes "-x"
      ∷ (if text_eq u.cfg.lang (codes "c") then codes "cpp-output" else codes "c++-cpp-output")
      ∷ u.cfg.cc_flags;
  deps = [];
}

-- The tasks that the first loop adds, and the task of each unit.
pub record Compiled : Type 0 where
  pub tasks : List TaskSpec
  pub unit_task : List ℕ

-- `next` is the number of tasks so far; `task_of_key` is written out as a function.
unfoldable pub add_units : ℕ → (Text → Option ℕ) → List TransUnit → Compiled
add_units next task_of_key [] = record { tasks = []; unit_task = [] }
add_units next task_of_key (u ∷ units) =
    let known = add_units next task_of_key units in
    let new = add_units (suc next) (put_key task_of_key u.key (some next)) units in
    elim (task_of_key u.key) [
      | some i ↦ record { tasks = known.tasks; unit_task = i ∷ known.unit_task }
      | none ↦ record { tasks = compile_spec next u ∷ new.tasks; unit_task = next ∷ new.unit_task }
    ]

-- `unit_task[unit_of[s]]`: every source of a target has a unit.
unfoldable pub source_task : List TransUnit → List ℕ → Text → ℕ
source_task [] ts s = 0
source_task (u ∷ units) [] s = 0
source_task (u ∷ units) (t ∷ ts) s =
    let rest = source_task units ts s in if text_eq u.src s then t else rest

unfoldable pub is_seen : ℕ → List ℕ → Bool
is_seen t [] = false
is_seen t (k ∷ seen) = (k == t) || is_seen t seen

-- The loop over `tg.sources` with the set `seen`.
unfoldable pub source_deps : (Text → ℕ) → List ℕ → List Text → List ℤ
unfolding is_seen
source_deps task_of seen [] = []
source_deps task_of seen (s ∷ sources) =
    let skip = source_deps task_of seen sources in
    let add = pos (task_of s) ∷ source_deps task_of (task_of s ∷ seen) sources in
    if is_seen (task_of s) seen then skip else add

unfoldable pub archive_spec : (Text → ℕ) → ℕ → Target → TaskSpec
unfolding source_deps
archive_spec task_of id t = record {
  id = pos id;
  kind = 1;
  name = codes "lib" ++ t.name ++ codes ".a";
  key = [];
  input = [];
  cost = pos 1000;
  args = [];
  deps = source_deps task_of [] t.sources;
}

pub record Libs : Type 0 where
  pub tasks : List TaskSpec
  pub lib_task : Text → ℕ

unfoldable pub add_libs : (Text → ℕ) → ℕ → (Text → ℕ) → List Target → Libs
unfolding archive_spec
add_libs task_of next lib_task [] = record { tasks = []; lib_task = lib_task }
add_libs task_of next lib_task (t ∷ targets) =
    let skip = add_libs task_of next lib_task targets in
    let rest = add_libs task_of (suc next) (put_key lib_task t.name next) targets in
    if t.is_lib
    then record { tasks = archive_spec task_of next t ∷ rest.tasks; lib_task = rest.lib_task }
    else skip

unfoldable pub any_cxx : List Text → Bool
unfolding is_cxx
any_cxx [] = false
any_cxx (s ∷ sources) = is_cxx s || any_cxx sources

-- Whether a library of that name has a C++ source.
unfoldable pub lib_cxx : Text → List Target → Bool
unfolding any_cxx
lib_cxx l [] = false
lib_cxx l (t ∷ targets) = (t.is_lib && text_eq t.name l && any_cxx t.sources) || lib_cxx l targets

unfoldable pub libs_cxx : List Text → List Target → Bool
unfolding lib_cxx
libs_cxx [] targets = false
libs_cxx (l ∷ libs) targets = lib_cxx l targets || libs_cxx libs targets

unfoldable pub link_spec : Manifest → (Text → ℕ) → (Text → ℕ) → ℕ → Target → TaskSpec
unfolding source_deps any_cxx libs_cxx
link_spec m task_of lib_task id t = record {
  id = pos id;
  kind = 2;
  name = t.name;
  key = [];
  input = [];
  cost = pos 5000;
  args = (if any_cxx t.sources || libs_cxx t.libs m.targets then m.cxx else m.cc) ∷ m.ldflags;
  deps = source_deps task_of [] t.sources ++ map (λ l. pos (lib_task l)) t.libs;
}

unfoldable pub add_bins : Manifest → (Text → ℕ) → (Text → ℕ) → ℕ → List Target → List TaskSpec
unfolding link_spec
add_bins m task_of lib_task next [] = []
add_bins m task_of lib_task next (t ∷ targets) =
    let skip = add_bins m task_of lib_task next targets in
    let rest = add_bins m task_of lib_task (suc next) targets in
    if t.is_lib then skip else link_spec m task_of lib_task next t ∷ rest

-- The tasks of the build, from the units with their keys.
unfoldable pub build_tasks : Manifest → List TransUnit → List TaskSpec
unfolding add_units source_task add_libs add_bins
build_tasks m units =
    let compiled = add_units 0 (λ k. none) units in
    let task_of = source_task units compiled.unit_task in
    let first = length compiled.tasks in
    let libs = add_libs task_of first (λ l. 0) m.targets in
    compiled.tasks
    ++ (libs.tasks ++ add_bins m task_of libs.lib_task (first + length libs.tasks) m.targets)
