-- ===== src/Client/Spec.antt =====
-- The graph that the client submits, as `topo_order` reads it.
use distcompile.Prelude.{
  length-map, subst, ℕ, suc, ◌+◌, ◌≤◌, ◌<◌, ◌≡◌, refl, sym, inl, inr, Option, none, some, List, [],
  ◌∷◌, ◌++◌, map, Text, arith, ◌==◌, length, All, All-append, Bool-cases, Option-cases, ok, text_eq,
}
use distcompile.Prelude.Int.{ℤ, pos, pos_part, neg_part}
use distcompile.Graph.{topo_order}
use distcompile.Graph.Scan.{IsGoodDep, IsWellFormedFrom, deps_from}
use distcompile.Graph.Acyclic.{topo_order_iff}
use distcompile.Manifest.{Target, Manifest}
use distcompile.Coordinator.Rows.{put_key}
use distcompile.Coordinator.Submit.{TaskSpec, graph_task}
use distcompile.Client.{
  TransUnit, compile_spec, add_units, source_task, is_seen, source_deps, archive_spec, add_libs,
  link_spec, add_bins, build_tasks,
}

abbrev IsBelow : ℕ → ℤ → Type 0
IsBelow k d = (neg_part d ≡ 0) × (pos_part d < k)

-- Ids count up from `k`, and every dependency has a smaller id.
abbrev Numbered : ℕ → List TaskSpec → Type 0
Numbered k [] = Unit {0}
Numbered k (ts ∷ specs) = (ts.id ≡ pos k) × All (IsBelow k) ts.deps × Numbered (suc k) specs

Numbered-append :
    (k n : ℕ) (a b : List TaskSpec)
    → n ≡ k + length a
    → Numbered k a
    → Numbered n b
    → Numbered k (a ++ b)
Numbered-append k n [] b e ha hb = subst (λ i. Numbered i b) (omega (arith, e)) hb
Numbered-append k n (ts ∷ a) b e ha hb =
    (ha.0, ha.1, Numbered-append (suc k) n a b (omega (arith, e)) ha.2 hb)

All-IsBelow : (m k : ℕ) (ds : List ℤ) → m ≤ k → All (IsBelow m) ds → All (IsBelow k) ds
All-IsBelow m k [] le h = tt
All-IsBelow m k (d ∷ ds) le h = ((h.0.0, omega (arith, h.0.1)), All-IsBelow m k ds le h.1)

add_units-new :
    (next : ℕ) (of_key : Text → Option ℕ) (u : TransUnit) (units : List TransUnit)
    → of_key u.key ≡ none
    → let new = add_units (suc next) (put_key of_key u.key (some next)) units in
      add_units next of_key (u ∷ units)
      ≡ record { tasks = compile_spec next u ∷ new.tasks; unit_task = next ∷ new.unit_task }
unfolding add_units
add_units-new next of_key u units e = rw (e, add_units)

add_units-known :
    (next i : ℕ) (of_key : Text → Option ℕ) (u : TransUnit) (units : List TransUnit)
    → of_key u.key ≡ some i
    → let known = add_units next of_key units in
      add_units next of_key (u ∷ units)
      ≡ record { tasks = known.tasks; unit_task = i ∷ known.unit_task }
unfolding add_units
add_units-known next i of_key u units e = rw (e, add_units)

add_units-Numbered :
    (next : ℕ) (of_key : Text → Option ℕ) (units : List TransUnit)
    → Numbered next (add_units next of_key units).tasks
unfolding add_units
add_units-Numbered next of_key [] = tt
add_units-Numbered next of_key (u ∷ units) = elim (Option-cases (of_key u.key)) [
  | inl e ↦
      subst (λ c. Numbered next c.tasks) (sym (add_units-new next of_key u units e))
        (refl, tt, add_units-Numbered (suc next) (put_key of_key u.key (some next)) units)
  | inr (i, e) ↦
      subst (λ c. Numbered next c.tasks) (sym (add_units-known next i of_key u units e))
        (add_units-Numbered next of_key units)
]

put_key-bound :
    (next : ℕ) (of_key : Text → Option ℕ) (key k : Text) (i : ℕ)
    → ((k : Text) (i : ℕ) → of_key k ≡ some i → i < next)
    → put_key of_key key (some next) k ≡ some i
    → i < suc next
put_key-bound next of_key key k i b h = elim (Bool-cases (text_eq k key)) [
  | inl e ↦ ground (arith, e, h)
  | inr e ↦ ground (arith, e, b k i (rw e at h))
]

-- Every unit has a task among those that the loop adds or knows.
unit_task-bound :
    (next n : ℕ) (of_key : Text → Option ℕ) (units : List TransUnit)
    → ((k : Text) (i : ℕ) → of_key k ≡ some i → i < next)
    → next + length (add_units next of_key units).tasks ≤ n
    → All (λ i. i < n) (add_units next of_key units).unit_task
unfolding add_units
unit_task-bound next n of_key [] b le = tt
unit_task-bound next n of_key (u ∷ units) b le = elim (Option-cases (of_key u.key)) [
  | inl e ↦
      let eq = add_units-new next of_key u units e in
      let le' = subst (λ c. next + length c.tasks ≤ n) eq le in
      subst (λ c. All (λ i. i < n) c.unit_task) (sym eq)
        (
          omega (arith, le'),
          unit_task-bound (suc next) n (put_key of_key u.key (some next)) units
              (λ k i h. put_key-bound next of_key u.key k i b h) (omega (arith, le')),
        )
  | inr (i, e) ↦
      let eq = add_units-known next i of_key u units e in
      let le' = subst (λ c. next + length c.tasks ≤ n) eq le in
      subst (λ c. All (λ i. i < n) c.unit_task) (sym eq)
        (omega (arith, le', b u.key i e), unit_task-bound next n of_key units b le')
]

source_task-lt :
    (n : ℕ) (units : List TransUnit) (ts : List ℕ) (s : Text)
    → 0 < n
    → All (λ i. i < n) ts
    → source_task units ts s < n
unfolding source_task
source_task-lt n [] ts s h b = h
source_task-lt n (u ∷ units) [] s h b = h
source_task-lt n (u ∷ units) (t ∷ ts) s h b = elim (Bool-cases (text_eq u.src s)) [
  | inl e ↦ rw e b.0
  | inr e ↦ rw e (source_task-lt n units ts s h b.1)
]

source_deps-IsBelow :
    (n : ℕ) (task_of : Text → ℕ) (seen : List ℕ) (sources : List Text)
    → ((s : Text) → task_of s < n)
    → All (IsBelow n) (source_deps task_of seen sources)
unfolding source_deps
source_deps-IsBelow n task_of seen [] b = tt
source_deps-IsBelow n task_of seen (s ∷ sources) b = elim (Bool-cases (is_seen (task_of s) seen)) [
  | inl e ↦ rw e (source_deps-IsBelow n task_of seen sources b)
  | inr e ↦ rw e ((refl, b s), source_deps-IsBelow n task_of (task_of s ∷ seen) sources b)
]

add_libs-Numbered :
    (n next : ℕ) (task_of lib_task : Text → ℕ) (targets : List Target)
    → n ≤ next
    → ((s : Text) → task_of s < n)
    → Numbered next (add_libs task_of next lib_task targets).tasks
unfolding add_libs archive_spec
add_libs-Numbered n next task_of lib_task [] le b = tt
add_libs-Numbered n next task_of lib_task (t ∷ targets) le b = elim (Bool-cases t.is_lib) [
  | inl e ↦ rw e (
    refl,
    All-IsBelow n next (source_deps task_of [] t.sources) le
        (source_deps-IsBelow n task_of [] t.sources b),
    add_libs-Numbered n (suc next) task_of (put_key lib_task t.name next) targets (omega arith) b,
  )
  | inr e ↦ rw e (add_libs-Numbered n next task_of lib_task targets le b)
]

lib_task-lt :
    (next n : ℕ) (task_of lib_task : Text → ℕ) (targets : List Target)
    → ((l : Text) → lib_task l < next)
    → next + length (add_libs task_of next lib_task targets).tasks ≤ n
    → (l : Text) → (add_libs task_of next lib_task targets).lib_task l < n
unfolding add_libs
lib_task-lt next n task_of lib_task [] b le l = omega (arith, b l)
lib_task-lt next n task_of lib_task (t ∷ targets) b le l = elim (Bool-cases t.is_lib) [
  | inl e ↦
      let le' = rw e at le in
      rw e (
        lib_task-lt (suc next) n task_of (put_key lib_task t.name next) targets
          (λ k. ground (arith, b k)) (omega (arith, le')) l)
  | inr e ↦ let le' = rw e at le in rw e (lib_task-lt next n task_of lib_task targets b le' l)
]

lib_deps-IsBelow :
    (n : ℕ) (lib_task : Text → ℕ) (libs : List Text)
    → ((l : Text) → lib_task l < n)
    → All (IsBelow n) (map (λ l. pos (lib_task l)) libs)
lib_deps-IsBelow n lib_task [] b = tt
lib_deps-IsBelow n lib_task (l ∷ libs) b = ((refl, b l), lib_deps-IsBelow n lib_task libs b)

add_bins-Numbered :
    (n next : ℕ) (m : Manifest) (task_of lib_task : Text → ℕ) (targets : List Target)
    → n ≤ next
    → ((s : Text) → task_of s < n)
    → ((l : Text) → lib_task l < n)
    → Numbered next (add_bins m task_of lib_task next targets)
unfolding add_bins link_spec
add_bins-Numbered n next m task_of lib_task [] le b c = tt
add_bins-Numbered n next m task_of lib_task (t ∷ targets) le b c = elim (Bool-cases t.is_lib) [
  | inl e ↦ rw e (add_bins-Numbered n next m task_of lib_task targets le b c)
  | inr e ↦ rw e (
    refl,
    All-IsBelow n next (source_deps task_of [] t.sources ++ map (λ l. pos (lib_task l)) t.libs) le (
        All-append (IsBelow n) (source_deps task_of [] t.sources)
          (map (λ l. pos (lib_task l)) t.libs) (source_deps-IsBelow n task_of [] t.sources b)
          (lib_deps-IsBelow n lib_task t.libs c)),
    add_bins-Numbered n (suc next) m task_of lib_task targets (omega arith) b c,
  )
]

good_deps : (n k : ℕ) (ds : List ℤ) → k ≤ n → All (IsBelow k) ds → All (IsGoodDep n k) ds
good_deps n k [] le h = tt
good_deps n k (d ∷ ds) le h =
    ((h.0.0, omega (arith, h.0.1), λ e. omega (arith, h.0.1, e)), good_deps n k ds le h.1)

Numbered-IsWellFormedFrom :
    (n k : ℕ) (specs : List TaskSpec)
    → k + length specs ≤ n
    → Numbered k specs
    → IsWellFormedFrom n k (map graph_task specs)
Numbered-IsWellFormedFrom n k [] le h = tt
Numbered-IsWellFormedFrom n k (ts ∷ specs) le h = (
  h.0,
  good_deps n k ts.deps (omega arith) h.1,
  Numbered-IsWellFormedFrom n (suc k) specs (omega arith) h.2,
)

below_parts : (k : ℕ) (ds : List ℤ) → All (IsBelow k) ds → All (λ d. d < k) (map pos_part ds)
below_parts k [] h = tt
below_parts k (d ∷ ds) h = (h.0.1, below_parts k ds h.1)

Numbered-falls :
    (k i : ℕ) (specs : List TaskSpec)
    → Numbered k specs
    → All (λ d. d < i) (deps_from k (map graph_task specs) i)
Numbered-falls k i [] h = tt
Numbered-falls k i (ts ∷ specs) h = elim (Bool-cases (k == i)) [
  | inl e ↦ rw e (
      subst (λ n. All (λ d. d < n) (map pos_part ts.deps)) (ground (arith, e))
        (below_parts k ts.deps h.1))
  | inr e ↦ rw e (Numbered-falls (suc k) i specs h.2)
]

build_tasks-Numbered :
    (m : Manifest) (u : TransUnit) (units : List TransUnit) → Numbered 0 (build_tasks m (u ∷ units))
unfolding build_tasks
build_tasks-Numbered m u units =
    let all = u ∷ units in
    let compiled = add_units 0 (λ k. none) all in
    let task_of = source_task all compiled.unit_task in
    let first = length compiled.tasks in
    let libs = add_libs task_of first (λ l. 0) m.targets in
    let some_task : 0 < first =
      subst (λ c. 0 < length c.tasks) (sym (add_units-new 0 (λ k. none) u units refl))
        (omega arith) in
    let task_of-lt : (s : Text) → task_of s < first = λ s.
      source_task-lt first all compiled.unit_task s some_task
        (unit_task-bound 0 first (λ k. none) all (λ k i h. absurd (cc)) (omega arith)) in
    Numbered-append 0 first compiled.tasks
      (libs.tasks ++ add_bins m task_of libs.lib_task (first + length libs.tasks) m.targets)
      (omega arith) (add_units-Numbered 0 (λ k. none) all)
      (Numbered-append first (first + length libs.tasks) libs.tasks
        (add_bins m task_of libs.lib_task (first + length libs.tasks) m.targets) refl
        (add_libs-Numbered first first task_of (λ l. 0) m.targets (omega arith) task_of-lt)
        (add_bins-Numbered (first + length libs.tasks) (first + length libs.tasks) m task_of
          libs.lib_task m.targets (omega arith) (λ s. omega (arith, task_of-lt s))
          (lib_task-lt first (first + length libs.tasks) task_of (λ l. 0) m.targets (λ l. some_task)
            (omega arith))))

-- topo_order accepts the graph that the client builds, from any manifest and at least one unit.
pub build_tasks-topo_order :
    (m : Manifest) (u : TransUnit) (units : List TransUnit)
    → (order : List ℕ) × (topo_order (map graph_task (build_tasks m (u ∷ units))) ≡ ok order)
build_tasks-topo_order m u units =
    let specs = build_tasks m (u ∷ units) in
    let numbered = build_tasks-Numbered m u units in
    (topo_order_iff (map graph_task specs)).1 (
      Numbered-IsWellFormedFrom (length (map graph_task specs)) 0 specs
          (omega (arith, length-map graph_task specs)) numbered,
      (λ i. i, λ i. Numbered-falls 0 i specs numbered),
    )
