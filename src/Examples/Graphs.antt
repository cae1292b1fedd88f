-- ===== src/Examples/Graphs.antt =====
-- graph.cpp on a build of two compilations, an archive of both, and a program, and dcc.cpp on a small
-- manifest.
use distcompile.Prelude.{
  true, false, Text, codes, ℕ, zero, suc, map, ◌≡◌, refl, ◌<◌, ◌↔◌, ◌⊎◌, List, [], ◌∷◌, ok, err,
  arith, get_elem?, some,
}
use distcompile.Prelude.Int.{ℤ, pos, pos_part, ◌≤ℤ◌}
use distcompile.Prelude.Counts.{count}
use distcompile.Graph.{
  GraphTask, dependency_cycle, topo_order, scan_tasks, scan_deps, sources, relax, kahn,
}
use distcompile.Graph.Scan.{IsWellFormed}
use distcompile.Graph.Topo.{IsTopological, topo_order-IsTopological}
use distcompile.Graph.Acyclic.{IsAcyclic, IsInvalid, topo_order_iff, topo_order-err}
use distcompile.Graph.Rank.{upward_rank}
use distcompile.Graph.Rank.Chain.{Chain, upward_rank-IsCriticalPath}
use distcompile.Graph.Partition.{partition}
use distcompile.Graph.Partition.Bounds.{partition-lt}
use distcompile.Graph.Partition.Locality.{ClaimedFirst, partition-together}
use distcompile.Manifest.{Manifest}
use distcompile.Coordinator.Submit.{graph_task}
use distcompile.Client.{TransUnit, new_unit, build_tasks}
use distcompile.Client.Spec.{build_tasks-topo_order}

abbrev object : ℕ → ℕ → GraphTask
object i cost = record { id = pos i; kind = 0; cost = pos cost; deps = [] }

abbrev library : GraphTask
library = record { id = pos 2; kind = 1; cost = pos 5; deps = pos 0 ∷ pos 1 ∷ [] }

abbrev program : GraphTask
program = record { id = pos 3; kind = 2; cost = pos 20; deps = pos 2 ∷ [] }

abbrev tasks : List GraphTask
tasks = object 0 40 ∷ object 1 7 ∷ library ∷ program ∷ []

abbrev ring : List GraphTask
ring =
    record { id = pos 0; kind = 2; cost = pos 1; deps = pos 1 ∷ [] }
    ∷ record { id = pos 1; kind = 2; cost = pos 1; deps = pos 0 ∷ [] }
    ∷ []

tasks_order : topo_order tasks ≡ ok (0 ∷ 1 ∷ 2 ∷ 3 ∷ [])
unfolding topo_order scan_tasks scan_deps sources relax kahn
tasks_order = refl

ring_order : topo_order ring ≡ err dependency_cycle
unfolding topo_order scan_tasks scan_deps sources relax kahn
ring_order = refl

topo_order-IsTopological_example : IsTopological tasks (0 ∷ 1 ∷ 2 ∷ 3 ∷ [])
topo_order-IsTopological_example = topo_order-IsTopological tasks (0 ∷ 1 ∷ 2 ∷ 3 ∷ []) tasks_order

topo_order_iff_example :
    ((order : List ℕ) × (topo_order tasks ≡ ok order)) ↔ (IsWellFormed tasks × IsAcyclic tasks)
topo_order_iff_example = topo_order_iff tasks

topo_order-err_example :
    (IsWellFormed ring × ¬ IsAcyclic ring × (dependency_cycle ≡ dependency_cycle))
    ⊎ (¬ IsWellFormed ring × IsInvalid dependency_cycle)
topo_order-err_example = topo_order-err ring dependency_cycle ring_order

upward_rank-IsCriticalPath_example :
    Chain tasks 0 (upward_rank tasks 0) × ((c : ℤ) → Chain tasks 0 c → c ≤ℤ upward_rank tasks 0)
upward_rank-IsCriticalPath_example =
    upward_rank-IsCriticalPath tasks (0 ∷ 1 ∷ 2 ∷ 3 ∷ []) 0 tasks_order (omega arith)

partition-lt_example : partition tasks 3 1 < 3
partition-lt_example = partition-lt tasks 3 1 (omega arith)

first_claim :
    (j : ℕ) (x : GraphTask)
    → j < 2
    → get_elem? tasks j ≡ some x
    → x.kind ≡ 1
    → count 1 (map pos_part x.deps) ≡ 0
first_claim zero x below at kind = cc
first_claim (suc zero) x below at kind = cc
first_claim (suc (suc j)) x below at kind = absurd (omega arith)

object_claimed : ClaimedFirst tasks 2 1
object_claimed = record {
  lib = library;
  object = object 1 7;
  at_i = refl;
  at_d = refl;
  is_archive = refl;
  is_compile = refl;
  needs = omega arith;
  first = first_claim;
}

partition-together_example : partition tasks 3 1 ≡ partition tasks 3 2
partition-together_example = partition-together tasks 3 2 1 (omega arith) object_claimed

abbrev manifest : Manifest
manifest = record {
  cc = codes "gcc";
  cxx = codes "g++";
  cflags = [];
  ldflags = [];
  targets =
      record { is_lib = true; name = codes "m"; sources = codes "a.c" ∷ []; libs = [] }
      ∷ record {
        is_lib = false;
        name = codes "x";
        sources = codes "b.c" ∷ [];
        libs = codes "m" ∷ [];
      }
      ∷ [];
}

abbrev keyed : Text → Text → TransUnit
keyed src key = record (new_unit manifest (codes "gcc 13") src) { key = key; digest = key }

build_tasks-topo_order_example :
    (order : List ℕ) × (topo_order (
        map graph_task (
          build_tasks manifest
            (keyed (codes "a.c") (codes "k") ∷ keyed (codes "b.c") (codes "l") ∷ [])))
      ≡ ok order)
build_tasks-topo_order_example =
    build_tasks-topo_order manifest (keyed (codes "a.c") (codes "k"))
      (keyed (codes "b.c") (codes "l") ∷ [])
