-- ===== src/Runtime/Tests.antt =====
-- Instances of the theorems on the globals, before the runtime has been built.
use parallax_runtime.Prelude.{ℕ, ◌+◌, ◌≡◌, refl, true, false, none, some, [], arith, find}
use mathlib.Core.Path.{subst}
use parallax_runtime.HeapPool.Interface.{PoolOps}
use parallax_runtime.Arena.{empty, contains, allocate, deallocate}
use parallax_runtime.Backend.{fresh}
use parallax_runtime.Backend.Tests.{two_cards}
use parallax_runtime.MemoryManager.Tests.{willing}
use parallax_runtime.Arena.Setup.Tests.{mapping, mapping-IsLegal, one_block}
use parallax_runtime.Arena.Import.Tests.{importing, importing-IsLegal}
use parallax_runtime.Runtime.{
  Globals, World, SystemHeap, ensure_initialized, import_answers, arena_answers, build_arena,
  get_global_arena, get_global_backend, umalloc, arena_contains, arena_alloc, arena_free,
}
use parallax_runtime.Runtime.Laws.{
  IsConsistent, Provided, Paid, build_arena-Paid, get_global_arena-Provided,
}
use parallax_runtime.Runtime.Returns.{IsNew, Routed, umalloc-ufree}

abbrev world : World
world = record {
  for_backend = two_cards;
  new_pool = 51;
  force_legacy = true;
  for_import = importing;
  for_arena = mapping;
}

abbrev unused : Globals
unused = record {
  backend = none;
  memory_manager = none;
  arena = none;
  initialized = false;
  initializing = false;
  arena_initializing = false;
}

unused-IsConsistent : IsConsistent unused
unused-IsConsistent = record {
  quiet = refl;
  arena_quiet = refl;
  ready = λ e. absurd (ground arith);
  unready = λ e. (refl, refl, refl);
}

get_global_arena-Provided_example : Provided (get_global_arena world unused)
get_global_arena-Provided_example = get_global_arena-Provided world unused unused-IsConsistent

abbrev ready : Globals
ready = record unused {
  backend = some (record fresh { device_handle = 42 });
  memory_manager = some (record { command_pool_handle = 51; buffers = [] });
  arena = some empty;
  initialized = true;
}

ready-IsConsistent : IsConsistent ready
ready-IsConsistent = record {
  quiet = refl;
  arena_quiet = refl;
  ready = λ e. ((_, refl), (_, refl));
  unready = λ e. absurd (ground arith);
}

build_arena-Paid_example : Paid (build_arena world fresh)
unfolding import_answers arena_answers
build_arena-Paid_example =
    build_arena-Paid world fresh
      (record {
        buffer_handle = importing-IsLegal.buffer_handle;
        memory_handle = importing-IsLegal.memory_handle;
      })
      (record {
        buffer_handle = mapping-IsLegal.buffer_handle;
        memory_handle = mapping-IsLegal.memory_handle;
        staging_handle = mapping-IsLegal.staging_handle;
        staging_memory_handle = mapping-IsLegal.staging_memory_handle;
        mapped_pointer = mapping-IsLegal.mapped_pointer;
      })

-- A system heap that hands out addresses from 7000 on.
abbrev plain_heap : SystemHeap ℕ
plain_heap = record { malloc = λ l n. (7000 + l, l + n); free = λ l p. l }

ready-IsNew : (p : ℕ) → IsNew ready p
unfolding find
ready-IsNew p mm e =
    subst (λ o. elim o as (λ x. Type 0) [ none ↦ Unit | some x ↦ find p x.buffers ≡ none ]) e refl

umalloc-ufree_example :
    Routed plain_heap willing 0 64 true ready (umalloc plain_heap world willing ready 0 64)
unfolding ensure_initialized
umalloc-ufree_example =
    umalloc-ufree plain_heap world willing ready 0 64 ready-IsConsistent
      (ready-IsNew (umalloc plain_heap world willing ready 0 64).0)

-- The runtime with an arena of one block.
abbrev served : Globals
served = record ready { arena = some one_block }

holds_block : (arena_contains world served 65537).0 ≡ true
unfolding arena_contains get_global_arena contains
holds_block = refl

abbrev no_pool : PoolOps (Unit {0})
no_pool = record {
  alloc = λ s n a. (0, s);
  free = λ s p. s;
  realloc = λ s p n. (0, s);
  usable_size = λ s p. 0;
  contains = λ s p. false;
}

-- An alignment of 0 stands for 16.
allocates_block :
    (arena_alloc no_pool world served tt 100 0).0 ≡ (allocate no_pool tt one_block 100 16).0
unfolding arena_alloc get_global_arena
allocates_block = refl

frees_block :
    (arena_free no_pool world served tt 65536).0.arena
    ≡ some (deallocate no_pool tt one_block 65536).0
unfolding arena_free get_global_arena
frees_block = refl

keeps_backend : (get_global_backend world ready).0 ≡ ready.backend
unfolding get_global_backend ensure_initialized
keeps_backend = refl
