-- ===== src/Examples/Blocks.antt =====
-- Raw memory at concrete runs.
use kaya_basic.Base.{ℕ, ◌+◌, ◌%◌, ◌≡◌, refl, arith, false, Option, some, List, [], ◌∷◌, inr, ok}
use kaya_basic.Cpp.Int.{ℤ, pos}
use kaya_basic.Memory.{
  Block, Memory, within, mem_cpy, mem_cmp, var_ptr, heap_block, freed, memory_resize,
}
use kaya_basic.Memory.Blocks.{AllClear}
use kaya_basic.Memory.Laws.{mem_cpy-mem_cmp, memory_resize-bytes}

-- Two variables of 16 and 8 bytes.
abbrev variables : List Block
variables =
    record { start = 100; size = 16; heap = false }
    ∷ record { start = 200; size = 8; heap = false }
    ∷ []

abbrev memory : Memory
memory = record { blocks = variables; bytes = λ a. a % 256 }

abbrev differ : ℕ → ℕ → ℤ
differ x y = pos 1

variables_clear : AllClear variables
variables_clear = ground arith

with_block_clear : AllClear (heap_block 160 4 ∷ variables)
with_block_clear = ground arith

mem_cpy-mem_cmp_example :
    (m' : Memory) × (mem_cpy (pos 104) (pos 200) (pos 6) memory ≡ ok m')
    × (mem_cmp differ (pos 104) (pos 200) (pos 6) m' ≡ ok (pos 0))
    × (m'.bytes 110 ≡ 110)
mem_cpy-mem_cmp_example =
    mem_cpy-mem_cmp differ (pos 104) (pos 200) (pos 6) memory 110 (unfold within in refl)
      (unfold within in refl) refl (inr (omega arith))

abbrev malloc : ℕ → Memory → Option ℕ
malloc n m = some 1000

-- A block of 4 bytes between the variables, which grows to 8.
abbrev with_block : Memory
with_block = record { blocks = heap_block 160 4 ∷ variables; bytes = λ a. a % 256 }

abbrev realloc : ℕ → Block → Memory → Option ℕ
realloc n b m = some 1000

memory_resize-bytes_example :
    (m' : Memory) × (memory_resize malloc realloc (pos 160) (pos 8) with_block
      ≡ ok (var_ptr 1000, m'))
    × AllClear m'.blocks
    × (m'.bytes (1000 + 3) ≡ 163)
memory_resize-bytes_example =
    memory_resize-bytes malloc realloc (pos 160) (pos 8) with_block (heap_block 160 4) variables
      1000 3 with_block_clear (ground arith) (unfold freed in refl) refl (ground arith)
      (omega arith)
