-- ===== src/Binary/Segments.antt =====
-- Where ELFBinary::Load puts the segments, and what they then hold: shared notions.
pub mod Pages
pub mod Place
pub mod Image
use sloader.Base.{ℕ, ◌+◌, ◌*◌, ◌/◌, ◌≤◌, ◌<◌, ◌^◌, List, [], ◌∷◌, ◌==◌, if◌then◌else◌}
use sloader.Base.Words.{page_down, page_up}
use sloader.System.{Region}
use sloader.Elf.{Elf64Phdr}
use sloader.Elf.Tags.{pt_load}

-- The PT_LOAD headers.
unfoldable pub loads : List Elf64Phdr → List Elf64Phdr
loads [] = []
loads (ph ∷ rest) = if ph.p_type == pt_load then ph ∷ loads rest else loads rest

-- The segments, moved to `base`, do not wrap, and each starts at or above the last page of the one
-- before, the first at or above `lo`.
abbrev pub Ascending : ℕ → ℕ → List Elf64Phdr → Type 0
Ascending base lo [] = Unit
Ascending base lo (ph ∷ rest) =
    (lo ≤ page_down (ph.p_vaddr + base))
    × (ph.p_vaddr + ph.p_memsz + base + 0xfff < 2 ^ 64)
    × (ph.p_filesz ≤ ph.p_memsz)
    × Ascending base ((ph.p_vaddr + ph.p_memsz + base + 0xfff) / 4096 * 4096) rest

-- The mappings follow one another without overlap between `lo` and `hi`.
abbrev pub InOrder : ℕ → ℕ → List Region → Type 0
InOrder lo hi [] = lo ≤ hi
InOrder lo hi (r ∷ rest) = (lo ≤ r.start) × InOrder (r.start + r.size) hi rest
