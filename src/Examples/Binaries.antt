-- ===== src/Examples/Binaries.antt =====
-- Examples for the loading of one binary.
use sloader.Base.{ℕ, ◌+◌, ◌%◌, ◌^◌, ◌<◌, ◌≡◌, refl, true, List, ◌++◌, codes, arith, subst, sym}
use sloader.Result.{ok}
use sloader.System.{Machine, Region}
use sloader.Memory.{read16, read32, read64}
use sloader.Elf.{read_ehdr, read_phdr, read_dyn}
use sloader.Binary.{ElfBinary, members, read_phdrs}
use sloader.Binary.Load.{load}
use sloader.Binary.Segments.{loads, InOrder}
use sloader.Binary.Segments.Place.{FitsAt, load-InOrder}
use sloader.Binary.Segments.Image.{AllHold, load-AllHold}
use sloader.Examples.{one_object, fresh, object_bytes, value_or, is_ok, value_or-eq}

-- The binary after its constructor.
abbrev object : ElfBinary
unfolding members read_phdrs
object = read_phdrs 2 0 (members one_object (codes "/bin/a") object_bytes)

abbrev base : ℕ
base = 0x1400000

abbrev loaded : ElfBinary × ℕ × Machine
unfolding load
loaded = value_or (object, base, fresh) (load one_object object base fresh)

loads-ok : is_ok (load one_object object base fresh) ≡ true
unfolding load object read_phdr read32 read_ehdr read64 read16 read_dyn
loads-ok = refl

object-FitsAt : FitsAt base object
unfolding object loads read_phdr read32 read_ehdr read64 read16
object-FitsAt = record { is_dyn = refl; ascending = (omega arith, omega arith, omega arith, tt) }

ends_at : loaded.0.end_addr ≡ 0x1401000
unfolding loaded load object read_phdr read32 read_ehdr read64 read16 read_dyn
ends_at = refl

run : load one_object object base fresh ≡ ok loaded
unfolding loaded
run = value_or-eq (object, base, fresh) (load one_object object base fresh) loads-ok

load-InOrder_example :
    (new : List Region) × (loaded.2.maps ≡ fresh.maps ++ new)
    × InOrder base loaded.1 new
    × (loaded.0.base_addr ≡ base)
    × (loaded.1 % 0x400000 ≡ 0)
load-InOrder_example =
    load-InOrder one_object object loaded.0 base loaded.1 fresh loaded.2 run object-FitsAt
      (subst (λ (e : ℕ). e + 0x3fffff < 2 ^ 64) (sym ends_at) (omega arith))

load-AllHold_example : AllHold loaded.2.mem object.file base (loads object.file_phdrs)
load-AllHold_example =
    load-AllHold one_object object loaded.0 base loaded.1 fresh loaded.2 run object-FitsAt
