-- ===== src/Execute/Init.antt =====
-- DynLoader::Execute, first part: the initialisers of the loaded binaries.
pub mod Order
use mathlib.Core.List.{reverse}
use sloader.Base.{ℕ, zero, suc, ◌+◌, ◌/◌, ◌%◌, List, [], ◌∷◌, ◌++◌, ◌==◌, if◌then◌else◌}
use sloader.Base.Words.{add64}
use sloader.Result.{Result, ok, check, ◌>>=◌, ◌>>◌}
use sloader.Memory.{Mem, read64}
use sloader.Binary.{ElfBinary}

-- The memory, and the addresses called so far. What a call does to the memory is a parameter.
pub record Process : Type 0 where
  pub mem : Mem
  pub calls : List ℕ

unfoldable pub call : (ℕ → Mem → Mem) → ℕ → Process → Process
call code addr p = record { mem = code addr p.mem; calls = p.calls ++ (addr ∷ []) }

-- The loop over an init array of `n` entries at `a`; a null entry ends it.
unfoldable pub call_array : (ℕ → Mem → Mem) → ℕ → ℕ → Process → Process
unfolding call
call_array code zero a p = p
call_array code (suc n) a p =
    let fun : ℕ = read64 p.mem a in
    let rest = call_array code n (a + 8) (call code fun p) in if fun == 0 then p else rest

-- DT_INIT
unfoldable pub call_init : (ℕ → Mem → Mem) → ElfBinary → Process → Process
unfolding call
call_init code b p = if b.init == 0 then p else call code (add64 b.init b.base_addr) p

-- The body of the loop over the binaries.
unfoldable pub init_binary : (ℕ → Mem → Mem) → ElfBinary → Process → Result Process
unfolding call_init call_array
init_binary code b p =
    let p' = call_init code b p in
    if b.init_arraysz == 0 then ok p' else (do
      check (b.init_arraysz % 8 == 0)
      ok (call_array code (b.init_arraysz / 8) (add64 b.init_array b.base_addr) p'))

unfoldable pub init_each : (ℕ → Mem → Mem) → List ElfBinary → Process → Result Process
unfolding init_binary
init_each code [] p = ok p
init_each code (b ∷ rest) p = do p' ← init_binary code b p; init_each code rest p'

-- `for (int i = binaries_.size() - 1; 0 <= i; i--)`
unfoldable pub init_binaries : (ℕ → Mem → Mem) → List ElfBinary → Process → Result Process
unfolding init_each
init_binaries code bins p = init_each code (reverse bins) p
