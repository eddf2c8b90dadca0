-- ===== src/Execute/Run/Begin.antt =====
-- The state in which a loaded program starts.
use sloader.Base.{
  ℕ, ◌*◌, ◌^◌, ◌<◌, ◌≤◌, ◌==◌, ◌≡◌, ◌∙◌, ap, refl, not, true, leb, List, [], ◌∷◌, length, All,
}
use sloader.Base.Words.{add64}
use sloader.Result.{ok, >>=-continue, check-continue}
use sloader.System.{System}
use sloader.Memory.{Mem}
use sloader.Binary.{ElfBinary}
use sloader.Loader.{DynLoader}
use sloader.Execute.Init.{Process}
use sloader.Execute.Init.Order.{KeepsArray, all_initialisers, call_all, init_binaries-order}
use sloader.Execute.Stack.{aux_types, aux_values, push_all}
use sloader.Execute.Stack.Push.{initial_stack, InitialStack, build_stack-InitialStack}
use sloader.Execute.Tls.{tls_block_size, place_all, init_tls}
use sloader.Execute.Run.{Host, Started, main_binary, execute}

-- What a loader needs to hold before Execute.
pub record Startable (sys : System) (host : Host) (l : DynLoader) : Type 0 where
  pub main : ElfBinary
  pub libraries : List ElfBinary
  pub binaries : l.binaries ≡ main ∷ libraries
  pub arrays : All (KeepsArray host.code) l.binaries
  pub at_random : (not (sys.getauxval 25 == 0)) ≡ true
  pub tls_fits : leb (tls_block_size 0 l.binaries) 4096 ≡ true

-- The words that the program must find on its stack.
unfoldable pub program_stack : System → Host → DynLoader → List ℕ
program_stack sys host l =
    initial_stack (aux_values sys aux_types) (host.c_strs l.envs) (host.c_strs l.args)

-- The process after the initialisers, and the thread-local blocks placed in its memory.
unfoldable pub initialised : Host → DynLoader → Mem → Process
initialised host l m =
    call_all host.code (all_initialisers m l.binaries) (record { mem = m; calls = [] })

-- What it does find: the entry point, the initialisers called, the thread-local blocks in place, and
-- the stack, with the rest of the memory as the initialisers and the blocks left it.
pub record RunsFrom (sys : System) (host : Host) (block : ℕ) (l : DynLoader) (offset : ℕ) (m : Mem)
    (main : ElfBinary) (s : Started) : Type 0 where
  pub at_entry : s.entry ≡ add64 main.ehdr.e_entry main.base_addr
  pub called : s.calls ≡ (initialised host l m).calls
  pub tls_offset :
      s.sloader_tls_offset ≡ (place_all block l.binaries offset (initialised host l m).mem).0
  pub stack :
      InitialStack
        (program_stack sys host l)
        host.rsp
        (place_all block l.binaries offset (initialised host l m).mem).1
        (s.rsp, s.mem)

init_tls-placed :
    (block : ℕ) (bins : List ElfBinary) (offset : ℕ) (m : Mem)
    → leb (tls_block_size 0 bins) 4096 ≡ true
    → init_tls block bins offset m ≡ ok (place_all block bins offset m)
unfolding init_tls
init_tls-placed block bins offset m h = check-continue h _

-- If AT_RANDOM is there, the TLS sizes pass the check, the init arrays are whole and kept by the
-- initialisers, and the stack has room for its words, Execute reaches the jump: to the entry
-- point of the first binary, with the initialisers called in order, the thread-local blocks
-- placed after them, and the initial stack of the ABI; no other byte of the memory is changed.
pub execute-RunsFrom :
    (sys : System) (host : Host) (block : ℕ) (l : DynLoader) (offset : ℕ) (m : Mem)
    → (ready : Startable sys host l) → 8 * length (program_stack sys host l) ≤ host.rsp
    → All (λ (v : ℕ). v < 2 ^ 64) (program_stack sys host l)
    → (s : Started) × (execute sys host block l offset m ≡ ok s)
      × RunsFrom sys host block l offset m ready.main s
unfolding execute main_binary program_stack initialised
execute-RunsFrom sys host block l offset m ready room small =
    let p : Process =
      call_all host.code (all_initialisers m l.binaries) (record { mem = m; calls = [] }) in
    let placed = place_all block l.binaries offset p.mem in
    let (words, built, stack) =
      build_stack-InitialStack (aux_values sys aux_types) (host.c_strs l.envs) (host.c_strs l.args)
        host.rsp placed.1 room small in
    let called =
      init_binaries-order host.code l.binaries (record { mem = m; calls = [] }) ready.arrays in
    let main_is : main_binary l.binaries ≡ ok ready.main = ap main_binary ready.binaries in
    (
      record {
        entry = add64 ready.main.ehdr.e_entry ready.main.base_addr;
        rsp = (push_all words host.rsp placed.1).0;
        mem = (push_all words host.rsp placed.1).1;
        calls = p.calls;
        sloader_tls_offset = placed.0;
      },
      >>=-continue called _
          ∙ (check-continue ready.at_random _
              ∙ (>>=-continue built _
                  ∙ (>>=-continue (init_tls-placed block l.binaries offset p.mem ready.tls_fits) _
                      ∙ >>=-continue main_is _))),
      record { at_entry = refl; called = refl; tls_offset = refl; stack = stack },
    )
