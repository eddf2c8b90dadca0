-- ===== src/Execute/Run/Whole.antt =====
-- DynLoader::Run from the empty loader to the jump: what has been done when the program starts.
use sloader.Base.{
  ℕ, ◌==◌, ◌≤◌, ◌≡◌, ◌∙◌, sym, ap, subst, refl, not, true, leb, leb→le, List, [], ◌∷◌, ◌++◌, Str,
  if◌then◌else◌,
}
use sloader.Base.Words.{add64}
use sloader.Result.{ok, ok-injective, >>=-eq-ok, check-eq-ok}
use sloader.Result.Ensures.{Ensures, bind, map-Ensures, outcome, when_ok}
use sloader.System.{System, File, Machine}
use sloader.Memory.{Mem}
use sloader.Elf.{ehdr_type_dyn, read_ehdr}
use sloader.Binary.{ElfBinary, filename}
use sloader.Loader.{DynLoader, requests, load_binary, load_depending_libs}
use sloader.Loader.Queue.Closed.{AllLoaded, Added, load_binary-Added, load_depending_libs-AllLoaded}
use sloader.Loader.Queue.Paths.{FromFile, load_binary-FromFile}
use sloader.Loader.Queue.Extends.{load_loop-Extends}
use sloader.Loader.Queue.History.{History, load_depending_libs-History}
use sloader.Loader.Relocate.{Libc, relocate}
use sloader.Loader.Relocate.Once.{Marked, relocate-Relocated}
use sloader.Execute.Init.{init_binaries}
use sloader.Execute.Stack.{aux_types, aux_values, build_stack}
use sloader.Execute.Tls.{tls_block_size, init_tls}
use sloader.Execute.Run.{Host, Started, main_binary, execute, run}

module _ (sys : System) where
  -- The first binary is that of the main path's file.
  pub record MainFirst (main_path : Str) (base : ℕ) (bins : List ElfBinary) : Type 0 where
    pub main : ElfBinary
    pub libraries : List ElfBinary
    pub split : bins ≡ main ∷ libraries
    pub from_file : FromFile sys main_path base main

  load_depending_libs-MainFirst :
      (fuel : ℕ) (path : Str) (l : DynLoader) (k : Machine)
      → l.binaries ≡ []
      → Ensures
          (λ (p : DynLoader × Machine). MainFirst path l.next_base_addr p.0.binaries)
          (load_depending_libs sys fuel path l k)
  unfolding load_depending_libs
  load_depending_libs-MainFirst fuel path l k none_yet =
      bind (load_binary-Main path l k) λ p (added, from).
        map-Ensures
          (λ q e. record {
            main = p.0;
            libraries = e.added;
            split =
                e.binaries
                ∙ ap (λ (bs : List ElfBinary). bs ++ e.added)
                    (added.binaries ∙ ap (λ (bs : List ElfBinary). bs ++ (p.0 ∷ [])) none_yet);
            from_file = from;
          })
          (load_loop-Extends sys fuel (requests p.0)
            (record p.1 { loaded = filename path ∷ p.1.loaded }) p.2)
    where
      load_binary-Main :
          (path : Str) (l : DynLoader) (k : Machine)
          → Ensures
              (λ (p : ElfBinary × DynLoader × Machine).
                Added l p.0 p.1 × FromFile sys path l.next_base_addr p.0)
              (load_binary sys path l k)
      load_binary-Main path l k = when_ok (load_binary sys path l k) (λ p run. (
        load_binary-Added sys path l p.1 k p.2 p.0 run,
        outcome (λ (q : ElfBinary × DynLoader × Machine). FromFile sys path l.next_base_addr q.0) _
            p (load_binary-FromFile sys path l k) run,
      ))

-- Where the file says that its program begins, if it stands at `base` in case it can be moved.
unfoldable pub entry_point : File → ℕ → ℕ
entry_point file base =
    let ehdr = read_ehdr file.bytes 0 in
    add64 ehdr.e_entry (if ehdr.e_type == ehdr_type_dyn then base else 0)

main_entry :
    (sys : System) (path : Str) (base : ℕ) (b : ElfBinary) (f : FromFile sys path base b)
    → add64 b.ehdr.e_entry b.base_addr ≡ entry_point f.file base
unfolding entry_point
main_entry sys path base b f = rw (f.header, f.at_base) refl

-- What Execute has checked, and where it starts.
record Entered (sys : System) (bins : List ElfBinary) (s : Started) : Type 0 where
  main : ElfBinary
  main_first : main_binary bins ≡ ok main
  at_entry : s.entry ≡ add64 main.ehdr.e_entry main.base_addr
  at_random : (not (sys.getauxval 25 == 0)) ≡ true
  tls_fits : tls_block_size 0 bins ≤ 4096

execute-Entered :
    (sys : System) (host : Host) (block : ℕ) (l : DynLoader) (offset : ℕ) (m : Mem) (s : Started)
    → execute sys host block l offset m ≡ ok s
    → Entered sys l.binaries s
unfolding execute init_tls
execute-Entered sys host block l offset m s h =
    let (p, called, h1) =
      >>=-eq-ok (init_binaries host.code l.binaries (record { mem = m; calls = [] })) _ h in
    let (random, h2) = check-eq-ok (not (sys.getauxval 25 == 0)) _ h1 in
    let (stack, built, h3) =
      >>=-eq-ok (build_stack (aux_values sys aux_types) (host.c_strs l.envs) (host.c_strs l.args)) _
        h2 in
    let ((offset1, m1), placed, h4) = >>=-eq-ok (init_tls block l.binaries offset p.mem) _ h3 in
    let (fits, placed1) = check-eq-ok (leb (tls_block_size 0 l.binaries) 4096) _ placed in
    let (main, first, e) = >>=-eq-ok (main_binary l.binaries) _ h4 in
    subst (Entered sys l.binaries) (ok-injective e) (record {
      main = main;
      main_first = first;
      at_entry = refl;
      at_random = random;
      tls_fits = leb→le (tls_block_size 0 l.binaries) 4096 fits;
    })

Entered-entry :
    (sys : System) (path : Str) (base : ℕ) (bins : List ElfBinary) (s : Started)
    → Entered sys bins s
    → (f : MainFirst sys path base bins) → s.entry ≡ entry_point f.from_file.file base
unfolding main_binary
Entered-entry sys path base bins s e f =
    let same : e.main ≡ f.main = ok-injective (sym e.main_first ∙ ap main_binary f.split) in
    e.at_entry
    ∙ (ap (λ (b : ElfBinary). add64 b.ehdr.e_entry b.base_addr) same
        ∙ main_entry sys path base f.main f.from_file)

-- What a run that has reached the jump has done: `s` is what Execute returns for the loader and the
-- memory that Relocate returns for those that LoadDependingLibs returns.
pub record Ready (sys : System) (libc : Libc) (host : Host) (fuel : ℕ) (l : DynLoader) (offset : ℕ)
    (k : Machine) (s : Started) : Type 0 where
  pub l1 : DynLoader
  pub k1 : Machine
  pub loading : load_depending_libs sys fuel l.main_path l k ≡ ok (l1, k1)
  pub l2 : DynLoader
  pub linked : Mem
  pub relocating : relocate libc l1 k1.mem ≡ ok (l2, linked)
  pub executing : execute sys host libc.space.block l2 offset linked ≡ ok s
  pub history : History sys l.main_path l2.loaded l2.binaries
  pub all_loaded : AllLoaded l2
  pub all_marked : Marked l2.relocated l2.binaries
  pub first : MainFirst sys l.main_path l.next_base_addr l2.binaries
  pub at_entry : s.entry ≡ entry_point first.from_file.file l.next_base_addr
  pub at_random : (not (sys.getauxval 25 == 0)) ≡ true
  pub tls_fits : tls_block_size 0 l2.binaries ≤ 4096

-- If Run reaches the jump, for a loader that is empty, then it has loaded, relocated and executed, each
-- on what the one before returned; the binaries were loaded by the steps of a history, every name that
-- they need has been entered, and the path of each is marked as relocated; the first binary is that of
-- the main path's file, and the program is entered where the header of that file says, moved by the
-- first base address if the file is position-independent; the kernel gave AT_RANDOM, and the
-- thread-local blocks passed the check of their size.
pub run-Ready :
    (sys : System) (libc : Libc) (host : Host) (fuel : ℕ) (l : DynLoader) (offset : ℕ) (k : Machine)
    (s : Started)
    → run sys libc host fuel l offset k ≡ ok s
    → l.binaries ≡ []
    → l.loaded ≡ []
    → Ready sys libc host fuel l offset k s
unfolding run
run-Ready sys libc host fuel l offset k s h no_binaries no_names =
    let ((l1, k1), loading, h1) = >>=-eq-ok (load_depending_libs sys fuel l.main_path l k) _ h in
    let ((l2, m), relocating, h2) = >>=-eq-ok (relocate libc l1 k1.mem) _ h1 in
    let all =
      load_depending_libs-AllLoaded sys fuel l.main_path l l1 k k1 loading (rw no_binaries tt) in
    let past =
      load_depending_libs-History sys fuel l.main_path l l1 k k1 loading no_binaries no_names in
    let r = relocate-Relocated libc l1 l2 k1.mem m relocating in
    let main : MainFirst sys l.main_path l.next_base_addr l1.binaries =
      outcome (λ (p : DynLoader × Machine). MainFirst sys l.main_path l.next_base_addr p.0.binaries)
        _ (l1, k1) (load_depending_libs-MainFirst sys fuel l.main_path l k no_binaries) loading in
    let main2 : MainFirst sys l.main_path l.next_base_addr l2.binaries =
      subst (MainFirst sys l.main_path l.next_base_addr) (sym r.binaries) main in
    let e = execute-Entered sys host libc.space.block l2 offset m s h2 in
    record {
      l1 = l1;
      k1 = k1;
      loading = loading;
      l2 = l2;
      linked = m;
      relocating = relocating;
      executing = h2;
      history = rw (r.loaded, r.binaries) past;
      all_loaded = rw (r.loaded, r.binaries) all;
      all_marked = r.marked;
      first = main2;
      at_entry = Entered-entry sys l.main_path l.next_base_addr l2.binaries s e main2;
      at_random = e.at_random;
      tls_fits = e.tls_fits;
    }
