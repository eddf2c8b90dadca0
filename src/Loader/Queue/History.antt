-- ===== src/Loader/Queue/History.antt =====
-- Which libraries LoadDependingLibs loads, and for which names: the run as a sequence of steps.
use sloader.Base.{
  ℕ, zero, suc, ◌≡◌, ◌∙◌, ap, refl, true, false, List, [], ◌∷◌, ◌++◌, map, append-nil, All,
  All-append, All-map, Str, elem, get_elem?, some, str_eq_refl, Bool-cases, inl, inr, arith,
}
use sloader.Result.{ok, >>=-eq-ok}
use sloader.Result.Ensures.{Ensures, returns, fails, bind, outcome, when_ok}
use sloader.System.{System, Machine}
use sloader.Binary.{ElfBinary, filename}
use sloader.Library.{find_library}
use sloader.Loader.{
  DynLoader, Request, requests, load_binary, is_skipped, load_request, load_loop,
  load_depending_libs,
}
use sloader.Loader.Queue.Closed.{Added}
use sloader.Loader.Queue.Paths.{Adds, load_binary-Adds}

-- One of the binaries.
abbrev pub Among : List ElfBinary → ElfBinary → Type 0
Among bins c = (i : ℕ) × (get_elem? bins i ≡ some c)

Among-append : (xs ys : List ElfBinary) (c : ElfBinary) → Among xs c → Among (xs ++ ys) c
Among-append [] ys c (i, e) = cc
Among-append (x ∷ xs) ys c (zero, e) = (zero, e)
Among-append (x ∷ xs) ys c (suc i, e) = let (j, f) = Among-append xs ys c (i, e) in (suc j, f)

Among-last : (xs : List ElfBinary) (b : ElfBinary) → Among (xs ++ (b ∷ [])) b
Among-last [] b = (zero, refl)
Among-last (x ∷ xs) b = let (j, f) = Among-last xs b in (suc j, f)

-- A request comes from one of the binaries, which needs the name and gave its paths.
pub record Asked (bins : List ElfBinary) (r : Request) : Type 0 where
  pub by : ElfBinary
  pub loaded_before : Among bins by
  pub needed : elem r.library_name by.neededs ≡ true
  pub runpath : r.runpath ≡ by.runpath
  pub rpath : r.rpath ≡ by.rpath

Asked-append : (xs ys : List ElfBinary) (r : Request) → Asked xs r → Asked (xs ++ ys) r
Asked-append xs ys r a = record {
  by = a.by;
  loaded_before = Among-append xs ys a.by a.loaded_before;
  needed = a.needed;
  runpath = a.runpath;
  rpath = a.rpath;
}

requests-Asked :
    (bins : List ElfBinary) (b : ElfBinary) (ns : List Str)
    → Among bins b
    → ((n : Str) → elem n ns ≡ true → elem n b.neededs ≡ true)
    → All
        (Asked bins)
        (map (λ n. record { library_name = n; runpath = b.runpath; rpath = b.rpath }) ns)
requests-Asked bins b [] at sub = tt
requests-Asked bins b (n ∷ ns) at sub = (
  record {
    by = b;
    loaded_before = at;
    needed = sub n (ground (arith, str_eq_refl n));
    runpath = refl;
    rpath = refl;
  },
  requests-Asked bins b ns at (λ n' h. sub n' (ground arith)),
)

module _ (sys : System) (root_path : Str) where
  -- The steps of a run: `loaded_` with the newest name first, and the binaries. A name enters once,
  -- when a loaded binary needs it; it is skipped, or the library found for it on the paths of that
  -- binary is loaded behind the others.
  pub data History : List Str → List ElfBinary → Type 0 where
    root : (b : ElfBinary) → b.path ≡ root_path → History (filename root_path ∷ []) (b ∷ [])
    skips :
        (names : List Str) (bins : List ElfBinary) (r : Request)
        → History names bins
        → elem r.library_name names ≡ false
        → Asked bins r
        → is_skipped r.library_name ≡ true
        → History (r.library_name ∷ names) bins
    loads :
        (names : List Str) (bins : List ElfBinary) (r : Request) (b : ElfBinary)
        → History names bins
        → elem r.library_name names ≡ false
        → Asked bins r
        → is_skipped r.library_name ≡ false
        → find_library sys r.library_name r.runpath r.rpath ≡ ok b.path
        → History (r.library_name ∷ names) (bins ++ (b ∷ []))

  -- The run so far, and the queue.
  record State (queue : List Request) (l : DynLoader) : Type 0 where
    past : History l.loaded l.binaries
    asked : All (Asked l.binaries) queue

  loaded_State :
      (r : Request) (queue : List Request) (l : DynLoader) (b : ElfBinary) (l' : DynLoader)
      → elem r.library_name l.loaded ≡ false
      → State (r ∷ queue) l
      → is_skipped r.library_name ≡ false
      → find_library sys r.library_name r.runpath r.rpath ≡ ok b.path
      → Added (record l { loaded = r.library_name ∷ l.loaded }) b l'
      → State (queue ++ requests b) l'
  loaded_State r queue l b l' fresh s e found a = record {
    past = rw (a.loaded, a.binaries) (loads l.loaded l.binaries r b s.past fresh s.asked.0 e found);
    asked = rw a.binaries (
        All-append (Asked (l.binaries ++ (b ∷ []))) queue (requests b)
          (All-map (Asked-append l.binaries (b ∷ [])) queue s.asked.1)
          (requests-Asked (l.binaries ++ (b ∷ [])) b b.neededs (Among-last l.binaries b)
            (λ n h. h)));
  }

  load_request-State :
      (r : Request) (queue : List Request) (l : DynLoader) (k : Machine)
      → elem r.library_name l.loaded ≡ false
      → State (r ∷ queue) l
      → Ensures
          (λ (p : List Request × DynLoader × Machine). State (queue ++ p.0) p.1)
          (load_request sys r l k)
  unfolding load_request
  load_request-State r queue l k fresh s = elim (Bool-cases (is_skipped r.library_name)) [
    | inl e ↦
        rw (e, load_request)
          (returns (record {
            past = skips l.loaded l.binaries r s.past fresh s.asked.0 e;
            asked = rw (append-nil queue) s.asked.1;
          }))
    | inr e ↦
        let l0 : DynLoader = record l { loaded = r.library_name ∷ l.loaded } in
        rw (e, load_request)
          (bind (when_ok (find_library sys r.library_name r.runpath r.rpath) (λ path found. found))
            (λ path found. bind (load_binary-Adds sys path l0 k) (λ p (a, named).
              returns (loaded_State r queue l p.0 p.1 fresh s e (rw named found) a))))
  ]

  load_loop-State :
      (fuel : ℕ) (queue : List Request) (l : DynLoader) (k : Machine)
      → State queue l
      → Ensures
          (λ (p : DynLoader × Machine). History p.0.loaded p.0.binaries)
          (load_loop sys fuel queue l k)
  unfolding load_loop
  load_loop-State zero queue l k s = fails
  load_loop-State (suc fuel) [] l k s = returns s.past
  load_loop-State (suc fuel) (r ∷ queue) l k s = elim (Bool-cases (elem r.library_name l.loaded)) [
    | inl e ↦
        rw (e, load_loop)
          (load_loop-State fuel queue l k (record { past = s.past; asked = s.asked.1 }))
    | inr e ↦
        rw (e, load_loop)
          (bind (load_request-State r queue l k e s)
            λ p t. load_loop-State fuel (queue ++ p.0) p.1 p.2 t)
  ]

-- If LoadDependingLibs returns, for a loader that is empty, then `loaded_` and the binaries came about
-- by the steps of a history: each name was entered once, because a binary loaded before needs it, and
-- each library but the first is the one that FindLibrary finds for such a name.
pub load_depending_libs-History :
    (sys : System) (fuel : ℕ) (root_path : Str) (l l' : DynLoader) (k k' : Machine)
    → load_depending_libs sys fuel root_path l k ≡ ok (l', k')
    → l.binaries ≡ []
    → l.loaded ≡ []
    → History sys root_path l'.loaded l'.binaries
unfolding load_depending_libs
load_depending_libs-History sys fuel root_path l l' k k' h no_binaries no_names =
    let ((b, l1, k1), run, rest) = >>=-eq-ok (load_binary sys root_path l k) _ h in
    let (a, named) =
      outcome (Adds root_path l) _ (b, l1, k1) (load_binary-Adds sys root_path l k) run in
    let one : l1.binaries ≡ b ∷ [] =
      a.binaries ∙ ap (λ (bins : List ElfBinary). bins ++ (b ∷ [])) no_binaries in
    outcome (λ (p : DynLoader × Machine). History sys root_path p.0.loaded p.0.binaries) _ (l', k')
      (load_loop-State sys root_path fuel (requests b)
        (record l1 { loaded = filename root_path ∷ l1.loaded }) k1
        (record {
          past = rw (one, a.loaded, no_names) (root b named);
          asked = rw one (requests-Asked (b ∷ []) b b.neededs (zero, refl) (λ n g. g));
        }))
      rest
