-- ===== src/Loader/Queue/Reach.antt =====
-- LoadDependingLibs against an abstract view: which names the program depends on.
use sloader.Base.{
  ℕ, zero, suc, ◌≡◌, ◌∙◌, refl, sym, ap, subst, true, false, ◌⊎◌, ◌↔◌, List, [], ◌∷◌, ◌++◌, arith,
  Str, elem, str_eq, str_eq_refl, str_eq→eq, Bool-cases, inl, inr,
}
use sloader.Result.{ok, >>=-eq-ok, ok-injective}
use sloader.System.{System, Machine}
use sloader.Binary.{ElfBinary, filename}
use sloader.Library.{find_library}
use sloader.Loader.{
  DynLoader, Request, requests, load_binary, is_skipped, load_request, load_loop,
  load_depending_libs,
}
use sloader.Loader.Queue.Closed.{
  names, names-append, names-requests, elem-append-left, elem-append-right, elem-append-cases,
  load_binary-Added,
}

-- A dependency graph on names; the needed names of a library by its own name.
abbrev pub Graph : Type 0
Graph = Str → List Str

-- The names that a name leads to.
pub data Reach (deps : Graph) (root : Str) : Str → Type 0 where
  here : Reach deps root root
  step : {m n : Str} → Reach deps root m → elem n (deps m) ≡ true → Reach deps root n

-- Whatever is loaded from the path needs these names.
abbrev pub Needs : System → Str → List Str → Type 0
Needs sys path ns =
    (l l' : DynLoader) (k k' : Machine) (b : ElfBinary)
    → load_binary sys path l k ≡ ok (b, l', k')
    → b.neededs ≡ ns

-- The files of the system are those of the graph: a name that is skipped needs nothing, and the file
-- that a request for another name leads to needs the names of the graph.
pub record Follows (sys : System) (deps : Graph) : Type 0 where
  pub skipped : (n : Str) → is_skipped n ≡ true → deps n ≡ []
  pub found :
      (r : Request) (path : Str)
      → is_skipped r.library_name ≡ false
      → find_library sys r.library_name r.runpath r.rpath ≡ ok path
      → Needs sys path (deps r.library_name)

elem-cons-cases :
    (n x : Str) (xs : List Str) → elem n (x ∷ xs) ≡ true → (n ≡ x) ⊎ (elem n xs ≡ true)
elem-cons-cases n x xs h = elim (Bool-cases (str_eq n x)) [
  | inl e ↦ inl (str_eq→eq n x e)
  | inr e ↦ inr (ground arith)
]

not_in_empty : (n : Str) (xs : List Str) → xs ≡ [] → elem n xs ≡ true → ⊥
not_in_empty n [] e h = cc
not_in_empty n (x ∷ xs) e h = cc

module _ (deps : Graph) (root : Str) where
  -- `loaded_` and the names in the queue, on the way.
  record Inv (loaded queued : List Str) : Type 0 where
    source : elem root loaded ≡ true
    sound : (n : Str) → elem n loaded ≡ true → Reach deps root n
    waiting : (n : Str) → elem n queued ≡ true → Reach deps root n
    closed :
        (m n : Str)
        → elem m loaded ≡ true
        → elem n (deps m) ≡ true
        → (elem n loaded ≡ true) ⊎ (elem n queued ≡ true)

  Inv-skip :
      (loaded queued : List Str) (r : Str)
      → elem r loaded ≡ true
      → Inv loaded (r ∷ queued)
      → Inv loaded queued
  Inv-skip loaded queued r old i = record {
    source = i.source;
    sound = i.sound;
    waiting = λ n q. i.waiting n (ground arith);
    closed = λ m n lm dn. elim (i.closed m n lm dn) [
      | inl in_loaded ↦ inl in_loaded
      | inr in_queue ↦ elim (elem-cons-cases n r queued in_queue) [
        | inl e ↦ inl (rw e old)
        | inr q ↦ inr q
      ]
    ];
  }

  Inv-serve :
      (loaded queued pushed : List Str) (r : Str)
      → pushed ≡ deps r
      → Inv loaded (r ∷ queued)
      → Inv (r ∷ loaded) (queued ++ pushed)
  Inv-serve loaded queued pushed r e i =
      let reached = i.waiting r (ground (arith, str_eq_refl r)) in
      record {
        source = ground (arith, i.source);
        sound = λ n h. elim (elem-cons-cases n r loaded h) [
          | inl e ↦ rw e reached
          | inr h' ↦ i.sound n h'
        ];
        waiting = λ n h. elim (elem-append-cases n queued pushed h) [
          | inl q ↦ i.waiting n (ground (arith, q))
          | inr p ↦ step reached (subst (λ (ns : List Str). elem n ns ≡ true) e p)
        ];
        closed = λ m n lm dn. elim (elem-cons-cases m r loaded lm) [
          | inl same ↦ inr (
              elem-append-right n queued pushed
                (subst (λ (ns : List Str). elem n ns ≡ true) (ap deps same ∙ sym e) dn))
          | inr lm' ↦ elim (i.closed m n lm' dn) [
            | inl in_loaded ↦ inl (ground (arith, in_loaded))
            | inr in_queue ↦ elim (elem-cons-cases n r queued in_queue) [
              | inl now ↦ inl (rw now (ground (arith, str_eq_refl r)))
              | inr q ↦ inr (elem-append-left n queued pushed q)
            ]
          ]
        ];
      }

  Inv-start :
      (loaded queued : List Str) → loaded ≡ [] → queued ≡ deps root → Inv (root ∷ loaded) queued
  Inv-start loaded queued nothing needed = record {
    source = ground (arith, str_eq_refl root);
    sound = λ n h. elim (elem-cons-cases n root loaded h) [
      | inl e ↦ rw e here
      | inr h' ↦ absurd (not_in_empty n loaded nothing h')
    ];
    waiting = λ n q. step here (subst (λ (ns : List Str). elem n ns ≡ true) needed q);
    closed = λ m n lm dn. elim (elem-cons-cases m root loaded lm) [
      | inl e ↦ inr (subst (λ (ns : List Str). elem n ns ≡ true) (ap deps e ∙ sym needed) dn)
      | inr h' ↦ absurd (not_in_empty m loaded nothing h')
    ];
  }

  -- With nothing queued, what is loaded is closed.
  complete :
      (loaded : List Str) → Inv loaded [] → {n : Str} → Reach deps root n → elem n loaded ≡ true
  complete loaded i here = i.source
  complete loaded i (step {m} {n} r d) = elim (i.closed m n (complete loaded i r) d) [
    | inl h ↦ h
    | inr h ↦ cc
  ]

module _ (sys : System) (deps : Graph) (root : Str) (follows : Follows sys deps) where
  -- What a request that is served changes.
  record Serves (r : Request) (l : DynLoader) (p : List Request × DynLoader × Machine)
      : Type 0 where
    pushed : names p.0 ≡ deps r.library_name
    loaded : p.1.loaded ≡ r.library_name ∷ l.loaded

  load_request-Serves :
      (r : Request) (l : DynLoader) (k : Machine) (p : List Request × DynLoader × Machine)
      → load_request sys r l k ≡ ok p
      → Serves r l p
  unfolding load_request
  load_request-Serves r l k p h = elim (Bool-cases (is_skipped r.library_name)) [
    | inl e ↦
        subst (Serves r l) (ok-injective (rw (e, load_request) at h))
          (record { pushed = sym (follows.skipped r.library_name e); loaded = refl })
    | inr e ↦
        let l0 : DynLoader = record l { loaded = r.library_name ∷ l.loaded } in
        let (path, found, h1) =
          >>=-eq-ok (find_library sys r.library_name r.runpath r.rpath) _
            (rw (e, load_request) at h) in
        let ((b, l1, k1), run, h2) = >>=-eq-ok (load_binary sys path l0 k) _ h1 in
        subst (Serves r l) (ok-injective h2) (record {
          pushed = names-requests b b.neededs ∙ follows.found r path e found l0 l1 k k1 b run;
          loaded = (load_binary-Added sys path l0 l1 k k1 b run).loaded;
        })
  ]

  load_loop-Inv :
      (fuel : ℕ) (queue : List Request) (l l' : DynLoader) (k k' : Machine)
      → load_loop sys fuel queue l k ≡ ok (l', k')
      → Inv deps root l.loaded (names queue)
      → Inv deps root l'.loaded []
  unfolding load_loop
  load_loop-Inv zero queue l l' k k' h i = cc
  load_loop-Inv (suc fuel) [] l l' k k' h i =
      subst (λ (p : DynLoader × Machine). Inv deps root p.0.loaded []) (ok-injective h) i
  load_loop-Inv (suc fuel) (r ∷ queue) l l' k k' h i =
      elim (Bool-cases (elem r.library_name l.loaded)) [
        | inl e ↦
            load_loop-Inv fuel queue l l' k k' (rw (e, load_loop) at h)
              (Inv-skip deps root l.loaded (names queue) r.library_name e i)
        | inr e ↦
            let ((pushed, l1, k1), run, rest) =
              >>=-eq-ok (load_request sys r l k) _ (rw (e, load_loop) at h) in
            let s = load_request-Serves r l k (pushed, l1, k1) run in
            load_loop-Inv fuel (queue ++ pushed) l1 l' k1 k' rest (
              rw (s.loaded, names-append queue pushed)
                (Inv-serve deps root l.loaded (names queue) (names pushed) r.library_name s.pushed
                  i))
      ]

-- If the files of the system are those of a graph, where a name that is skipped needs nothing,
-- and the file of the root needs the names of the graph, then, when LoadDependingLibs returns for
-- a loader that has loaded nothing, a name is in `loaded_` exactly if the file name of the root
-- leads to it in the graph.
pub load_depending_libs-Reach :
    (sys : System) (deps : Graph) (fuel : ℕ) (root_path : Str) (l l' : DynLoader) (k k' : Machine)
    (n : Str)
    → Follows sys deps
    → Needs sys root_path (deps (filename root_path))
    → l.loaded ≡ []
    → load_depending_libs sys fuel root_path l k ≡ ok (l', k')
    → (elem n l'.loaded ≡ true) ↔ Reach deps (filename root_path) n
unfolding load_depending_libs
load_depending_libs-Reach sys deps fuel root_path l l' k k' n follows needs nothing h =
    let root = filename root_path in
    let ((b, l1, k1), run, rest) = >>=-eq-ok (load_binary sys root_path l k) _ h in
    let empty : l1.loaded ≡ [] =
      (load_binary-Added sys root_path l l1 k k1 b run).loaded ∙ nothing in
    let needed : names (requests b) ≡ deps root =
      names-requests b b.neededs ∙ needs l l1 k k1 b run in
    let i = Inv-start deps root l1.loaded (names (requests b)) empty needed in
    let j =
      load_loop-Inv sys deps root follows fuel (requests b)
        (record l1 { loaded = root ∷ l1.loaded }) l' k1 k' rest i in
    (j.sound n, complete deps root l'.loaded j)
