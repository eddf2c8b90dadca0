-- ===== src/Loader/Queue/Ends.antt =====
-- The queue loop ends: each library is loaded once, and a library needs finitely many names.
use sloader.Base.{
  ℕ, zero, suc, ◌+◌, ◌*◌, ◌≤◌, ◌<◌, ◌≡◌, ◌≢◌, refl, subst, true, false, List, [], ◌∷◌, ◌++◌, map,
  arith, All, All-append, Str, elem, length, length-append, str_eq, str_eq_refl, str_eq→eq,
  Bool-cases, inl, inr, if◌then◌else◌,
}
use sloader.Result.{ok, err, out_of_fuel, queue_loop, >>=-eq-ok, ok-injective}
use sloader.Result.Without.{fine, bind_eq, Without-ne}
use sloader.System.{System, Machine}
use sloader.Binary.{ElfBinary, filename}
use sloader.Library.{find_library}
use sloader.Loader.{
  DynLoader, Request, requests, load_binary, is_skipped, load_request, load_loop,
  load_depending_libs,
}
use sloader.Loader.Queue.Quiet.{Quiet, load_request-Quiet, load_binary-Quiet}
use sloader.Loader.Queue.Closed.{load_binary-Added}

-- How many of the names are not in `loaded_`.
unfoldable pub missing : List Str → List Str → ℕ
missing [] loaded = 0
missing (u ∷ us) loaded = (if elem u loaded then 0 else 1) + missing us loaded

missing-le-length : (us loaded : List Str) → missing us loaded ≤ length us
unfolding missing
missing-le-length [] loaded = omega arith
missing-le-length (u ∷ us) loaded = ground (arith, missing-le-length us loaded)

missing-cons-le : (n : Str) (us loaded : List Str) → missing us (n ∷ loaded) ≤ missing us loaded
unfolding missing
missing-cons-le n [] loaded = omega arith
missing-cons-le n (u ∷ us) loaded = ground (arith, missing-cons-le n us loaded)

elem-same : (n u : Str) (loaded : List Str) → str_eq n u ≡ true → elem n loaded ≡ elem u loaded
elem-same n u loaded e = rw (str_eq→eq n u e)

missing-cons-lt :
    (n : Str) (us loaded : List Str)
    → elem n us ≡ true
    → elem n loaded ≡ false
    → missing us (n ∷ loaded) < missing us loaded
unfolding missing
missing-cons-lt n [] loaded i o = absurd (ground arith)
missing-cons-lt n (u ∷ us) loaded i o = elim (Bool-cases (str_eq n u)) [
  | inl e ↦
      let eq : n ≡ u = str_eq→eq n u e in
      let now : str_eq u n ≡ true = rw eq (str_eq_refl u) in
      ground (arith, missing-cons-le n us loaded, elem-same n u loaded e)
  | inr e ↦ ground (arith, missing-cons-lt n us loaded, elem-same n u loaded)
]

-- Whatever is loaded needs names of the list `us` only, at most `most` of them.
abbrev pub Needs : System → List Str → ℕ → Type 0
Needs sys us most =
    (path : Str) (l l' : DynLoader) (k k' : Machine) (b : ElfBinary)
    → load_binary sys path l k ≡ ok (b, l', k')
    → All (λ n. elem n us ≡ true) b.neededs × (length b.neededs ≤ most)

abbrev Known : List Str → List Request → Type 0
Known us queue = All (λ r. elem r.library_name us ≡ true) queue

module _ (sys : System) (us : List Str) (most : ℕ) (needs : Needs sys us most) where
  Known-requests :
      (b : ElfBinary) (ns : List Str)
      → All (λ n. elem n us ≡ true) ns
      → Known us (map (λ n. record { library_name = n; runpath = b.runpath; rpath = b.rpath }) ns)
  Known-requests b [] h = tt
  Known-requests b (n ∷ ns) h = (h.0, Known-requests b ns h.1)

  length-requests :
      (b : ElfBinary) (ns : List Str)
      → length {A = Request}
          (map (λ n. record { library_name = n; runpath = b.runpath; rpath = b.rpath }) ns)
        ≡ length ns
  length-requests b [] = refl
  length-requests b (n ∷ ns) = omega (arith, length-requests b ns)

  -- What one request adds to the queue and to `loaded_`.
  record Pushes (r : Request) (l : DynLoader) (p : List Request × DynLoader × Machine)
      : Type 0 where
    known : Known us p.0
    few : length p.0 ≤ most
    loaded : p.1.loaded ≡ r.library_name ∷ l.loaded

  load_request-Pushes :
      (r : Request) (l : DynLoader) (k : Machine) (p : List Request × DynLoader × Machine)
      → load_request sys r l k ≡ ok p
      → Pushes r l p
  unfolding load_request
  load_request-Pushes r l k p h = elim (Bool-cases (is_skipped r.library_name)) [
    | inl e ↦
        subst (Pushes r l) (ok-injective (rw (e, load_request) at h))
          (record { known = tt; few = omega arith; loaded = refl })
    | inr e ↦
        let l0 : DynLoader = record l { loaded = r.library_name ∷ l.loaded } in
        let (path, found, h1) =
          >>=-eq-ok (find_library sys r.library_name r.runpath r.rpath) _
            (rw (e, load_request) at h) in
        let ((b, l1, k1), run, h2) = >>=-eq-ok (load_binary sys path l0 k) _ h1 in
        let (known, few) = needs path l0 l1 k k1 b run in
        subst (Pushes r l) (ok-injective h2) (record {
          known = Known-requests b b.neededs known;
          few = omega (arith, length-requests b b.neededs);
          loaded = (load_binary-Added sys path l0 l1 k k1 b run).loaded;
        })
  ]

  -- A request that is served makes up for what it pushes.
  measure_falls :
      (queue pushed : List Request) (r : Request) (loaded : List Str)
      → elem r.library_name us ≡ true
      → elem r.library_name loaded ≡ false
      → length pushed ≤ most
      → length (queue ++ pushed) + most * missing us (r.library_name ∷ loaded)
        < length (r ∷ queue) + most * missing us loaded
  measure_falls queue pushed r loaded i o few =
      grind (arith, length-append queue pushed, missing-cons-lt r.library_name us loaded i o)

  load_loop-Quiet :
      (fuel : ℕ) (queue : List Request) (l : DynLoader) (k : Machine)
      → Known us queue
      → length queue + most * missing us l.loaded < fuel
      → Quiet (load_loop sys fuel queue l k)
  unfolding load_loop
  load_loop-Quiet zero queue l k known m = absurd (omega arith)
  load_loop-Quiet (suc fuel) [] l k known m = fine
  load_loop-Quiet (suc fuel) (r ∷ queue) l k known m =
      elim (Bool-cases (elem r.library_name l.loaded)) [
        | inl e ↦ rw (e, load_loop) (load_loop-Quiet fuel queue l k known.1 (omega arith))
        | inr e ↦
            rw (e, load_loop)
              (bind_eq (load_request sys r l k) (load_request-Quiet sys r l k) λ p run.
                let s = load_request-Pushes r l k p run in
                load_loop-Quiet fuel (queue ++ p.0) p.1 p.2
                  (All-append (λ (q : Request). elem q.library_name us ≡ true) queue p.0 known.1
                    s.known)
                  (rw s.loaded (omega (arith, measure_falls queue p.0 r l.loaded known.0 e s.few))))
      ]

-- With more fuel than `most * (1 + length us)` the queue of LoadDependingLibs is emptied, if what is
-- loaded needs names of the list `us` only, at most `most` each.
pub load_depending_libs-ends :
    (sys : System) (us : List Str) (most fuel : ℕ) (root_path : Str) (l : DynLoader) (k : Machine)
    → Needs sys us most
    → most + most * length us < fuel
    → load_depending_libs sys fuel root_path l k ≢ err (out_of_fuel queue_loop)
unfolding load_depending_libs
load_depending_libs-ends sys us most fuel root_path l k needs enough = Without-ne queue_loop _ (
    bind_eq (load_binary sys root_path l k) (load_binary-Quiet sys root_path l k) λ p run.
      let (known, few) = needs root_path l p.1 k p.2 p.0 run in
      load_loop-Quiet sys us most needs fuel (requests p.0) _ p.2
        (Known-requests sys us most needs p.0 p.0.neededs known)
        (grind (
          arith,
          length-requests sys us most needs p.0 p.0.neededs,
          missing-le-length us (filename root_path ∷ p.1.loaded),
        )))
