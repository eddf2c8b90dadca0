-- ===== src/Loader/Queue/Closed.antt =====
-- When LoadDependingLibs returns, whatever a loaded binary needs has been dealt with.
use sloader.Base.{
  ℕ, zero, suc, ◌≡◌, refl, sym, ap, subst, true, ◌||◌, ◌⊎◌, List, [], ◌∷◌, ◌++◌, map, arith, All,
  All-append, All-map, Str, elem, str_eq, str_eq_refl, str_eq→eq, Bool-cases, inl, inr,
}
use mathlib.Core.List.{append_assoc}
use sloader.Result.{ok, >>=-eq-ok, ok-injective}
use sloader.System.{System, Machine}
use sloader.Binary.{ElfBinary, elf_binary, filename}
use sloader.Binary.Load.{load}
use sloader.Library.{find_library}
use sloader.Loader.{
  DynLoader, Request, requests, load_binary, is_skipped, load_request, load_loop,
  load_depending_libs,
}

abbrev pub names : List Request → List Str
names queue = map (λ r. r.library_name) queue

-- The name is in `loaded_` or still in the queue.
abbrev Wanted : List Str → List Request → Str → Type 0
Wanted loaded queue n = (elem n loaded || elem n (names queue)) ≡ true

abbrev Covered : List Str → List Request → List ElfBinary → Type 0
Covered loaded queue bins = All (λ b. All (Wanted loaded queue) b.neededs) bins

-- Every name that a binary needs is in `loaded_`.
abbrev pub AllLoaded : DynLoader → Type 0
AllLoaded l = All (λ b. All (λ n. elem n l.loaded ≡ true) b.neededs) l.binaries

Covered-map :
    (before after : List Str) (queue queue' : List Request) (bins : List ElfBinary)
    → ((n : Str) → Wanted before queue n → Wanted after queue' n)
    → Covered before queue bins
    → Covered after queue' bins
Covered-map before after queue queue' bins f h =
    All-map (λ (b : ElfBinary) k. All-map f b.neededs k) bins h

pub elem-append-left : (n : Str) (xs ys : List Str) → elem n xs ≡ true → elem n (xs ++ ys) ≡ true
elem-append-left n [] ys h = cc
elem-append-left n (x ∷ xs) ys h = ground (arith, elem-append-left n xs ys)

pub elem-append-right : (n : Str) (xs ys : List Str) → elem n ys ≡ true → elem n (xs ++ ys) ≡ true
elem-append-right n [] ys h = h
elem-append-right n (x ∷ xs) ys h = ground (arith, elem-append-right n xs ys h)

pub elem-append-cases :
    (n : Str) (xs ys : List Str)
    → elem n (xs ++ ys) ≡ true
    → (elem n xs ≡ true) ⊎ (elem n ys ≡ true)
elem-append-cases n [] ys h = inr h
elem-append-cases n (x ∷ xs) ys h = ground (arith, elem-append-cases n xs ys)

elem-str_eq : (n x : Str) (xs : List Str) → str_eq n x ≡ true → elem x xs ≡ true → elem n xs ≡ true
elem-str_eq n x xs e h = subst (λ (y : Str). elem y xs ≡ true) (sym (str_eq→eq n x e)) h

-- A name that is loaded already leaves the queue.
Wanted-skip :
    (loaded : List Str) (r : Request) (queue : List Request) (n : Str)
    → elem r.library_name loaded ≡ true
    → Wanted loaded (r ∷ queue) n
    → Wanted loaded queue n
Wanted-skip loaded r queue n old w = ground (arith, elem-str_eq n r.library_name loaded)

pub names-append : (q p : List Request) → names (q ++ p) ≡ names q ++ names p
names-append [] p = refl
names-append (r ∷ q) p = ap (◌∷◌ r.library_name) (names-append q p)

-- A name that is taken from the queue enters `loaded_`, and others are pushed.
Wanted-load :
    (loaded : List Str) (r : Request) (queue pushed : List Request) (n : Str)
    → Wanted loaded (r ∷ queue) n
    → Wanted (r.library_name ∷ loaded) (queue ++ pushed) n
Wanted-load loaded r queue pushed n w =
    rw (names-append queue pushed) (ground (arith, elem-append-left n (names queue) (names pushed)))

pub names-requests :
    (c : ElfBinary) (ns : List Str)
    → names (map (λ m. record { library_name = m; runpath = c.runpath; rpath = c.rpath }) ns) ≡ ns
names-requests c [] = refl
names-requests c (m ∷ ns) = ap (◌∷◌ m) (names-requests c ns)

Wanted-pushed :
    (loaded : List Str) (queue : List Request) (b : ElfBinary) (n : Str)
    → elem n b.neededs ≡ true
    → Wanted loaded (queue ++ requests b) n
Wanted-pushed loaded queue b n h = rw (names-append queue (requests b)) (
    ground
      (arith, elem-append-right n (names queue) (names (requests b)), names-requests b b.neededs))

-- What adding a binary changes.
pub record Added (l : DynLoader) (b : ElfBinary) (l' : DynLoader) : Type 0 where
  pub binaries : l'.binaries ≡ l.binaries ++ (b ∷ [])
  pub loaded : l'.loaded ≡ l.loaded

pub load_binary-Added :
    (sys : System) (path : Str) (l l' : DynLoader) (k k' : Machine) (b : ElfBinary)
    → load_binary sys path l k ≡ ok (b, l', k')
    → Added l b l'
unfolding load_binary
load_binary-Added sys path l l' k k' b h =
    let (b0, opened, h1) = >>=-eq-ok (elf_binary sys path) _ h in
    let ((b1, next, k1), read, h2) = >>=-eq-ok (load sys b0 l.next_base_addr k) _ h1 in
    let e = ok-injective h2 in
    subst (λ (p : ElfBinary × DynLoader × Machine). Added l p.0 p.1) e
      (record { binaries = refl; loaded = refl })

Covered-add :
    (loaded : List Str) (queue : List Request) (bins : List ElfBinary) (b : ElfBinary)
    → Covered loaded queue bins
    → All (Wanted loaded queue) b.neededs
    → Covered loaded queue (bins ++ (b ∷ []))
Covered-add loaded queue bins b h k =
    All-append (λ (c : ElfBinary). All (Wanted loaded queue) c.neededs) bins (b ∷ []) h (k, tt)

All-elem : (xs ys : List Str) → All (λ n. elem n (xs ++ ys) ≡ true) ys
All-elem xs [] = tt
All-elem xs (y ∷ ys) = (
  elem-append-right y xs (y ∷ ys) (ground (arith, str_eq_refl y)),
  All-map (λ n h. rw (append_assoc xs (y ∷ []) ys) at h) ys (All-elem (xs ++ (y ∷ [])) ys),
)

needed-Wanted :
    (loaded : List Str) (queue : List Request) (b : ElfBinary)
    → All (Wanted loaded (queue ++ requests b)) b.neededs
needed-Wanted loaded queue b =
    All-map (Wanted-pushed loaded queue b) b.neededs (All-elem [] b.neededs)

load_request-Covered :
    (sys : System) (r : Request) (queue pushed : List Request) (l l' : DynLoader) (k k' : Machine)
    → load_request sys r l k ≡ ok (pushed, l', k')
    → Covered l.loaded (r ∷ queue) l.binaries
    → Covered l'.loaded (queue ++ pushed) l'.binaries
unfolding load_request
load_request-Covered sys r queue pushed l l' k k' h c =
    elim (Bool-cases (is_skipped r.library_name)) [
      | inl e ↦
          subst
            (λ (p : List Request × DynLoader × Machine).
              Covered p.1.loaded (queue ++ p.0) p.1.binaries)
            (ok-injective (rw (e, load_request) at h))
            (Covered-map l.loaded (r.library_name ∷ l.loaded) (r ∷ queue) (queue ++ []) l.binaries
              (Wanted-load l.loaded r queue []) c)
      | inr e ↦
          let l0 : DynLoader = record l { loaded = r.library_name ∷ l.loaded } in
          let (path, found, h1) =
            >>=-eq-ok (find_library sys r.library_name r.runpath r.rpath) _
              (rw (e, load_request) at h) in
          let ((b, l1, k1), run, h2) = >>=-eq-ok (load_binary sys path l0 k) _ h1 in
          let a : Added l0 b l1 = load_binary-Added sys path l0 l1 k k1 b run in
          subst
            (λ (p : List Request × DynLoader × Machine).
              Covered p.1.loaded (queue ++ p.0) p.1.binaries)
            (ok-injective h2)
            (rw (a.binaries, a.loaded)
              (Covered-add (r.library_name ∷ l.loaded) (queue ++ requests b) l.binaries b
                (Covered-map l.loaded (r.library_name ∷ l.loaded) (r ∷ queue) (queue ++ requests b)
                  l.binaries (Wanted-load l.loaded r queue (requests b)) c)
                (needed-Wanted (r.library_name ∷ l.loaded) queue b)))
    ]

load_loop-AllLoaded :
    (sys : System) (fuel : ℕ) (queue : List Request) (l l' : DynLoader) (k k' : Machine)
    → load_loop sys fuel queue l k ≡ ok (l', k')
    → Covered l.loaded queue l.binaries
    → AllLoaded l'
unfolding load_loop
load_loop-AllLoaded sys zero queue l l' k k' h c = cc
load_loop-AllLoaded sys (suc fuel) [] l l' k k' h c =
    subst (λ (p : DynLoader × Machine). AllLoaded p.0) (ok-injective h)
      (All-map (λ (b : ElfBinary) j. All-map (λ n w. ground arith) b.neededs j) l.binaries c)
load_loop-AllLoaded sys (suc fuel) (r ∷ queue) l l' k k' h c =
    elim (Bool-cases (elem r.library_name l.loaded)) [
      | inl e ↦ load_loop-AllLoaded sys fuel queue l l' k k' (rw (e, load_loop) at h) (
          Covered-map l.loaded l.loaded (r ∷ queue) queue l.binaries
            (λ n. Wanted-skip l.loaded r queue n e) c)
      | inr e ↦
          let ((pushed, l1, k1), run, rest) =
            >>=-eq-ok (load_request sys r l k) _ (rw (e, load_loop) at h) in
          load_loop-AllLoaded sys fuel (queue ++ pushed) l1 l' k1 k' rest
            (load_request-Covered sys r queue pushed l l1 k k1 run c)
    ]

-- If LoadDependingLibs returns, every name that a loaded binary needs is in `loaded_`, provided that
-- this held of the binaries loaded before.
pub load_depending_libs-AllLoaded :
    (sys : System) (fuel : ℕ) (root_path : Str) (l l' : DynLoader) (k k' : Machine)
    → load_depending_libs sys fuel root_path l k ≡ ok (l', k')
    → AllLoaded l
    → AllLoaded l'
unfolding load_depending_libs
load_depending_libs-AllLoaded sys fuel root_path l l' k k' h before =
    let ((b, l1, k1), run, rest) = >>=-eq-ok (load_binary sys root_path l k) _ h in
    let a : Added l b l1 = load_binary-Added sys root_path l l1 k k1 b run in
    let loaded : List Str = filename root_path ∷ l1.loaded in
    load_loop-AllLoaded sys fuel (requests b) (record l1 { loaded = loaded }) l' k1 k' rest
      (rw a.binaries (
        Covered-add loaded (requests b) l.binaries b
          (All-map (λ (c : ElfBinary) j. All-map (λ n w. rw a.loaded (ground arith)) c.neededs j)
            l.binaries before)
          (needed-Wanted loaded [] b)))
