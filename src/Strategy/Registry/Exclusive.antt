-- ===== src/Strategy/Registry/Exclusive.antt =====
-- apps/api/routes/strategy.py: the loops that run at any time, against the registry.
use mach.Prelude.{
  ℕ, ◌≡◌, refl, ◌⊎◌, inl, inr, true, false, List, [], ◌∷◌, Option, none, some, ok, raised, Raises,
  ◌>>=◌, ◌==◌, if◌then◌else◌, Bool-cases, Option-cases, arith, sym, ap, subst, ◌∙◌,
}
use mach.Text.{Text, eq_text}
use mach.Text.Laws.{eq-eq_text, eq_text_refl}
use mach.Dict.{lookup, discard}
use mach.Dict.Laws.{lookup-store, lookup-discard}
use mach.Float.{Float}
use mach.Strategy.{Strategy}
use mach.Strategy.Runner.{Snapshot, run_once}
use mach.Strategy.Registry.{
  Entry, Process, without, get_runner, set_runner, remove_runner, start, stop, start_known,
  strategy_start, strategy_stop, begin_loop, loop_round, strategy_registry,
}

-- The loops of a symbol.
abbrev pub loops_of : Text → List (Text × ℕ) → List ℕ
loops_of s [] = []
loops_of s ((t, i) ∷ live) = let rest = loops_of s live in if eq_text s t then i ∷ rest else rest

-- No loop, or the one of a given runner.
abbrev pub Only : List ℕ → ℕ → Type 0
Only ids i = (ids ≡ []) ⊎ (ids ≡ i ∷ [])

abbrev pub drop_id : ℕ → List ℕ → List ℕ
drop_id id [] = []
drop_id id (i ∷ ids) = let rest = drop_id id ids in if id == i then rest else i ∷ rest

pub loops_of-without :
    (s : Text) (id : ℕ) (live : List (Text × ℕ))
    → loops_of s (without id live) ≡ drop_id id (loops_of s live)
unfolding without
loops_of-without s id [] = refl
loops_of-without s id ((t, i) ∷ live) = ground (arith, loops_of-without s id live)

drop_id-Only : (id i : ℕ) (ids : List ℕ) → Only ids i → Only (drop_id id ids) i
drop_id-Only id i ids (inl e) = rw e (inl refl)
drop_id-Only id i ids (inr e) = rw e (ground arith)

pub drop_id_self : (id : ℕ) (ids : List ℕ) → Only ids id → drop_id id ids ≡ []
drop_id_self id ids (inl e) = rw e refl
drop_id_self id ids (inr e) = rw e (ground arith)

module _ {ℓ} {F : Type ℓ} ⦃fl : Float F⦄ where
  -- What the process does: a request, the first step of a loop, or a round of it.
  pub data Step : Process F → Process F → Type ℓ where
    start_request :
        (p : Process F) (symbol strategy : Text) (capital : F)
        → Step p (strategy_start symbol strategy capital p).0
    stop_request : (p : Process F) (symbol : Text) → Step p (strategy_stop symbol p).0
    begun :
        (p : Process F) (symbol : Text) (e : Entry F)
        → lookup symbol p.active ≡ some e
        → Step p (begin_loop symbol e p)
    round :
        (p : Process F) (symbol : Text) (e : Entry F) (snap : Raises (Option (Snapshot F)))
        → lookup symbol p.active ≡ some e
        → Step p (loop_round symbol e snap p)

  abbrev pub empty_process : Process F
  empty_process = record { active = []; tasks = []; live = []; started = 0 }

  pub data Run : Process F → Type ℓ where
    nothing : Run empty_process
    next : {p q : Process F} → Run p → Step p q → Run q

  -- For one symbol: no loop and no task, or the one task of the registered runner.
  abbrev pub Agrees : Option (Entry F) → Option ℕ → List ℕ → Type 0
  Agrees none task ids = (task ≡ none) × (ids ≡ [])
  Agrees (some e) task ids = (task ≡ some e.id) × Only ids e.id

  pub IsExclusive : Process F → Type 0
  IsExclusive p = (s : Text) → Agrees (lookup s p.active) (lookup s p.tasks) (loops_of s p.live)

  Agrees-drop_id :
      (id : ℕ) (o : Option (Entry F)) (task : Option ℕ) (ids : List ℕ)
      → Agrees o task ids
      → Agrees o task (drop_id id ids)
  Agrees-drop_id id none task ids (none_yet, e) = (none_yet, rw e refl)
  Agrees-drop_id id (some x) task ids (one, only) = (one, drop_id-Only id x.id ids only)

  without-IsExclusive :
      (id : ℕ) (p : Process F) → IsExclusive p → IsExclusive (record p { live = without id p.live })
  unfolding IsExclusive
  without-IsExclusive id p x s =
      rw (loops_of-without s id p.live)
        (Agrees-drop_id id (lookup s p.active) (lookup s p.tasks) (loops_of s p.live) (x s))

  pub at_symbol :
      (s symbol : Text) (p : Process F) {o : Option (Entry F)}
      → lookup symbol p.active ≡ o
      → eq_text s symbol ≡ true
      → IsExclusive p
      → Agrees o (lookup s p.tasks) (loops_of s p.live)
  unfolding IsExclusive
  at_symbol s symbol p found here x =
      subst (λ o. Agrees o (lookup s p.tasks) (loops_of s p.live))
        (ap (λ t. lookup t p.active) (eq-eq_text s symbol here) ∙ found) (x s)

  set_runner-IsExclusive :
      (symbol : Text) (e e' : Entry F) (p : Process F)
      → lookup symbol p.active ≡ some e
      → e'.id ≡ e.id
      → IsExclusive p
      → IsExclusive (set_runner symbol e' p)
  unfolding set_runner IsExclusive
  set_runner-IsExclusive symbol e e' p here same x s = elim (Bool-cases (eq_text s symbol)) [
    | inl f ↦ rw (lookup-store s symbol e' p.active, f, same) (at_symbol s symbol p here f x)
    | inr f ↦ rw (lookup-store s symbol e' p.active, f) (x s)
  ]

  start_known-IsExclusive :
      (symbol : Text) (strat : Strategy F) (capital : F) (p : Process F)
      → lookup symbol p.active ≡ none
      → IsExclusive p
      → IsExclusive (start_known symbol strat capital p)
  unfolding start_known start set_runner IsExclusive
  start_known-IsExclusive symbol strat capital p absent x s = elim (Bool-cases (eq_text s symbol)) [
    | inl e ↦
        rw
          (
            lookup-store s symbol _ p.active,
            lookup-store s symbol p.started p.tasks,
            e,
            (at_symbol s symbol p absent e x).1,
          )
          (refl, inr refl)
    | inr e ↦
        rw (lookup-store s symbol _ p.active, lookup-store s symbol p.started p.tasks, e) (x s)
  ]

  live-stop :
      (symbol : Text) (id : ℕ) (p : Process F)
      → lookup symbol p.tasks ≡ some id
      → (stop symbol p).live ≡ without id p.live
  unfolding stop
  live-stop symbol id p h = rw (stop, h) refl

  stop-IsExclusive :
      (symbol : Text) (e : Entry F) (p : Process F)
      → lookup symbol p.active ≡ some e
      → IsExclusive p
      → IsExclusive (remove_runner symbol (stop symbol p))
  unfolding remove_runner stop IsExclusive
  stop-IsExclusive symbol e p here x s =
      let mine = at_symbol symbol symbol p here (eq_text_refl symbol) x in
      subst
        (λ live.
          Agrees (lookup s (discard symbol p.active)) (lookup s (discard symbol p.tasks))
            (loops_of s live))
        (sym (live-stop symbol e.id p mine.0))
        (elim (Bool-cases (eq_text s symbol)) [
          | inl f ↦
              rw
                (
                  lookup-discard s symbol p.active,
                  lookup-discard s symbol p.tasks,
                  f,
                  loops_of-without s e.id p.live,
                )
                (refl, drop_id_self e.id (loops_of s p.live) (at_symbol s symbol p here f x).1)
          | inr f ↦
              rw (lookup-discard s symbol p.active, lookup-discard s symbol p.tasks, f)
                (without-IsExclusive e.id p x s)
        ])

  loop_round-IsExclusive :
      (symbol : Text) (e : Entry F) (snap : Raises (Option (Snapshot F))) (p : Process F)
      → lookup symbol p.active ≡ some e
      → IsExclusive p
      → IsExclusive (loop_round symbol e snap p)
  unfolding loop_round
  loop_round-IsExclusive symbol e snap p here x =
      elim (snap >>= run_once e.runner)
        as (λ out. IsExclusive (elim out [
          | ok o ↦ set_runner symbol (record e { runner = o.0 }) p
          | raised y ↦ record (set_runner symbol (record e { running = false }) p) {
            live = without e.id p.live;
          }
        ])) [
          | ok out ↦ set_runner-IsExclusive symbol e (record e { runner = out.0 }) p here refl x
          | raised y ↦
              without-IsExclusive e.id _
                (set_runner-IsExclusive symbol e (record e { running = false }) p here refl x)
        ]

  strategy_start-IsExclusive :
      (symbol strategy : Text) (capital : F) (p : Process F)
      → IsExclusive p
      → IsExclusive (strategy_start symbol strategy capital p).0
  unfolding strategy_start get_runner
  strategy_start-IsExclusive symbol strategy capital p x =
      elim (Option-cases (lookup symbol p.active)) [
        | inr (e, here) ↦ rw (strategy_start, here) x
        | inl absent ↦ elim (Option-cases (lookup strategy (strategy_registry ⦃fl = fl⦄))) [
          | inl unknown ↦ rw (strategy_start, absent, unknown) x
          | inr (s, known) ↦
              rw (strategy_start, absent, known)
                (start_known-IsExclusive symbol s capital p absent x)
        ]
      ]

  pub strategy_stop-IsExclusive :
      (symbol : Text) (p : Process F) → IsExclusive p → IsExclusive (strategy_stop symbol p).0
  unfolding strategy_stop get_runner
  strategy_stop-IsExclusive symbol p x = elim (Option-cases (lookup symbol p.active)) [
    | inl absent ↦ rw (strategy_stop, absent) x
    | inr (e, here) ↦ rw (strategy_stop, here) (stop-IsExclusive symbol e p here x)
  ]

  Step-IsExclusive : {p q : Process F} → Step p q → IsExclusive p → IsExclusive q
  unfolding begin_loop
  Step-IsExclusive (start_request p symbol strategy capital) x =
      strategy_start-IsExclusive symbol strategy capital p x
  Step-IsExclusive (stop_request p symbol) x = strategy_stop-IsExclusive symbol p x
  Step-IsExclusive (begun p symbol e here) x =
      set_runner-IsExclusive symbol e (record e { running = true }) p here refl x
  Step-IsExclusive (round p symbol e snap here) x = loop_round-IsExclusive symbol e snap p here x

  -- At every point of every run of start and stop requests, first steps of loops and rounds of
  -- loops, also rounds that raise: a symbol that is not registered has no task and no loop, and a
  -- registered one has the task of its runner, and no loop or that runner's loop alone. So two
  -- loops never trade the same symbol.
  pub Run-IsExclusive : {p : Process F} → Run p → IsExclusive p
  unfolding IsExclusive lookup
  Run-IsExclusive nothing = λ s. (refl, refl)
  Run-IsExclusive (next r st) = Step-IsExclusive st (Run-IsExclusive r)
