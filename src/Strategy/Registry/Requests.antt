-- ===== src/Strategy/Registry/Requests.antt =====
-- apps/api/routes/strategy.py: what a stop and a start request do to a symbol's loops.
use mach.Prelude.{
  ℕ, List, false, Bool-cases, Raises-cases, ◌≡◌, refl, inl, inr, [], ◌∷◌, Option, none, some,
  raised, Exception, Raises, ◌>>=◌, Exception, Option-cases,
}
use mach.Text.{Text, eq_text}
use mach.Text.Laws.{eq_text_refl, eq-eq_text}
use mach.Dict.{lookup, store}
use mach.Dict.Laws.{lookup-store, lookup-discard}
use mach.Float.{Float}
use mach.Api.{answer, http_error}
use mach.Strategy.{Strategy}
use mach.Strategy.Runner.{Snapshot, run_once}
use mach.Strategy.Registry.{
  Entry, Process, get_runner, set_runner, remove_runner, start, stop, start_known, strategy_start,
  strategy_stop, loop_round, begin_loop, without, strategy_registry,
}
use mach.Strategy.Registry.Exclusive.{
  Run, loops_of, at_symbol, drop_id_self, loops_of-without, strategy_stop-IsExclusive,
  Run-IsExclusive,
}

without_idle :
    (s : Text) (id : ℕ) (live : List (Text × ℕ))
    → loops_of s live ≡ []
    → loops_of s (without id live) ≡ []
without_idle s id live h = rw (loops_of-without s id live, h) refl

stop_idle :
    (s : Text) (o : Option ℕ) (live : List (Text × ℕ))
    → loops_of s live ≡ []
    → loops_of s (elim o [ none ↦ live | some id ↦ without id live ]) ≡ []
stop_idle s none live h = h
stop_idle s (some id) live h = without_idle s id live h

module _ {ℓ} {F : Type ℓ} ⦃fl : Float F⦄ where
  strategy_stop_clears :
      (symbol : Text) (p : Process F) → lookup symbol (strategy_stop symbol p).0.active ≡ none
  unfolding strategy_stop get_runner remove_runner stop
  strategy_stop_clears symbol p = elim (Option-cases (lookup symbol p.active)) [
    | inl absent ↦ rw (strategy_stop, absent) absent
    | inr (e, here) ↦
        rw (strategy_stop, here, lookup-discard symbol symbol p.active, eq_text_refl symbol) refl
  ]

  start_known_loops :
      (symbol strategy : Text) (capital : F) (p : Process F) (s : Strategy F)
      → lookup strategy strategy_registry ≡ some s
      → lookup symbol p.active ≡ none
      → loops_of symbol p.live ≡ []
      → ((strategy_start symbol strategy capital p).1 ≡ answer symbol)
        × (loops_of symbol (strategy_start symbol strategy capital p).0.live ≡ p.started ∷ [])
  unfolding strategy_start get_runner start_known start set_runner
  start_known_loops symbol strategy capital p s known absent idle =
      rw (strategy_start, absent, known) (refl, rw (eq_text_refl symbol, idle) refl)

  -- In every state that a run reaches, for every symbol, registered or not: after a stop request
  -- the symbol has no loop, and a start request with a strategy of the registry is then accepted
  -- and leaves it with one new loop.
  pub strategy_start-strategy_stop :
      (symbol strategy : Text) (capital : F) (s : Strategy F) {p : Process F}
      → Run p
      → lookup strategy strategy_registry ≡ some s
      → let q = (strategy_stop symbol p).0 in
        let r = strategy_start symbol strategy capital q in
        (loops_of symbol q.live ≡ [])
        × (r.1 ≡ answer symbol)
        × (loops_of symbol r.0.live ≡ q.started ∷ [])
  strategy_start-strategy_stop symbol strategy capital s {p} run known =
      let q = (strategy_stop symbol p).0 in
      let gone = strategy_stop_clears symbol p in
      let idle =
        (at_symbol symbol symbol q gone (eq_text_refl symbol)
          (strategy_stop-IsExclusive symbol p (Run-IsExclusive run))).1 in
      let (accepted, one) = start_known_loops symbol strategy capital q s known gone idle in
      (idle, accepted, one)

  -- What may happen until the symbol is stopped: start requests for any symbol, stop requests for
  -- others, and the steps of loops.
  pub data Unstopped (symbol : Text) (p : Process F) : Process F → Type ℓ where
    rest : Unstopped symbol p p
    asked :
        {q : Process F} (other strategy : Text) (capital : F)
        → Unstopped symbol p q
        → Unstopped symbol p (strategy_start other strategy capital q).0
    stopped :
        {q : Process F} (other : Text)
        → eq_text symbol other ≡ false
        → Unstopped symbol p q
        → Unstopped symbol p (strategy_stop other q).0
    begun :
        {q : Process F} (other : Text) (e : Entry F)
        → lookup other q.active ≡ some e
        → Unstopped symbol p q
        → Unstopped symbol p (begin_loop other e q)
    rounded :
        {q : Process F} (other : Text) (e : Entry F) (snap : Raises (Option (Snapshot F)))
        → lookup other q.active ≡ some e
        → Unstopped symbol p q
        → Unstopped symbol p (loop_round other e snap q)

  -- A symbol that is registered and has no loop.
  record IsDead (s : Text) (p : Process F) : Type ℓ where
    entry : Entry F
    here : lookup s p.active ≡ some entry
    idle : loops_of s p.live ≡ []

  IsDead-start :
      (s other strategy : Text) (capital : F) (p : Process F)
      → IsDead s p
      → IsDead s (strategy_start other strategy capital p).0
  unfolding strategy_start get_runner start_known set_runner start
  IsDead-start s other strategy capital p d = elim (Option-cases (lookup other p.active)) [
    | inr (e, there) ↦ rw (strategy_start, there) d
    | inl absent ↦ elim (Option-cases (lookup strategy (strategy_registry {F = F}))) [
      | inl unknown ↦ rw (strategy_start, absent, unknown) d
      | inr (strat, known) ↦ elim (Bool-cases (eq_text s other)) [
        | inl e ↦ absurd (
            let same = eq-eq_text s other e in
            let h = d.here in let h' = rw (same, absent) at h in cc)
        | inr e ↦
            rw (strategy_start, absent, known)
              (record {
                entry = d.entry;
                here = rw (lookup-store s other _ p.active, e) d.here;
                idle = rw e d.idle;
              })
      ]
    ]
  ]

  IsDead-stop :
      (s other : Text) (p : Process F)
      → eq_text s other ≡ false
      → IsDead s p
      → IsDead s (strategy_stop other p).0
  unfolding strategy_stop get_runner remove_runner stop
  IsDead-stop s other p apart d = elim (Option-cases (lookup other p.active)) [
    | inl absent ↦ rw (strategy_stop, absent) d
    | inr (e, there) ↦
        rw (strategy_stop, there)
          (record {
            entry = d.entry;
            here = rw (lookup-discard s other p.active, apart) d.here;
            idle = stop_idle s (lookup other p.tasks) p.live d.idle;
          })
  ]

  registered_store :
      (s other : Text) (e : Entry F) (p : Process F)
      → IsDead s p
      → (e' : Entry F) × (lookup s (store other e p.active) ≡ some e')
  registered_store s other e p d = elim (Bool-cases (eq_text s other)) [
    | inl same ↦ (e, rw (lookup-store s other e p.active, same) refl)
    | inr apart ↦ (d.entry, rw (lookup-store s other e p.active, apart) d.here)
  ]

  IsDead-begin :
      (s other : Text) (e : Entry F) (p : Process F) → IsDead s p → IsDead s (begin_loop other e p)
  unfolding begin_loop set_runner
  IsDead-begin s other e p d =
      let (e', h) = registered_store s other _ p d in record { entry = e'; here = h; idle = d.idle }

  IsDead-round :
      (s other : Text) (e : Entry F) (snap : Raises (Option (Snapshot F))) (p : Process F)
      → IsDead s p
      → IsDead s (loop_round other e snap p)
  unfolding loop_round set_runner
  IsDead-round s other e snap p d = elim (Raises-cases (snap >>= run_once e.runner)) [
    | inl (out, ran) ↦
        let (e', h) = registered_store s other _ p d in
        rw (loop_round, ran) (record { entry = e'; here = h; idle = d.idle })
    | inr (x, bad) ↦
        let (e', h) = registered_store s other _ p d in
        rw (loop_round, bad)
          (record { entry = e'; here = h; idle = without_idle s e.id p.live d.idle })
  ]

  Unstopped-IsDead : {s : Text} {p q : Process F} → IsDead s p → Unstopped s p q → IsDead s q
  Unstopped-IsDead d rest = d
  Unstopped-IsDead {s = s} d (asked {q = q} other strategy capital u) =
      IsDead-start s other strategy capital q (Unstopped-IsDead d u)
  Unstopped-IsDead {s = s} d (stopped {q = q} other apart u) =
      IsDead-stop s other q apart (Unstopped-IsDead d u)
  Unstopped-IsDead {s = s} d (begun {q = q} other e h u) =
      IsDead-begin s other e q (Unstopped-IsDead d u)
  Unstopped-IsDead {s = s} d (rounded {q = q} other e snap h u) =
      IsDead-round s other e snap q (Unstopped-IsDead d u)

  loop_round-IsDead :
      (symbol : Text) (snap : Raises (Option (Snapshot F))) (e : Entry F) (x : Exception)
      {p : Process F}
      → Run p
      → lookup symbol p.active ≡ some e
      → (snap >>= run_once e.runner) ≡ raised x
      → IsDead symbol (loop_round symbol e snap p)
  unfolding loop_round set_runner
  loop_round-IsDead symbol snap e x {p} run here fails =
      let mine = at_symbol symbol symbol p here (eq_text_refl symbol) (Run-IsExclusive run) in
      rw (loop_round, fails)
        (record {
          entry = record e { running = false };
          here = rw (lookup-store symbol symbol _ p.active, eq_text_refl symbol) refl;
          idle = rw (loops_of-without symbol e.id p.live) (drop_id_self e.id _ mine.1);
        })

  -- After a round of a registered loop that raises, and then any sequence of start requests, of stop
  -- requests for other symbols and of steps of loops: the symbol has no loop, and a start request
  -- for it, with any strategy and capital, changes nothing and is answered by status 409.
  pub strategy_start-loop_round :
      (symbol strategy : Text) (capital : F) (snap : Raises (Option (Snapshot F))) (e : Entry F)
      (x : Exception) {p q : Process F}
      → Run p
      → lookup symbol p.active ≡ some e
      → (snap >>= run_once e.runner) ≡ raised x
      → Unstopped symbol (loop_round symbol e snap p) q
      → (loops_of symbol q.live ≡ [])
        × (strategy_start symbol strategy capital q ≡ (q, http_error 409))
  unfolding strategy_start get_runner
  strategy_start-loop_round symbol strategy capital snap e x run here fails u =
      let d = Unstopped-IsDead (loop_round-IsDead symbol snap e x run here fails) u in
      (d.idle, rw (strategy_start, d.here) refl)
