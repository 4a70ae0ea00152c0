-- ===== src/Strategy/Registry.antt =====
-- swaram/agents/loop.py: the loops and the registry of runners; apps/api/routes/strategy.py: the
-- routes that start and stop them. A runner is known by its number, in the order of creation, and
-- so is the task of its loop. Intervals and the times of answers are left out.
pub mod Exclusive
pub mod Requests
mod Tests
use mach.Prelude.{
  ℕ, ◌+◌, Bool, true, false, List, [], ◌∷◌, Option, none, some, Raises, ok, raised, ◌>>=◌, ◌==◌,
  if◌then◌else◌,
}
use mach.Text.{Text, codes}
use mach.Dict.{lookup, store, discard}
use mach.Float.{Float}
use mach.Api.{Response, answer, http_error, answer_of}
use mach.Strategy.{Strategy, momentum, mean_reversion}
use mach.Strategy.Runner.{
  Snapshot, StrategyRunner, Answer, RunnerStatus, new_runner, run_once, runner_status,
}

-- A runner that the registry holds: `running` is its flag `_running`.
pub record Entry {ℓ} (F : Type ℓ) : Type ℓ where
  pub id : ℕ
  pub running : Bool
  pub runner : StrategyRunner F

pub record Process {ℓ} (F : Type ℓ) : Type ℓ where
  -- `_active_runners`
  pub active : List (Text × Entry F)
  -- `_running_loops`, by the number of a task
  pub tasks : List (Text × ℕ)
  -- The loops that have neither ended nor been cancelled, each with its symbol.
  pub live : List (Text × ℕ)
  -- How many runners were started.
  pub started : ℕ

pub data StrategyStatus {ℓ} (F : Type ℓ) : Type ℓ where
  no_loop : StrategyStatus F
  loop_status : Bool → RunnerStatus F → StrategyStatus F

-- A loop that is cancelled or ends.
pub without : ℕ → List (Text × ℕ) → List (Text × ℕ)
without id [] = []
without id ((s, i) ∷ live) = let rest = without id live in if id == i then rest else (s, i) ∷ rest

module _ {ℓ} {F : Type ℓ} ⦃fl : Float F⦄ where
  open fl use {decimal}

  -- `STRATEGY_REGISTRY`
  pub strategy_registry : List (Text × Strategy F)
  strategy_registry =
      (codes "momentum", momentum (decimal 35 0) (decimal 65 0))
      ∷ (codes "mean_reversion", mean_reversion)
      ∷ []

  pub get_runner : Text → Process F → Option (Entry F)
  get_runner symbol p = lookup symbol p.active

  pub set_runner : Text → Entry F → Process F → Process F
  set_runner symbol e p = record p { active = store symbol e p.active }

  pub remove_runner : Text → Process F → Process F
  remove_runner symbol p = record p { active = discard symbol p.active }

  -- `StrategyRunner.start`, of a new runner
  pub start : Text → ℕ → Process F → Process F
  start symbol id p = record p {
    tasks = store symbol id p.tasks;
    live = (symbol, id) ∷ p.live;
    started = p.started + 1;
  }

  -- `StrategyRunner.stop`: the registry drops the runner, and its flag, right after.
  pub stop : Text → Process F → Process F
  unfolding without
  stop symbol p = record p {
    tasks = discard symbol p.tasks;
    live = elim (lookup symbol p.tasks) [ none ↦ p.live | some id ↦ without id p.live ];
  }

  -- The rest of `strategy_start`, for a known strategy.
  pub start_known : Text → Strategy F → F → Process F → Process F
  unfolding set_runner start
  start_known symbol strat capital p =
      let e : Entry F = record {
        id = p.started;
        running = false;
        runner = new_runner strat capital;
      } in
      start symbol p.started (set_runner symbol e p)

  pub strategy_start : Text → Text → F → Process F → Process F × Response Text
  unfolding get_runner start_known strategy_registry
  strategy_start symbol strategy capital p = elim (get_runner symbol p) [
    | some e ↦ (p, http_error 409)
    | none ↦ elim (lookup strategy strategy_registry) [
      | none ↦ (p, http_error 400)
      | some strat ↦ (start_known symbol strat capital p, answer symbol)
    ]
  ]

  pub strategy_stop : Text → Process F → Process F × Response Text
  unfolding get_runner remove_runner stop
  strategy_stop symbol p = elim (get_runner symbol p) [
    | none ↦ (p, http_error 404)
    | some e ↦ (remove_runner symbol (stop symbol p), answer symbol)
  ]

  pub strategy_status : Text → Process F → StrategyStatus F
  unfolding get_runner
  strategy_status symbol p = elim (get_runner symbol p) [
    | none ↦ no_loop
    | some e ↦ loop_status e.running (runner_status e.runner)
  ]

  -- One cycle of a runner that is not registered.
  pub strategy_run_once : Text → F → Option (Snapshot F) → Response (Answer F)
  unfolding strategy_registry
  strategy_run_once strategy capital snap = elim (lookup strategy strategy_registry) [
    | none ↦ http_error 400
    | some strat ↦ answer_of (do out ← run_once (new_runner strat capital) snap; ok out.1)
  ]

  -- `_loop`, up to its first cycle.
  pub begin_loop : Text → Entry F → Process F → Process F
  unfolding set_runner
  begin_loop symbol e p = set_runner symbol (record e { running = true }) p

  -- One round of `_loop`, given what Redis answers or raises. A cycle that raises ends the loop, which resets its flag; the registry
  -- and the table of tasks keep their entries.
  pub loop_round : Text → Entry F → Raises (Option (Snapshot F)) → Process F → Process F
  unfolding set_runner without
  loop_round symbol e snap p = elim (snap >>= run_once e.runner) [
    | ok out ↦ set_runner symbol (record e { runner = out.0 }) p
    | raised x ↦ record (set_runner symbol (record e { running = false }) p) {
      live = without e.id p.live;
    }
  ]
