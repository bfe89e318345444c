-- ===== src/Manager.antt =====
-- cmd/main.go, and `SetupWithManager` of internal/controller/buildkitbuilder_controller.go: how the
-- process starts.
pub mod Startup
use build_operator.Prelude.{ℕ, String, Bool, true, Option, none, some, List, [], ◌∷◌}
use build_operator.Error.{Error}
use build_operator.Exec.{Result, ok, err, Exec, ◌>>=◌, ◌>>◌}

-- The Go types that the controller is told to watch.
pub data Watched : Type 0 where
  builders pods stateful_sets services claims secrets : Watched

-- The API groups of the scheme.
pub data ApiGroup : Type 0 where
  client_go builder_hub builder_template : ApiGroup

-- The command line: `metrics-bind-address`, `health-probe-bind-address` and `leader-elect`.
pub record Flags : Type 0 where
  pub metrics_addr : String
  pub probe_addr : String
  pub enable_leader_election : Bool

-- What `flag.Parse` ends with: the flags, or `os.Exit` with 2 for a flag that it does not know or
-- cannot read, and with 0 for a request of help.
pub data Parsed : Type 0 where
  parsed : Flags → Parsed
  stopped : ℕ → Parsed

abbrev pub default_flags : Flags
default_flags = record {
  metrics_addr = ":8080";
  probe_addr = ":8081";
  enable_leader_election = true;
}

-- `ctrl.Options`
pub record Options : Type 0 where
  pub scheme : List ApiGroup
  pub metrics_bind_address : String
  pub health_probe_bind_address : String
  pub leader_election : Bool
  pub leader_election_id : String

-- What `NewControllerManagedBy` is given: `For`, and each `Owns`.
pub record Registration : Type 0 where
  pub watches : Watched
  pub owns : List Watched

-- controller-runtime, flag and zap, as far as the process calls them. `State` is all that they act
-- on.
pub record Platform : Type 1 where
  pub State : Type 0
  pub Config : Type 0
  pub Manager : Type 0
  -- `AddToScheme`, over the groups that are in the scheme
  pub add_to_scheme : ApiGroup → List ApiGroup → Result (List ApiGroup)
  -- `flag.Parse`, over the defaults
  pub parse_flags : Flags → State → Parsed × State
  pub set_logger : State → State
  -- `ctrl.GetConfig`, whose error ends the process in `GetConfigOrDie`
  pub get_config : Exec State Config
  pub new_manager : Config → Options → Exec State Manager
  -- `Complete`
  pub complete : Manager → Registration → Exec State (Unit {0})
  pub add_healthz_check : Manager → String → Exec State (Unit {0})
  pub add_readyz_check : Manager → String → Exec State (Unit {0})
  pub start : Manager → Exec State (Unit {0})
  -- `setupLog.Info` and `setupLog.Error`
  pub info : String → State → State
  pub log_error : Error → String → State → State

-- How the process ends: `main` returns, or `os.Exit` with a code, or a panic.
pub data Exit : Type 0 where
  returned : Exit
  exited : ℕ → Exit
  panicked : Error → Exit

abbrev pub leader_election_id : String
leader_election_id = "build-operator.builder-hub.dev"

-- The arguments of `For` and `Owns` in `SetupWithManager`.
abbrev pub registration : Registration
registration = record {
  watches = builders;
  owns = pods ∷ stateful_sets ∷ services ∷ claims ∷ secrets ∷ [];
}

abbrev pub options_of : List ApiGroup → Flags → Options
options_of scheme flags = record {
  scheme = scheme;
  metrics_bind_address = flags.metrics_addr;
  health_probe_bind_address = flags.probe_addr;
  leader_election = flags.enable_leader_election;
  leader_election_id = leader_election_id;
}

module _ (P : Platform) where
  -- `init`, over `runtime.NewScheme()`. `utilruntime.Must` panics with the error.
  unfoldable pub init_scheme : Result (List ApiGroup)
  init_scheme = elim (P.add_to_scheme client_go []) [
    | err e ↦ err e
    | ok first ↦ elim (P.add_to_scheme builder_hub first) [
      | err e ↦ err e
      | ok second ↦ P.add_to_scheme builder_template second
    ]
  ]

  unless_failed : {A : Type 0} → String → Result A × P.State → Result A × P.State
  unless_failed message (ok a, s) = (ok a, s)
  unless_failed message (err e, s) = (err e, P.log_error e message s)

  -- `if err != nil { setupLog.Error(err, message); os.Exit(1) }` after a call.
  unfoldable pub or_exit : {A : Type 0} → String → Exec P.State A → Exec P.State A
  unfolding unless_failed
  or_exit message call s = unless_failed message (call s)

  -- `SetupWithManager`
  unfoldable pub setup_with_manager : P.Manager → Exec P.State (Unit {0})
  setup_with_manager mgr = P.complete mgr registration

  unfoldable pub start_manager : P.Manager → Exec P.State (Unit {0})
  start_manager mgr s = P.start mgr (P.info "starting manager" s)

  -- `main`, from `NewManager` on.
  unfoldable pub run : Options → Exec P.State (Unit {0})
  unfolding or_exit setup_with_manager start_manager
  run options = do
    config ← P.get_config
    mgr ← or_exit "unable to start manager" (P.new_manager config options)
    or_exit "unable to create controller" (setup_with_manager mgr)
    or_exit "unable to set up health check" (P.add_healthz_check mgr "healthz")
    or_exit "unable to set up ready check" (P.add_readyz_check mgr "readyz")
    or_exit "problem running manager" (start_manager mgr)

  unfoldable pub ended : Result (Unit {0}) × P.State → Exit × P.State
  ended (ok done, s) = (returned, s)
  ended (err e, s) = (exited 1, s)

  -- After `flag.Parse`: the logger and the manager.
  unfoldable pub with_flags : List ApiGroup → Parsed × P.State → Exit × P.State
  unfolding run ended
  with_flags scheme (parsed flags, s) = ended (run (options_of scheme flags) (P.set_logger s))
  with_flags scheme (stopped code, s) = (exited code, s)

  -- After `init`.
  unfoldable pub main_with : List ApiGroup → P.State → Exit × P.State
  unfolding with_flags
  main_with scheme s = with_flags scheme (P.parse_flags default_flags s)

  -- `main`, where `init` has not panicked.
  unfoldable pub main_from : P.State → Result (List ApiGroup) → Exit × P.State
  unfolding main_with
  main_from s (err e) = (panicked e, s)
  main_from s (ok scheme) = main_with scheme s

  -- The process: `init`, and then `main`.
  unfoldable pub main : P.State → Exit × P.State
  unfolding init_scheme main_from
  main s = main_from s init_scheme
