-- ===== src/Manager/Startup.antt =====
-- When the process of cmd/main.go returns, and how it ends otherwise.
use build_operator.Prelude.{ℕ, String, ◌≡◌, ◌⊎◌, ◌↔◌, inl, inr, refl, List}
use build_operator.Error.{Error}
use build_operator.Exec.{Result, ok, err, Exec, unless_err, ◌>>=◌}
use build_operator.Manager.{
  ApiGroup, Flags, Parsed, parsed, stopped, with_flags, Options, Platform, Exit, returned, exited,
  panicked, default_flags, registration, options_of, init_scheme, unless_failed, or_exit,
  setup_with_manager, start_manager, run, ended, main_with, main_from, main,
}

-- A sequence that succeeds, as its two steps.
unless_err_iff :
    {S A B : Type 0} (f : A → Exec S B) (r : Result A × S) (b : B) (t : S)
    → (unless_err f r ≡ (ok b, t)) ↔ ((a : A) × (u : S) × (r ≡ (ok a, u)) × (f a u ≡ (ok b, t)))
unless_err_iff f (ok a, s) b t = (λ h. (a, s, refl, h), λ (a', u, e, h). cc)
unless_err_iff f (err e, s) b t = (λ h. cc, λ (a', u, e', h). cc)

bind_iff :
    {S A B : Type 0} (m : Exec S A) (f : A → Exec S B) (s : S) (b : B) (t : S)
    → ((m >>= f) s ≡ (ok b, t)) ↔ ((a : A) × (u : S) × (m s ≡ (ok a, u)) × (f a u ≡ (ok b, t)))
unfolding ◌>>=◌
bind_iff m f s b t = unless_err_iff f (m s) b t

module _ (P : Platform) where
  unless_failed_iff :
      {A : Type 0} (message : String) (r : Result A × P.State) (a : A) (t : P.State)
      → (unless_failed P message r ≡ (ok a, t)) ↔ (r ≡ (ok a, t))
  unfolding unless_failed
  unless_failed_iff message (ok b, s) a t = (λ h. h, λ h. h)
  unless_failed_iff message (err e, s) a t = (λ h. cc, λ h. cc)

  or_exit_iff :
      {A : Type 0} (message : String) (call : Exec P.State A) (s : P.State) (a : A) (t : P.State)
      → (or_exit P message call s ≡ (ok a, t)) ↔ (call s ≡ (ok a, t))
  unfolding or_exit
  or_exit_iff message call s a t = unless_failed_iff message (call s) a t

  -- Every step of the start has succeeded, in this order, and the manager has run to its end.
  pub record IsUp (options : Options) (s t : P.State) : Type 0 where
    pub config : P.Config
    pub manager : P.Manager
    pub read : P.State
    pub made : P.State
    pub completed : P.State
    pub healthy : P.State
    pub ready : P.State
    pub configured : P.get_config s ≡ (ok config, read)
    pub managed : P.new_manager config options read ≡ (ok manager, made)
    pub registered : P.complete manager registration made ≡ (ok tt, completed)
    pub health : P.add_healthz_check manager "healthz" completed ≡ (ok tt, healthy)
    pub readiness : P.add_readyz_check manager "readyz" healthy ≡ (ok tt, ready)
    pub served : P.start manager (P.info "starting manager" ready) ≡ (ok tt, t)

  run-IsUp : (options : Options) (s t : P.State) → run P options s ≡ (ok tt, t) → IsUp options s t
  unfolding run setup_with_manager start_manager
  run-IsUp options s t h =
      let (config, read, e1, h1) = (bind_iff _ _ s tt t).0 h in
      let (manager, made, e2, h2) = (bind_iff _ _ read tt t).0 h1 in
      let (_, completed, e3, h3) = (bind_iff _ _ made tt t).0 h2 in
      let (_, healthy, e4, h4) = (bind_iff _ _ completed tt t).0 h3 in
      let (_, ready, e5, h5) = (bind_iff _ _ healthy tt t).0 h4 in
      record {
        config = config;
        manager = manager;
        read = read;
        made = made;
        completed = completed;
        healthy = healthy;
        ready = ready;
        configured = e1;
        managed =
            (or_exit_iff "unable to start manager" (P.new_manager config options) read _ _).0 e2;
        registered =
            (or_exit_iff "unable to create controller" (setup_with_manager P manager) made _ _).0
              e3;
        health =
            (or_exit_iff "unable to set up health check" (P.add_healthz_check manager "healthz")
                completed _ _).0
              e4;
        readiness =
            (or_exit_iff "unable to set up ready check" (P.add_readyz_check manager "readyz")
                healthy _ _).0
              e5;
        served = (or_exit_iff "problem running manager" (start_manager P manager) ready _ _).0 h5;
      }

  IsUp-run : (options : Options) (s t : P.State) → IsUp options s t → run P options s ≡ (ok tt, t)
  unfolding run or_exit unless_failed setup_with_manager start_manager ◌>>=◌
  IsUp-run options s t up =
      rw (up.configured, up.managed, up.registered, up.health, up.readiness, up.served) refl

  ended_iff :
      (r : Result (Unit {0}) × P.State) (t : P.State)
      → (ended P r ≡ (returned, t)) ↔ (r ≡ (ok tt, t))
  unfolding ended
  ended_iff (ok tt, s) t = (λ h. cc, λ h. cc)
  ended_iff (err e, s) t = (λ h. cc, λ h. cc)

  -- The options and the state from which the manager is started.
  abbrev pub IsStarted : List ApiGroup → P.State → P.State → Type 0
  IsStarted scheme s t =
      (flags : Flags) × (read : P.State) × (P.parse_flags default_flags s ≡ (parsed flags, read))
      × IsUp (options_of scheme flags) (P.set_logger read) t

  -- The command line has ended the process, in this state.
  abbrev pub IsStopped : ℕ → P.State → P.State → Type 0
  IsStopped code s u = P.parse_flags default_flags s ≡ (stopped code, u)

  with_flags_iff :
      (scheme : List ApiGroup) (r : Parsed × P.State) (t : P.State)
      → (with_flags P scheme r ≡ (returned, t)) ↔ (
          (flags : Flags) × (read : P.State) × (r ≡ (parsed flags, read))
          × IsUp (options_of scheme flags) (P.set_logger read) t)
  unfolding with_flags
  with_flags_iff scheme (parsed flags, read) t =
      let begin = P.set_logger read in
      let (there, back) = ended_iff (run P (options_of scheme flags) begin) t in
      (
        λ h. (flags, read, refl, run-IsUp (options_of scheme flags) begin t (there h)),
        λ (others, other, e, up).
            let (same, at) = parsed_same flags others read other e in
            back (IsUp-run (options_of scheme flags) begin t (rw (same, at) up)),
      )
    where
      parsed_same :
          (flags others : Flags) (read other : P.State)
          → ◌≡◌ {A = Parsed × P.State} (parsed flags, read) (parsed others, other)
          → (flags ≡ others) × (read ≡ other)
      parsed_same flags others read other e = (cc, cc)
  with_flags_iff scheme (stopped code, read) t = (λ h. cc, λ (flags, other, e, up). cc)

  -- Without a panic: the process returns, or exits with 1, or with the code of the command line.
  abbrev Exits : P.State → Exit × P.State → Type 0
  Exits s end =
      (end.0 ≡ returned)
      ⊎ ((end.0 ≡ exited 1)
          ⊎ ((code : ℕ) × (u : P.State) × IsStopped code s u × (end ≡ (exited code, u))))

  ended-Exits : (s : P.State) (r : Result (Unit {0}) × P.State) → Exits s (ended P r)
  unfolding ended
  ended-Exits s (ok done, u) = inl refl
  ended-Exits s (err e, u) = inr (inl refl)

  exit_with :
      (scheme : List ApiGroup) (s : P.State) (r : Parsed × P.State)
      → P.parse_flags default_flags s ≡ r
      → Exits s (with_flags P scheme r)
  unfolding with_flags
  exit_with scheme s (parsed flags, u) e =
      ended-Exits s (run P (options_of scheme flags) (P.set_logger u))
  exit_with scheme s (stopped code, u) e = inr (inr (code, u, e, refl))

  -- How the process ends after `init`, and when it returns.
  abbrev Ends : Result (List ApiGroup) → P.State → P.State → Exit × P.State → Type 0
  Ends r s t end =
      ((end ≡ (returned, t)) ↔ ((scheme : List ApiGroup) × (r ≡ ok scheme) × IsStarted scheme s t))
      × (Exits s end ⊎ ((e : Error) × (r ≡ err e) × (end ≡ (panicked e, s))))

  main_from-Ends : (r : Result (List ApiGroup)) (s t : P.State) → Ends r s t (main_from P s r)
  unfolding main_from main_with
  main_from-Ends (err e) s t = ((λ h. cc, λ (scheme, h, up). cc), inr (e, refl, refl))
  main_from-Ends (ok scheme) s t =
      let (there, back) = with_flags_iff scheme (P.parse_flags default_flags s) t in
      (
        (λ h. (scheme, refl, there h), λ (other, e, up). back (rw (ok_same other e) up)),
        inl (exit_with scheme s (P.parse_flags default_flags s) refl),
      )
    where
      ok_same : (other : List ApiGroup) → ok scheme ≡ ok other → scheme ≡ other
      ok_same other e = cc

  -- The process returns exactly if the scheme has its three groups, the command line is read, and
  -- the configuration, the manager with the options of the command line, the controller, both checks
  -- and the run of the manager succeed, each after the one before. Otherwise it exits with 1, or with
  -- the code with which the reading of the command line ends it, in the state of that reading and so
  -- without a further call, or it panics with the error of the scheme.
  pub main_iff :
      (s t : P.State)
      → ((main P s ≡ (returned, t))
          ↔ ((scheme : List ApiGroup) × (init_scheme P ≡ ok scheme) × IsStarted scheme s t))
        × (((main P s).0 ≡ returned)
            ⊎ ((main P s).0 ≡ exited 1)
            ⊎ ((code : ℕ) × (u : P.State) × IsStopped code s u × (main P s ≡ (exited code, u)))
            ⊎ ((e : Error) × (init_scheme P ≡ err e) × (main P s ≡ (panicked e, s))))
  unfolding main
  main_iff s t =
      let (returns, ends) = main_from-Ends (init_scheme P) s t in
      (
        returns,
        elim ends [
          | inl (inl h) ↦ inl h
          | inl (inr (inl h)) ↦ inr (inl h)
          | inl (inr (inr h)) ↦ inr (inr (inl h))
          | inr h ↦ inr (inr (inr h))
        ],
      )
