-- ===== src/Tests/Processes.antt =====
-- Starts of the process on a platform that notes each call, where one call fails.
use build_operator.Prelude.{
  ℕ, String, ◌==◌, ◌≡◌, ◌⊎◌, ◌↔◌, ◌++◌, List, [], ◌∷◌, refl, if◌then◌else◌,
}
use build_operator.Error.{Error, failure}
use build_operator.Exec.{ok, err, Exec, ◌>>=◌}
use build_operator.Manager.{
  stopped, parsed, ApiGroup, Platform, returned, exited, panicked, init_scheme, main,
}
use build_operator.Manager.Startup.{IsStarted, IsStopped, main_iff}

-- Every call succeeds, but the one of the name.
noted : String → String → Exec (List String) (Unit {0})
noted broken name s = if name == broken then (err (failure name), s) else (ok tt, name ∷ s)

abbrev platform : String → Platform
platform broken = record {
  State = List String;
  Config = Unit {0};
  Manager = Unit {0};
  add_to_scheme = λ group scheme. ok (scheme ++ (group ∷ []));
  parse_flags = λ flags s. if broken == "flags" then (stopped 2, s) else (parsed flags, s);
  set_logger = λ s. s;
  get_config = noted broken "config";
  new_manager = λ config options. noted broken "manager";
  complete = λ mgr registration. noted broken "controller";
  add_healthz_check = λ mgr name. noted broken name;
  add_readyz_check = λ mgr name. noted broken name;
  start = λ mgr. noted broken "start";
  info = λ message s. s;
  log_error = λ e message s. message ∷ s;
}

abbrev calls : List String
calls = "start" ∷ "readyz" ∷ "healthz" ∷ "controller" ∷ "manager" ∷ "config" ∷ []

runs : main (platform "") [] ≡ (returned, calls)
unfolding main noted ◌>>=◌
runs = refl

breaks :
    main (platform "healthz") []
    ≡ (exited 1, "unable to set up health check" ∷ "controller" ∷ "manager" ∷ "config" ∷ [])
unfolding main noted ◌>>=◌
breaks = refl

misspelt : main (platform "flags") [] ≡ (exited 2, [])
unfolding main
misspelt = refl

main_iff_example :
    ((main (platform "") [] ≡ (returned, calls)) ↔ (
      (scheme : List ApiGroup) × (init_scheme (platform "") ≡ ok scheme)
      × IsStarted (platform "") scheme [] calls))
    × (((main (platform "") []).0 ≡ returned)
        ⊎ ((main (platform "") []).0 ≡ exited 1)
        ⊎ ((code : ℕ) × (u : List String) × IsStopped (platform "") code [] u
            × (main (platform "") [] ≡ (exited code, u)))
        ⊎ ((e : Error) × (init_scheme (platform "") ≡ err e)
            × (main (platform "") [] ≡ (panicked e, []))))
main_iff_example = main_iff (platform "") [] calls
