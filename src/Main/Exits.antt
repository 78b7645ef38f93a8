-- ===== src/Main/Exits.antt =====
-- When the program ends well.
use goxo.Base.{
  ◌≡◌, ◌≢◌, refl, sym, ◌∙◌, ◌⊎◌, ◌↔◌, inl, inr, arith, none, some, [], ok, Result-cases,
}
use goxo.Bus.Transport.{cancelled, consume}
use goxo.Config.{Config}
use goxo.Settings.{Settings}
use goxo.Manifest.{Manifest}
use goxo.Overlay.{load_config}
use goxo.Engine.Assembly.{in_selectors, bus_config}
use goxo.Engine.Running.{Exit, load_codec}
use goxo.Engine.Release.{SetUp, run_clean_iff}
use goxo.Main.{
  Machine, load_settings, load_manifest, engine_params, run_engine, engine_exit, run, exit_code,
  main,
}

engine_exit_clean : (x : Exit) → (exit_code (engine_exit x) ≡ some 0) ↔ (x ≡ Exit.returned none)
unfolding exit_code engine_exit
engine_exit_clean (Exit.returned none) = (λ _. refl, λ _. refl)
engine_exit_clean (Exit.returned (some e)) = ground arith
engine_exit_clean Exit.running = ground arith

-- What the three files hold, where they load.
pub record Loads (k : Machine) (s : Settings) (m : Manifest) (c : Config) : Type 0 where
  pub settings : load_settings k ≡ ok s
  pub manifest : load_manifest k ≡ ok m
  pub config : load_config k.yaml k.parse_duration k.env k.read_file ≡ ok c

loaded_main :
    (k : Machine) (s : Settings) (m : Manifest) (c : Config)
    → Loads k s m c
    → main k ≡ exit_code (engine_exit (run_engine k s m c).1)
unfolding main
loaded_main k s m c l = rw (l.settings, run) (rw (l.manifest) (rw (l.config) refl))

main-Loads :
    (k : Machine) → main k ≡ some 0 → (s : Settings) × (m : Manifest) × (c : Config) × Loads k s m c
unfolding main
main-Loads k h = elim (Result-cases (load_settings k)) [
  | inr (e, q) ↦ absurd (ground (arith, h, q))
  | inl (s, q) ↦ elim (Result-cases (load_manifest k)) [
    | inr (e, q') ↦ absurd (ground (arith, h, q, q'))
    | inl (m, q') ↦ elim (Result-cases (load_config k.yaml k.parse_duration k.env k.read_file)) [
      | inr (e, q'') ↦ absurd (ground (arith, h, q, q', q''))
      | inl (c, q'') ↦ (s, m, c, record { settings = q; manifest = q'; config = q'' })
    ]
  ]
]

-- The program exits with 0 exactly when the settings, the agent definition and the configuration
-- load, the engine finds all that it needs (a name, a handler, a descriptor set that loads, arguments
-- that decode, a bus that connects and an address to listen on), and then the agent has no input
-- selectors, or the consumer was ended by the cancelled context.
pub main_clean_iff :
    (k : Machine)
    → (main k ≡ some 0) ↔ (
        (s : Settings) × (m : Manifest) × (c : Config) × Loads k s m c
        × SetUp k.world
            (load_codec k.protobuf k.read_file (engine_params k c).fdset_path)
            m
            s
            (engine_params k c)
        × ((in_selectors s m ≡ [])
            ⊎ ((in_selectors s m ≢ [])
                × ((consume k.world.answer
                      (bus_config m s (engine_params k c))
                      k.world.handle
                      k.world.arriving).1
                    ≡ some cancelled))))
unfolding run_engine
main_clean_iff k = (
  λ h.
      let (s, m, c, l) = main-Loads k h in
      let ended = (engine_exit_clean (run_engine k s m c).1).0 (sym (loaded_main k s m c l) ∙ h) in
      let (up, last) = (run_clean_iff k.world _ m s (engine_params k c)).0 ended in
      (s, m, c, l, up, last),
  λ (s, m, c, l, up, last).
      loaded_main k s m c l
      ∙ (engine_exit_clean (run_engine k s m c).1).1
          ((run_clean_iff k.world _ m s (engine_params k c)).1 (up, last)),
)
