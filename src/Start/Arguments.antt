-- ===== src/Start/Arguments.antt =====
-- happy.cpp, `main`: the option `-f`.
use new_happy_server.Base.{
  ℕ, ◌≡◌, refl, sym, inl, inr, true, false, List, [], ◌∷◌, Bool-cases, Option-cases, arith,
}
use new_happy_server.Base.Texts.{codes}
use new_happy_server.Config.Load.{is_empty}
use new_happy_server.Router.{same_name}
use new_happy_server.Start.{
  System, Options, default_options, is_option, parse_args, start_options, main, outcome,
}

module _ (sys : System) where
  start-same :
      (o : Options) (file : List ℕ)
      → is_empty o.service_file ≡ false
      → is_empty file ≡ false
      → start_options sys o ≡ start_options sys (record o { service_file = file })
  unfolding start_options
  start-same o file h h' = rw (h, h') refl

  outcome-same :
      (args : List (List ℕ)) (o : Options) (file : List ℕ)
      → is_empty o.service_file ≡ false
      → is_empty file ≡ false
      → outcome sys (parse_args sys args o)
        ≡ outcome sys (parse_args sys args (record o { service_file = file }))
  unfolding parse_args
  outcome-same [] o file h h' = start-same o file h h'
  outcome-same (v ∷ []) o file h h' = refl
  outcome-same (v ∷ (w ∷ rest)) o file h h' =
      elim (Bool-cases (is_option v (codes "-h") (codes "--help"))) [
        | inl help ↦ rw help refl
        | inr no_help ↦ elim (Bool-cases (is_option v (codes "-c") (codes "--config"))) [
          | inl conf ↦ elim (Option-cases (sys.status w)) [
            | inl fails ↦ rw (no_help, conf, fails) refl
            | inr (found, e) ↦ elim (Bool-cases found) [
              | inl there ↦
                  rw (no_help, conf, e, there) (outcome-same rest (record o { conf = w }) file h h')
              | inr missing ↦ rw (no_help, conf, e, missing) refl
            ]
          ]
          | inr no_conf ↦ elim (Bool-cases (is_option v (codes "-r") (codes "--run"))) [
            | inl run ↦ elim (Option-cases (sys.to_int w)) [
              | inl fails ↦ rw (no_help, no_conf, run, fails) refl
              | inr (sid, e) ↦
                  rw (no_help, no_conf, run, e)
                    (outcome-same rest (record o { sid = sid }) file h h')
            ]
            | inr no_run ↦ rw (no_help, no_conf, no_run) refl
          ]
        ]
      ]

  -- `-f` with a Lua file in front of other arguments changes nothing: the program comes to what it comes
  -- to without them, if the empty path does not have the extension ".lua".
  pub main-file :
      (file : List ℕ) (rest : List (List ℕ))
      → same_name (sys.extension file) (codes ".lua") ≡ true
      → same_name (sys.extension []) (codes ".lua") ≡ false
      → main sys (codes "-f" ∷ (file ∷ rest)) ≡ main sys rest
  unfolding main parse_args
  main-file [] rest lua no_lua = ground arith
  main-file (x ∷ xs) rest lua no_lua =
      rw lua (sym (outcome-same rest default_options (x ∷ xs) refl refl))
