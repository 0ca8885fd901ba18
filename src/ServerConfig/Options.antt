-- ===== src/ServerConfig/Options.antt =====
-- What the options of server_config.c come to.
use oserver.Prelude.{ℕ, ◌≡◌, refl, ap, ◌∙◌, Option, none, some, List, [], ◌∷◌, ℤ, pos}
use oserver.ServerConfig.{
  Opt, opt_port, opt_root, opt_help, Texts, Read, read_port, read_root, read_options, final_port,
  final_root, finish, server_config_read,
}

-- No option asks for help.
abbrev pub NoHelp : List Opt → Type 0
NoHelp [] = Unit
NoHelp (opt_help ∷ opts) = ⊥
NoHelp (opt_port t ∷ opts) = NoHelp opts
NoHelp (opt_root t ∷ opts) = NoHelp opts

-- The argument of the last option of a kind, behind an earlier one.
abbrev pub last_port : Option (List ℕ) → List Opt → Option (List ℕ)
last_port before [] = before
last_port before (opt_port t ∷ opts) = last_port (some t) opts
last_port before (opt_root t ∷ opts) = last_port before opts
last_port before (opt_help ∷ opts) = last_port before opts

module _ (texts : Texts) where
  -- The path of the last root that exists, behind `before`.
  abbrev pub last_root : List ℕ → List Opt → List ℕ
  last_root before [] = before
  last_root before (opt_port t ∷ opts) = last_root before opts
  last_root before (opt_help ∷ opts) = last_root before opts
  last_root before (opt_root t ∷ opts) =
      last_root (elim (texts.realpath t) [ none ↦ before | some path ↦ path ]) opts

  -- A number with nothing behind it, or 8080.
  abbrev whole_number : ℤ × List ℕ → ℤ
  whole_number (n, []) = n
  whole_number (n, c ∷ rest) = pos 8080

  -- The number, where all of the text is one.
  abbrev pub port_of : Option (List ℕ) → ℤ
  port_of none = pos 8080
  port_of (some t) = whole_number (texts.strtol t)

  -- A path, or the working directory where it is empty.
  abbrev pub or_working_directory : List ℕ → List ℕ
  or_working_directory [] = texts.getcwd
  or_working_directory (c ∷ path) = c ∷ path

  -- What has been read agrees with the last argument for the port.
  abbrev Agrees : Read → Option (List ℕ) → Type 0
  Agrees r none = r.tmp ≡ none
  Agrees r (some t) = (r.port ≡ (texts.strtol t).0) × (r.tmp ≡ some (texts.strtol t).1)

  root_of :
      (r : Read) (o : Option (List ℕ))
      → (read_root texts r o).root ≡ elim o [ none ↦ r.root | some path ↦ path ]
  root_of r none = refl
  root_of r (some path) = refl

  Agrees-root :
      (r : Read) (o before : Option (List ℕ))
      → Agrees r before
      → Agrees (read_root texts r o) before
  Agrees-root r none none a = a
  Agrees-root r none (some t) a = a
  Agrees-root r (some path) none a = a
  Agrees-root r (some path) (some t) a = a

  read_options-lem :
      (opts : List Opt) (r : Read) (before : Option (List ℕ))
      → NoHelp opts
      → Agrees r before
      → (r' : Read) × (read_options texts opts r ≡ some r')
        × (r'.root ≡ last_root r.root opts)
        × Agrees r' (last_port before opts)
  unfolding read_options
  read_options-lem [] r before h a = (r, refl, refl, a)
  read_options-lem (opt_help ∷ opts) r before h a = absurd h
  read_options-lem (opt_port t ∷ opts) r before h a =
      read_options-lem opts (read_port texts r (texts.strtol t)) (some t) h (refl, refl)
  read_options-lem (opt_root t ∷ opts) r before h a =
      let found = texts.realpath t in
      let (r', answer, root, port) =
        read_options-lem opts (read_root texts r found) before h (Agrees-root r found before a) in
      (r', answer, root ∙ ap (λ (p : List ℕ). last_root p opts) (root_of r found), port)

  final_port-lem :
      (r : Read) (o : Option (List ℕ)) → Agrees r o → final_port texts r.port r.tmp ≡ port_of o
  final_port-lem r none a = ap (final_port texts r.port) a
  final_port-lem r (some t) a = (λ i. final_port texts (a.0 i) (a.1 i)) ∙ numbered (texts.strtol t)
    where
      numbered : (p : ℤ × List ℕ) → final_port texts p.0 (some p.1) ≡ whole_number p
      numbered (n, []) = refl
      numbered (n, c ∷ rest) = refl

  final_root-lem : (root : List ℕ) → final_root texts root ≡ or_working_directory root
  final_root-lem [] = refl
  final_root-lem (c ∷ root) = refl

  -- Where no option asks for help, the port is the number that the last option for it gives, or 8080
  -- where there is no such option or a text stands behind its number; the root is the path of the last
  -- root that exists, or the working directory where that is empty or there is none; whatever stood in
  -- the structure has no effect.
  pub config_read-last :
      (opts : List Opt) (port : ℤ)
      → NoHelp opts
      → server_config_read texts opts port
        ≡ some (record {
          num_regular_threads = 10;
          num_max_threads = 20;
          num_max_connections = 1024;
          port = port_of (last_port none opts);
          backlog = 50;
          stale_connection_timeout_sec = 120;
          root = or_working_directory (last_root [] opts);
        })
  unfolding server_config_read
  config_read-last opts port h =
      let (r, answer, root, agrees) =
        read_options-lem opts (record { port = port; tmp = none; root = [] }) none h refl in
      ap (finish texts) answer
      ∙ ap
          (λ (p : ℤ × List ℕ). some (record {
            num_regular_threads = 10;
            num_max_threads = 20;
            num_max_connections = 1024;
            port = p.0;
            backlog = 50;
            stale_connection_timeout_sec = 120;
            root = p.1;
          }))
          (λ i. (
            final_port-lem r (last_port none opts) agrees i,
            (ap (final_root texts) root ∙ final_root-lem (last_root [] opts)) i,
          ))
