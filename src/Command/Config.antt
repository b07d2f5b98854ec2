-- ===== src/Command/Config.antt =====
-- From the options to the configuration.
use dalila.Base.{ℕ, ◌≡◌, ◌≢◌, refl, Option, none, some}
use dalila.Member.{SocketAddr, Text}
use dalila.Start as Start
use dalila.Command.{StartArgs, Required, start_config}

some-of : {A : Type 0} (o : Option A) → o ≢ none → (a : A) × (o ≡ some a)
some-of none given = absurd (given refl)
some-of (some a) given = (a, refl)

some-ne : {A : Type 0} {o : Option A} {a : A} → o ≡ some a → o ≢ none
some-ne e e' = cc

start_proxy_config :
    (args : StartArgs) (listen : SocketAddr)
    → Required args
    → args.proxy ≡ some listen
    → (port : ℕ) × (args.backend_port ≡ some port)
      × ((start_config args).proxy
          ≡ some (record { listen = listen; backend_port = port; to = args.proxy_to }))
unfolding start_config
start_proxy_config args listen r e =
    let (port, given) = some-of args.backend_port (r.for_proxy (some-ne e)) in
    (port, given, rw (e, given) refl)

-- If the options meet what clap requires of them, then: a proxy or an API address that was given is
-- configured, with the port that was given for the backends, the proxy with the tag option as it
-- was given; and if a tag was given for the proxy, then a proxy is configured with that tag.
pub start_config_lem :
    (args : StartArgs)
    → Required args
    → ((listen : SocketAddr)
        → args.proxy ≡ some listen
        → (port : ℕ) × (args.backend_port ≡ some port)
          × ((start_config args).proxy
              ≡ some (record { listen = listen; backend_port = port; to = args.proxy_to })))
      × ((listen : SocketAddr)
          → args.api ≡ some listen
          → (port : ℕ) × (args.backend_port ≡ some port)
            × ((start_config args).api ≡ some (record { listen = listen; backend_port = port })))
      × ((tag : Text)
          → args.proxy_to ≡ some tag
          → (p : Start.ProxyConfig) × ((start_config args).proxy ≡ some p) × (p.to ≡ some tag))
unfolding start_config
start_config_lem args r = (
  λ listen e. start_proxy_config args listen r e,
  λ listen e.
      let (port, given) = some-of args.backend_port (r.for_api (some-ne e)) in
      (port, given, rw (e, given) refl),
  λ tag e.
      let (listen, asked) = some-of args.proxy (r.for_proxy_to (some-ne e)) in
      let (port, given, configured) = start_proxy_config args listen r asked in
      (record { listen = listen; backend_port = port; to = args.proxy_to }, configured, e),
)
