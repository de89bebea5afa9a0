-- ===== src/Startup/Protocols.antt =====
-- cmd/main.go: the protocols that the servers offer.
use agenttask_operator.Base.{◌≡◌, refl, Bool-cases, List, [], ◌∷◌, inl, inr, if◌then◌else◌}
use agenttask_operator.Startup.{Options, TlsConfig, TlsOption, disable_http2, manager_options}

-- The configuration that a server starts from, after its options in their order.
abbrev pub configured : List TlsOption → TlsConfig → TlsConfig
configured [] c = c
configured (f ∷ options) c = configured options (f c)

-- Whatever the other flags are, the servers of the metrics and of the webhook offer HTTP/1.1 alone unless
-- HTTP/2 is enabled, and then they offer what their configuration offers.
pub offered_protocols :
    (o : Options) (c : TlsConfig)
    → let offered = (if o.enable_http2 then c.next_protos else "http/1.1" ∷ []) in
      let m = manager_options o in
      ((configured m.metrics.tls c).next_protos ≡ offered)
      × ((configured m.webhook_server.tls c).next_protos ≡ offered)
unfolding disable_http2 manager_options
offered_protocols o c = elim (Bool-cases o.enable_http2) [
  | inl e ↦ rw e (refl, refl)
  | inr e ↦ rw e (refl, refl)
]
