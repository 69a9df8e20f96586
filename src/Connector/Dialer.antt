-- ===== src/Connector/Dialer.antt =====
-- The dialers with a key: `applyTlsPsk` (src/o3ds/nng_connector.cpp), and `start` of
-- `AsyncPipelinePush` and `AsyncSubscriber` (async_pipeline.cpp, async_subscriber.cpp).
use Prim.Native.String.{String}
use open3dstream.Base.{ℕ, ◌+◌, ◌-◌, List, [], ◌∷◌, Bool, true, false, not, ◌||◌, if◌then◌else◌}
use open3dstream.Connector.{Code, fine, again, error_code}
use open3dstream.Connector.Endpoint.{
  push0, sub0, Endpoint, open_socket, alloc_aio, create_dialer, same_endpoint, close_socket,
  free_aio, only_wait, wait_started, note, noted_step,
}

-- `mPskIdentity` and `mPskKey`, by their bytes, and the answers to `nng_tls_config_alloc`,
-- `nng_tls_config_psk` and `nng_dialer_set_ptr`.
pub record Psk : Type 0 where
  pub identity : List ℕ
  pub key : List ℕ
  pub allocated : Code
  pub keyed : Code
  pub attached : Code

abbrev pub set_tls_psk : List ℕ → List ℕ → Psk → Psk
set_tls_psk identity key p = record p { identity = identity; key = key }

abbrev is_empty : List ℕ → Bool
is_empty [] = true
is_empty (b ∷ bs) = false

abbrev pub has_key : Psk → Bool
has_key p = not (is_empty p.identity || is_empty p.key)

abbrev pub then_code : Code → Code → Code
then_code fine c = c
then_code again c = again
then_code (error_code n) c = error_code n

-- The configuration is made and freed again.
abbrev pub configured : Code → Code → Endpoint → Code × Endpoint
configured fine ret e = (ret, record e { configs = e.configs + 1 - 1 })
configured again ret e = (again, e)
configured (error_code n) ret e = (error_code n, e)

unfoldable pub apply_tls_psk : Psk → Endpoint → Code × Endpoint
apply_tls_psk p e =
    if has_key p then configured p.allocated (then_code p.keyed p.attached) e else (fine, e)

-- `start` of `AsyncPipelinePush`: the answers in their order. That to the option of the socket is
-- not looked at.
pub record PushCalls : Type 0 where
  pub opened : Code
  pub allocated : Code
  pub created : Code
  pub psk : Psk
  pub dialled : Code

-- `start` of `AsyncSubscriber`.
pub record SubscriberCalls : Type 0 where
  pub opened : Code
  pub subscribed : Code
  pub created : Code
  pub psk : Psk
  pub notified : Code
  pub dialled : Code
  pub allocated : Code

module _ (strerror : Code → String) where
  unfoldable pub after_dial : Code → Endpoint → Bool × Endpoint
  after_dial fine e = only_wait e
  after_dial again e = (
    false,
    close_socket
        (free_aio (record (note strerror "Pipeline push dial" again e) { dialer = false })),
  )
  after_dial (error_code n) e = (
    false,
    close_socket (
        free_aio (record (note strerror "Pipeline push dial" (error_code n) e) { dialer = false })),
  )

  unfoldable pub push_start : PushCalls → Endpoint → Bool × Endpoint
  unfolding noted_step apply_tls_psk after_dial
  push_start a = noted_step strerror "Pipeline push open" a.opened (open_socket push0) (
      noted_step strerror "Pipeline push aio alloc" a.allocated alloc_aio (
        noted_step strerror "Pipeline push dialer create" a.created create_dialer (λ e.
          let r = apply_tls_psk a.psk e in
          noted_step strerror "Pipeline push TLS-PSK config" r.0 same_endpoint
            (after_dial a.dialled) r.1)))

  unfoldable pub subscriber_start : SubscriberCalls → Endpoint → Bool × Endpoint
  unfolding noted_step apply_tls_psk
  subscriber_start a =
      noted_step strerror "Async Subscriber open socket" a.opened (open_socket sub0) (
        noted_step strerror "Setting subscribe flag" a.subscribed same_endpoint (
          noted_step strerror "Creating dialer" a.created create_dialer (λ e.
            let r = apply_tls_psk a.psk e in
            noted_step strerror "Applying TLS-PSK config" r.0 same_endpoint
              (noted_step strerror "Setting pipe notify" a.notified same_endpoint (
                noted_step strerror "Subscriber async dialier" a.dialled same_endpoint (
                  noted_step strerror "Subscriber async aio alloc" a.allocated alloc_aio
                    wait_started)))
              r.1)))

  -- A caller that starts the connector again until it is started.
  unfoldable pub retry : List PushCalls → Endpoint → Bool × Endpoint
  unfolding push_start
  retry [] e = (false, e)
  retry (a ∷ as_) e = let r = push_start a e in let rest = retry as_ r.1 in if r.0 then r else rest
