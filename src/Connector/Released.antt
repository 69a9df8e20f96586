-- ===== src/Connector/Released.antt =====
-- What starting and destroying an `AsyncPipelinePush` leaves in nng (src/o3ds/async_pipeline.cpp,
-- nng_connector.h, nng_connector.cpp).
use Prim.Native.String.{String}
use open3dstream.Base.{
  ℕ, ◌+◌, ◌-◌, List, [], ◌∷◌, some, Bool, true, false, if◌then◌else◌, ◌≡◌, refl, ap, ◌∙◌, arith,
}
use open3dstream.Connector.{Code, fine, again, error_code}
use open3dstream.Connector.Endpoint.{
  push0, Endpoint, open_socket, alloc_aio, create_dialer, noted_step, stop, destroy,
}
use open3dstream.Connector.Dialer.{
  Psk, has_key, then_code, configured, apply_tls_psk, PushCalls, after_dial, push_start, retry,
}

abbrev if_fine {ℓ} : {A : Type ℓ} → Code → A → A → A
if_fine fine a b = a
if_fine again a b = b
if_fine (error_code n) a b = b

-- The result of `applyTlsPsk`.
abbrev psk_code : Bool → Code → Code → Code → Code
psk_code h x y z = if h then if_fine x (if_fine y z y) x else fine

abbrev psk_result : Psk → Code
psk_result p = psk_code (has_key p) p.allocated p.keyed p.attached

-- Whether the dialer is tried, and whether an attempt succeeds.
abbrev set_up : PushCalls → Bool
set_up a = if_fine a.created (if_fine (psk_result a.psk) true false) false

abbrev succeeds : PushCalls → Bool
succeeds a =
    if_fine a.opened
      (if_fine a.allocated (if set_up a then if_fine a.dialled true false else false) false) false

-- What an attempt that fails loses: it opened the socket, and did not get to dial.
abbrev lost_sockets : PushCalls → ℕ
lost_sockets a = if_fine a.opened (if_fine a.allocated (if set_up a then 0 else 1) 1) 0

abbrev lost_aios : PushCalls → ℕ
lost_aios a = if_fine a.opened (if_fine a.allocated (if set_up a then 0 else 1) 0) 0

-- The attempts before the first that succeeds.
abbrev total : (PushCalls → ℕ) → List PushCalls → ℕ
total f [] = 0
total f (a ∷ as_) = if succeeds a then 0 else f a + total f as_

abbrev one_if : Bool → ℕ
one_if true = 1
one_if false = 0

-- The configuration is freed again.
apply_tls_psk-eq : (p : Psk) (e : Endpoint) → apply_tls_psk p e ≡ (psk_result p, e)
unfolding apply_tls_psk
apply_tls_psk-eq p e = by_codes (has_key p) p.allocated p.keyed
  where
    pair : Code → Endpoint → Code × Endpoint
    pair c f = (c, f)

    freed :
        (c : Code) → ◌≡◌ {A = Code × Endpoint} (c, record e { configs = e.configs + 1 - 1 }) (c, e)
    freed c = ap (λ n. pair c (record e { configs = n })) (omega arith)

    by_codes :
        (h : Bool) (x y : Code)
        → ◌≡◌ {A = Code × Endpoint}
            (if h then configured x (then_code y p.attached) e else (fine, e))
            (psk_code h x y p.attached, e)
    by_codes false x y = refl
    by_codes true again y = refl
    by_codes true (error_code n) y = refl
    by_codes true fine fine = freed p.attached
    by_codes true fine again = freed again
    by_codes true fine (error_code n) = freed (error_code n)

abbrev first_success : List PushCalls → Bool
first_success [] = false
first_success (a ∷ as_) = if succeeds a then true else first_success as_

-- What exists in nng, and what the connector still refers to.
record Leaves (b : Bool) (n k : ℕ) (e f : Endpoint) : Type 0 where
  more_sockets : f.sockets ≡ e.sockets + n
  more_aios : f.aios ≡ e.aios + k
  same_configs : f.configs ≡ e.configs
  refers : b ≡ true → (f.socket ≡ some push0) × (f.aio ≡ true)

abbrev calls : Code → Code → Code → Psk → Code → PushCalls
calls opened allocated created psk dialled = record {
  opened = opened;
  allocated = allocated;
  created = created;
  psk = psk;
  dialled = dialled;
}

failed :
    {n k : ℕ} {e f : Endpoint}
    → f.sockets ≡ e.sockets + n
    → f.aios ≡ e.aios + k
    → f.configs ≡ e.configs
    → Leaves false n k e f
failed x y z = record { more_sockets = x; more_aios = y; same_configs = z; refers = λ t. absurd cc }

-- One attempt, and if it fails the others.
retry-step :
    (c s : Bool) (e f : Endpoint) (n k : ℕ) (q : Bool × Endpoint) (b : Bool) (m l : ℕ)
    → c ≡ s
    → Leaves s (if s then 1 else n) (if s then 1 else k) e f
    → (q.0 ≡ b) × Leaves b (one_if b + m) (one_if b + l) f q.1
    → let o = (if s then true else b) in
      let r : Bool × Endpoint = (if c then (c, f) else q) in
      (r.0 ≡ o)
      × Leaves o (one_if o + (if s then 0 else n + m)) (one_if o + (if s then 0 else k + l)) e r.1
retry-step true true e f n k q b m l h x y = (
  refl,
  record {
    more_sockets = x.more_sockets;
    more_aios = x.more_aios;
    same_configs = x.same_configs;
    refers = x.refers;
  },
)
retry-step true false e f n k q b m l h x y = absurd cc
retry-step false true e f n k q b m l h x y = absurd cc
retry-step false false e f n k q b m l h x y = (
  y.0,
  record {
    more_sockets = omega (arith, x.more_sockets, y.1.more_sockets);
    more_aios = omega (arith, x.more_aios, y.1.more_aios);
    same_configs = y.1.same_configs ∙ x.same_configs;
    refers = y.1.refers;
  },
)

module _ (strerror : Code → String) where
  abbrev Attempt : PushCalls → Endpoint → Type 0
  Attempt a e =
      let r = push_start strerror a e in
      (r.0 ≡ succeeds a)
      × Leaves (succeeds a) (if succeeds a then 1 else lost_sockets a)
          (if succeeds a then 1 else lost_aios a) e r.1

  push_codes-Attempt :
      (x y z w : Code) (p : Psk) (e : Endpoint)
      → psk_result p ≡ w
      → (d : Code) → Attempt (calls x y z p d) e
  unfolding push_start noted_step after_dial
  push_codes-Attempt again y z w p e q d = (refl, failed (omega arith) (omega arith) refl)
  push_codes-Attempt (error_code n) y z w p e q d = (refl, failed (omega arith) (omega arith) refl)
  push_codes-Attempt fine again z w p e q d = (refl, failed (omega arith) (omega arith) refl)
  push_codes-Attempt fine (error_code n) z w p e q d =
      (refl, failed (omega arith) (omega arith) refl)
  push_codes-Attempt fine fine again w p e q d = (refl, failed (omega arith) (omega arith) refl)
  push_codes-Attempt fine fine (error_code n) w p e q d =
      (refl, failed (omega arith) (omega arith) refl)
  push_codes-Attempt fine fine fine again p e q d =
      rw (apply_tls_psk-eq p (create_dialer (alloc_aio (open_socket push0 e))), q)
        (refl, failed (omega arith) (omega arith) refl)
  push_codes-Attempt fine fine fine (error_code n) p e q d =
      rw (apply_tls_psk-eq p (create_dialer (alloc_aio (open_socket push0 e))), q)
        (refl, failed (omega arith) (omega arith) refl)
  push_codes-Attempt fine fine fine fine p e q fine =
      rw (apply_tls_psk-eq p (create_dialer (alloc_aio (open_socket push0 e))), q)
        (
          refl,
          record {
            more_sockets = omega arith;
            more_aios = omega arith;
            same_configs = refl;
            refers = λ t. (refl, refl);
          },
        )
  push_codes-Attempt fine fine fine fine p e q again =
      rw (apply_tls_psk-eq p (create_dialer (alloc_aio (open_socket push0 e))), q)
        (refl, failed (omega arith) (omega arith) refl)
  push_codes-Attempt fine fine fine fine p e q (error_code n) =
      rw (apply_tls_psk-eq p (create_dialer (alloc_aio (open_socket push0 e))), q)
        (refl, failed (omega arith) (omega arith) refl)

  push_start-Attempt : (a : PushCalls) (e : Endpoint) → Attempt a e
  push_start-Attempt a e =
      push_codes-Attempt a.opened a.allocated a.created (psk_result a.psk) a.psk e refl a.dialled

  retry-Leaves :
      (as_ : List PushCalls) (e : Endpoint)
      → let b = first_success as_ in
        let r = retry strerror as_ e in
        (r.0 ≡ b)
        × Leaves b (one_if b + total lost_sockets as_) (one_if b + total lost_aios as_) e r.1
  unfolding retry
  retry-Leaves [] e = (refl, failed (omega arith) (omega arith) refl)
  retry-Leaves (a ∷ as_) e =
      let r = push_start strerror a e in
      let x = push_start-Attempt a e in
      retry-step r.0 (succeeds a) e r.1 (lost_sockets a) (lost_aios a) (retry strerror as_ r.1)
        (first_success as_) (total lost_sockets as_) (total lost_aios as_) x.0 x.1
        (retry-Leaves as_ r.1)

-- A row of attempts to start the connector, until one succeeds, and the destruction of the connector
-- then. An attempt that opens the socket and does not get to dial loses the socket, and the
-- asynchronous operation once it has one; one that fails to dial loses neither; and no attempt loses
-- a TLS configuration. If an attempt succeeded, the destructor closes its socket, but not its
-- asynchronous operation: nng keeps one for each connector that was started.
pub retry-lost :
    (strerror : Code → String) (as_ : List PushCalls) (e : Endpoint)
    → first_success as_ ≡ true
    → let f = (retry strerror as_ e).1 in
      ((retry strerror as_ e).0 ≡ true)
      × (f.sockets ≡ e.sockets + 1 + total lost_sockets as_)
      × (f.aios ≡ e.aios + 1 + total lost_aios as_)
      × (f.configs ≡ e.configs)
      × ((destroy f).sockets ≡ e.sockets + total lost_sockets as_)
      × ((destroy f).aios ≡ e.aios + 1 + total lost_aios as_)
      × ((destroy f).aio ≡ false)
unfolding destroy stop
retry-lost strerror as_ e h =
    let (a, x) = retry-Leaves strerror as_ e in
    let f = (retry strerror as_ e).1 in
    let (g, _) = x.refers h in
    let one : one_if (first_success as_) ≡ 1 = ap one_if h in
    let m = x.more_sockets in
    let n = x.more_aios in
    (
      a ∙ h,
      omega (arith, m, one),
      omega (arith, n, one),
      x.same_configs,
      rw (g, destroy, stop) (omega (arith, m, one)),
      rw (g, destroy, stop) (omega (arith, n, one)),
      rw (g, destroy, stop) refl,
    )
