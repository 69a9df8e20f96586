-- ===== src/Connector/Heard.antt =====
-- What the callbacks of the asynchronous connectors deliver of the messages that come in
-- (src/o3ds/nng_connector.cpp, async_pipeline.cpp, async_request.cpp).
use Prim.Native.String.{String}
use mathlib.Core.Path.{subst}
use mathlib.Core.List.{append_assoc, append-nil}
use open3dstream.Base.{
  ℕ, ◌+◌, List, [], ◌∷◌, ◌++◌, Option, some, none, Bool, true, false, if◌then◌else◌, length, ◌≡◌,
  refl, sym, ap, ◌∙◌, arith,
}
use open3dstream.Connector.{
  Code, fine, again, error_code, Message, body, no_body, set_error, set_failure,
}
use open3dstream.Connector.Read.{Reply, reply_of}
use open3dstream.Connector.Listen.{
  Listener, Received, answered, waiting, take_msg, async_read_msg, pipeline_callback,
  request_callback, listen,
}

-- The messages with a body, up to the first operation that failed, and whether one did.
abbrev pub heard : Option Message → List (List ℕ)
heard none = []
heard (some (body [])) = []
heard (some (body (b ∷ bs))) = (b ∷ bs) ∷ []
heard (some (no_body n)) = []

abbrev if_fine {ℓ} : {A : Type ℓ} → Code → A → A → A
if_fine fine a b = a
if_fine again a b = b
if_fine (error_code n) a b = b

abbrev pub heard_all : List Reply → List (List ℕ)
heard_all [] = []
heard_all (r ∷ rs) = if_fine r.code (heard r.message ++ heard_all rs) []

abbrev pub all_fine : List Reply → Bool
all_fine [] = true
all_fine (r ∷ rs) = if_fine r.code (all_fine rs) false

-- A listener that waits and has a function to take data.
pub record IsReady (l : Listener) : Type 0 where
  pub waits : l.armed ≡ true
  pub takes : l.has_func ≡ true

-- What one listener has delivered, and holds, more than another.
pub record Moves (bytes : List (List ℕ)) (n : ℕ) (b : Bool) (l m : Listener) : Type 0 where
  pub given : m.delivered ≡ l.delivered ++ bytes
  pub kept : m.base.held ≡ l.base.held + n
  pub armed_after : m.armed ≡ b
  pub same_func : m.has_func ≡ l.has_func

abbrev reply : Code → Option Message → Reply
reply c m = record { code = c; message = m }

still :
    {b : Bool} {l : Listener} {m : Listener}
    → m.base.held ≡ l.base.held + 0
    → m.armed ≡ b
    → m.delivered ≡ l.delivered
    → m.has_func ≡ l.has_func
    → Moves [] 0 b l m
still {l = l} x y z w = record {
  given = z ∙ sym (append-nil l.delivered);
  kept = x;
  armed_after = y;
  same_func = w;
}

Moves-trans :
    {xs ys : List (List ℕ)} {n k p : ℕ} {b d : Bool} {l m o : Listener}
    → Moves xs n b l m
    → Moves ys k d m o
    → p ≡ n + k
    → Moves (xs ++ ys) p d l o
Moves-trans {xs = xs} {ys = ys} {l = l} x y e = record {
  given = y.given ∙ ap (λ zs. zs ++ ys) x.given ∙ append_assoc l.delivered xs ys;
  kept = omega (arith, x.kept, y.kept, e);
  armed_after = y.armed_after;
  same_func = y.same_func ∙ x.same_func;
}

if_true : {A : Type 0} (b : Bool) (x y : A) → b ≡ true → (if b then x else y) ≡ x
if_true true x y e = refl
if_true false x y e = absurd cc

module _ {A : Type 0} (f : A → Listener → Listener) where
  listen-armed :
      (a : A) (as_ : List A) (l : Listener)
      → l.armed ≡ true
      → listen f (a ∷ as_) l ≡ listen f as_ (f a l)
  unfolding listen
  listen-armed a as_ l e = if_true l.armed (listen f as_ (f a l)) l e

  listen-stopped : (as_ : List A) (l : Listener) → l.armed ≡ false → listen f as_ l ≡ l
  unfolding listen
  listen-stopped [] l e = refl
  listen-stopped (a ∷ as_) l e = rest l.armed e
    where
      rest : (b : Bool) → b ≡ false → (if b then listen f as_ (f a l) else l) ≡ l
      rest true e = absurd cc
      rest false e = refl

module _ (strerror : Code → String) where
  read_msg-Moves :
      (c : Code) (m : Option Message) (l : Listener)
      → l.has_func ≡ true
      → Moves
          (if_fine c (heard m) [])
          0
          (if_fine c true false)
          l
          (async_read_msg strerror (reply c m) l).1
  unfolding async_read_msg take_msg set_error set_failure
  read_msg-Moves fine none l h = still (omega arith) refl refl refl
  read_msg-Moves fine (some (body [])) l h = still (omega arith) refl refl refl
  read_msg-Moves fine (some (body (b ∷ bs))) l h = record {
    given = rw (h) refl;
    kept = omega arith;
    armed_after = refl;
    same_func = refl;
  }
  read_msg-Moves fine (some (no_body n)) l h = still (omega arith) refl refl refl
  read_msg-Moves again m l h = still (omega arith) refl refl refl
  read_msg-Moves (error_code n) m l h = still (omega arith) refl refl refl

  abbrev on_read : Reply → Listener → Listener
  on_read r l = (async_read_msg strerror r l).1

  -- After one callback: the others come only if it waits again.
  rest-Moves :
      (c : Code) (m : Option Message) (rs : List Reply) (l k : Listener)
      → Moves (if_fine c (heard m) []) 0 (if_fine c true false) l k
      → (k.armed ≡ true → Moves (heard_all rs) 0 (all_fine rs) k (listen on_read rs k))
      → Moves (heard_all (reply c m ∷ rs)) 0 (all_fine (reply c m ∷ rs)) l (listen on_read rs k)
  rest-Moves fine m rs l k x f = Moves-trans x (f x.armed_after) refl
  rest-Moves again m rs l k x f =
      subst (λ o. Moves [] 0 false l o) (sym (listen-stopped on_read rs k x.armed_after)) x
  rest-Moves (error_code n) m rs l k x f =
      subst (λ o. Moves [] 0 false l o) (sym (listen-stopped on_read rs k x.armed_after)) x

  read_all-Moves :
      (rs : List Reply) (l : Listener)
      → IsReady l
      → Moves (heard_all rs) 0 (all_fine rs) l (listen on_read rs l)
  unfolding listen
  read_all-Moves [] l h = still (omega arith) h.waits refl refl
  read_all-Moves (r ∷ rs) l h =
      let x = read_msg-Moves r.code r.message l h.takes in
      subst (λ o. Moves (heard_all (r ∷ rs)) 0 (all_fine (r ∷ rs)) l o)
        (sym (listen-armed on_read r rs l h.waits))
        (rest-Moves r.code r.message rs l (on_read r l) x (λ y.
          read_all-Moves rs (on_read r l) (record { waits = y; takes = x.same_func ∙ h.takes })))

-- The messages of a queue, in their order: the operation ends with one, and the callback that asks for
-- a message gets the next, or waits where there is none.
abbrev pub in_turn : List (List ℕ) → List (Reply × Received)
in_turn [] = []
in_turn (a ∷ []) = (reply_of a, waiting) ∷ []
in_turn (a ∷ b ∷ queue) = (reply_of a, answered fine b) ∷ in_turn queue

abbrev pub firsts : List (List ℕ) → List (List ℕ)
firsts [] = []
firsts (a ∷ []) = a ∷ []
firsts (a ∷ b ∷ queue) = a ∷ firsts queue

abbrev pub seconds : List (List ℕ) → List (List ℕ)
seconds [] = []
seconds (a ∷ []) = []
seconds (a ∷ b ∷ queue) = b ∷ seconds queue

abbrev pub is_even : {A : Type 0} → List A → Bool
is_even [] = true
is_even (a ∷ []) = false
is_even (a ∷ b ∷ queue) = is_even queue

-- A callback that takes the message of the operation, and delivers the next one, or waits for it.
record Skips (f : Reply → Received → Listener → Listener) : Type 0 where
  next :
      (a b : List ℕ) (l : Listener)
      → l.has_func ≡ true
      → Moves (b ∷ []) 1 true l (f (reply_of a) (answered fine b) l)
  last : (a : List ℕ) (l : Listener) → Moves [] 1 false l (f (reply_of a) waiting l)

pipeline_callback-Skips : Skips pipeline_callback
unfolding pipeline_callback
pipeline_callback-Skips = record {
  next =
      λ a b l h. record { given = rw (h) refl; kept = refl; armed_after = refl; same_func = refl };
  last = λ a l. record {
    given = sym (append-nil l.delivered);
    kept = refl;
    armed_after = refl;
    same_func = refl;
  };
}

request_callback-Skips : (strerror : Code → String) → Skips (request_callback strerror)
unfolding request_callback
request_callback-Skips strerror = record {
  next =
      λ a b l h. record { given = rw (h) refl; kept = refl; armed_after = refl; same_func = refl };
  last = λ a l. record {
    given = sym (append-nil l.delivered);
    kept = refl;
    armed_after = refl;
    same_func = refl;
  };
}

skip-Moves :
    (f : Reply → Received → Listener → Listener) (queue : List (List ℕ)) (l : Listener)
    → Skips f
    → IsReady l
    → Moves
        (seconds queue)
        (length (firsts queue))
        (is_even queue)
        l
        (listen (λ p. f p.0 p.1) (in_turn queue) l)
unfolding listen
skip-Moves f [] l g h = still (omega arith) h.waits refl refl
skip-Moves f (a ∷ []) l g h =
    subst (λ o. Moves [] 1 false l o)
      (sym
        (listen-armed {A = Reply × Received} (λ p. f p.0 p.1) (reply_of a, waiting) [] l h.waits))
      (g.last a l)
skip-Moves f (a ∷ b ∷ queue) l g h =
    let x = g.next a b l h.takes in
    let m = f (reply_of a) (answered fine b) l in
    subst (λ o. Moves (b ∷ seconds queue) (length (a ∷ firsts queue)) (is_even queue) l o)
      (sym (listen-armed (λ p. f p.0 p.1) (reply_of a, answered fine b) (in_turn queue) l h.waits))
      (Moves-trans x
        (skip-Moves f queue m g (record { waits = x.armed_after; takes = x.same_func ∙ h.takes }))
        (omega arith))

-- A connector that waits for a message and has a function to take them. With the callback of the pair
-- and of the subscriber, whatever nng answers: the function is given the messages that come in, each
-- whole, once and in their order, but for those without bytes, up to the first operation that fails;
-- the connector holds no more messages than before; and it waits for the next one unless an operation
-- failed. With the callbacks of the pipeline and of request and reply, where nng answers with the
-- messages of a queue in their order: the function is given every second message of the queue only,
-- and the connector holds the others. When the number of messages is even, it waits for the next
-- one; when it is odd, no operation is under way, since the last callback waits for a message of its
-- own.
pub listen-compared :
    (strerror : Code → String) (rs : List Reply) (queue : List (List ℕ)) (l : Listener)
    → IsReady l
    → let others = length (firsts queue) in
      Moves (heard_all rs) 0 (all_fine rs) l (listen (λ r m. (async_read_msg strerror r m).1) rs l)
      × Moves
          (seconds queue)
          others
          (is_even queue)
          l
          (listen (λ p. pipeline_callback p.0 p.1) (in_turn queue) l)
      × Moves
          (seconds queue)
          others
          (is_even queue)
          l
          (listen (λ p. request_callback strerror p.0 p.1) (in_turn queue) l)
listen-compared strerror rs queue l h = (
  read_all-Moves strerror rs l h,
  skip-Moves pipeline_callback queue l pipeline_callback-Skips h,
  skip-Moves (request_callback strerror) queue l (request_callback-Skips strerror) h,
)
