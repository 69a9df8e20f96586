-- ===== src/Connector/Accounts.antt =====
-- What rows of writes of the connectors over nng come to (src/o3ds/nng_connector.cpp).
use Prim.Native.String.{String}
use mathlib.Core.List.{append_assoc, append-nil}
use open3dstream.Base.{
  ℕ, ◌+◌, ◌%◌, List, [], ◌∷◌, ◌++◌, Bool, true, false, ◌≡◌, refl, sym, ap, ◌∙◌, map, arith,
}
use open3dstream.Base.Words.{u64_mod}
use open3dstream.Connector.{Code, fine, again, error_code, Connector, set_failure, checked}
use open3dstream.Connector.Write.{Answers, blocking_write, async_write, after_send, write_all}

-- What becomes of a message, by what nng answers.
pub data Fate : Type 0 where
  taken : Fate
  put_off : Fate
  refused : Fate
  not_made : Fate

abbrev sent_as : Code → Fate
sent_as fine = taken
sent_as again = put_off
sent_as (error_code n) = refused

abbrev if_fine : Code → Fate → Fate → Fate
if_fine fine f g = g
if_fine again f g = f
if_fine (error_code n) f g = f

abbrev pub fate : Answers → Fate
fate a = if_fine a.alloc not_made (if_fine a.append refused (sent_as a.send))

-- The messages that nng takes, and how many have one of two fates.
abbrev pub taken_of : List (Answers × List ℕ) → List (List ℕ)
taken_of [] = []
taken_of ((a, bytes) ∷ ws) = elim (fate a) [ taken ↦ bytes ∷ taken_of ws | _ ↦ taken_of ws ]

abbrev pub count : (Fate → ℕ) → List (Answers × List ℕ) → ℕ
count f [] = 0
count f ((a, bytes) ∷ ws) = f (fate a) + count f ws

abbrev pub is_put_off : Fate → ℕ
is_put_off f = elim f [ put_off ↦ 1 | _ ↦ 0 ]

abbrev pub is_left : Fate → ℕ
is_left f = elim f [ put_off ↦ 1 | refused ↦ 1 | _ ↦ 0 ]

abbrev pub is_fine : Fate → Bool
is_fine f = elim f [ taken ↦ true | put_off ↦ true | _ ↦ false ]

abbrev pub is_taken : Fate → Bool
is_taken f = elim f [ taken ↦ true | _ ↦ false ]

-- What a row of writes comes to, by what a write answers, what it leaves with the connector and
-- what it counts as dropped, each by the fate of its message.
pub record Account (answer : Fate → Bool) (left lost : Fate → ℕ) (ws : List (Answers × List ℕ))
    (bs : List Bool) (c d : Connector) : Type 0 where
  pub answered : bs ≡ map (λ w. answer (fate w.0)) ws
  pub kept : d.held ≡ c.held + count left ws
  pub all_taken : d.accepted ≡ c.accepted ++ taken_of ws
  pub counted : d.dropped % u64_mod ≡ (c.dropped + count lost ws) % u64_mod

-- Where nng takes nothing.
not_taken :
    {answer : Fate → Bool} {left lost : Fate → ℕ} {ws : List (Answers × List ℕ)} {bs : List Bool}
    {c d : Connector}
    → bs ≡ map (λ w. answer (fate w.0)) ws
    → d.held ≡ c.held + count left ws
    → taken_of ws ≡ []
    → d.accepted ≡ c.accepted
    → d.dropped % u64_mod ≡ (c.dropped + count lost ws) % u64_mod
    → Account answer left lost ws bs c d
not_taken {c = c} x y z w v = record {
  answered = x;
  kept = y;
  all_taken = w ∙ sym (append-nil c.accepted) ∙ ap (λ xs. c.accepted ++ xs) (sym z);
  counted = v;
}

taken_of-cons :
    (a : Answers) (bytes : List ℕ) (ws : List (Answers × List ℕ))
    → taken_of ((a, bytes) ∷ ws) ≡ taken_of ((a, bytes) ∷ []) ++ taken_of ws
taken_of-cons a bytes ws = by_fate (fate a)
  where
    by_fate :
        (f : Fate)
        → elim f [ taken ↦ bytes ∷ taken_of ws | _ ↦ taken_of ws ]
          ≡ elim f [ taken ↦ bytes ∷ [] | _ ↦ [] ] ++ taken_of ws
    by_fate taken = refl
    by_fate put_off = refl
    by_fate refused = refl
    by_fate not_made = refl

-- A row of writes comes to what the writes come to.
write_all-Account :
    (answer : Fate → Bool) (left lost : Fate → ℕ)
    (write : Answers → List ℕ → Connector → Bool × Connector)
    → ((a : Answers) (bytes : List ℕ) (c : Connector)
        → Account answer left lost
            ((a, bytes) ∷ [])
            ((write a bytes c).0 ∷ [])
            c
            (write a bytes c).1)
    → (ws : List (Answers × List ℕ)) (c : Connector)
    → Account answer left lost ws (write_all write ws c).0 c (write_all write ws c).1
unfolding write_all
write_all-Account answer left lost write h [] c = record {
  answered = refl;
  kept = omega arith;
  all_taken = sym (append-nil c.accepted);
  counted = ap (λ n. n % u64_mod) (omega arith);
}
write_all-Account answer left lost write h ((a, bytes) ∷ ws) c =
    let r = write a bytes c in
    let x = h a bytes c in
    let y = write_all-Account answer left lost write h ws r.1 in
    record {
      answered =
          ap (λ bs. bs ++ (write_all write ws r.1).0) x.answered
          ∙ ap (λ bs. answer (fate a) ∷ bs) y.answered;
      kept = omega (arith, x.kept, y.kept);
      all_taken =
          y.all_taken
          ∙ ap (λ xs. xs ++ taken_of ws) x.all_taken
          ∙ append_assoc c.accepted (taken_of ((a, bytes) ∷ [])) (taken_of ws)
          ∙ ap (λ xs. c.accepted ++ xs) (sym (taken_of-cons a bytes ws));
      counted = omega (arith, x.counted, y.counted);
    }

abbrev answers_of : Code → Code → Code → Answers
answers_of x y z = record { alloc = x; append = y; send = z }

module _ (strerror : Code → String) where
  -- The account of one write.
  abbrev AsyncAccount : Answers → List ℕ → Connector → Type 0
  AsyncAccount a bytes c =
      let r = async_write strerror a bytes c in
      Account is_fine (λ f. 0) is_put_off ((a, bytes) ∷ []) (r.0 ∷ []) c r.1

  abbrev BlockingAccount : Answers → List ℕ → Connector → Type 0
  BlockingAccount a bytes c =
      let r = blocking_write strerror a bytes c in
      Account is_taken is_left (λ f. 0) ((a, bytes) ∷ []) (r.0 ∷ []) c r.1

  async_write-Account :
      (x y z : Code) (bytes : List ℕ) (c : Connector) → AsyncAccount (answers_of x y z) bytes c
  unfolding async_write checked after_send set_failure
  async_write-Account fine fine fine bytes c = record {
    answered = refl;
    kept = omega arith;
    all_taken = refl;
    counted = omega arith;
  }
  async_write-Account fine fine again bytes c = not_taken refl (omega arith) refl refl (omega arith)
  async_write-Account fine fine (error_code n) bytes c =
      not_taken refl (omega arith) refl refl (omega arith)
  async_write-Account fine again z bytes c = not_taken refl (omega arith) refl refl (omega arith)
  async_write-Account fine (error_code n) z bytes c =
      not_taken refl (omega arith) refl refl (omega arith)
  async_write-Account again y z bytes c = not_taken refl (omega arith) refl refl (omega arith)
  async_write-Account (error_code n) y z bytes c =
      not_taken refl (omega arith) refl refl (omega arith)

  blocking_write-Account :
      (x y z : Code) (bytes : List ℕ) (c : Connector) → BlockingAccount (answers_of x y z) bytes c
  unfolding blocking_write checked set_failure
  blocking_write-Account fine fine fine bytes c = record {
    answered = refl;
    kept = omega arith;
    all_taken = refl;
    counted = omega arith;
  }
  blocking_write-Account fine fine again bytes c =
      not_taken refl (omega arith) refl refl (omega arith)
  blocking_write-Account fine fine (error_code n) bytes c =
      not_taken refl (omega arith) refl refl (omega arith)
  blocking_write-Account fine again z bytes c = not_taken refl (omega arith) refl refl (omega arith)
  blocking_write-Account fine (error_code n) z bytes c =
      not_taken refl (omega arith) refl refl (omega arith)
  blocking_write-Account again y z bytes c = not_taken refl (omega arith) refl refl (omega arith)
  blocking_write-Account (error_code n) y z bytes c =
      not_taken refl (omega arith) refl refl (omega arith)

  -- Any row of writes, whatever nng answers: nng has taken exactly the messages whose send it answered
  -- with 0, in their order. The writes of an asynchronous connector leave no message with the
  -- connector, answer `true` for those taken and those put off (`NNG_EAGAIN`), and count the latter
  -- as dropped. The writes of a blocking connector answer `true` for those taken only, and leave with
  -- the connector every other message that was made.
  pub write_all-accounts :
      (ws : List (Answers × List ℕ)) (c : Connector)
      → let r = write_all (async_write strerror) ws c in
        let s = write_all (blocking_write strerror) ws c in
        Account is_fine (λ f. 0) is_put_off ws r.0 c r.1
        × Account is_taken is_left (λ f. 0) ws s.0 c s.1
  write_all-accounts ws c = (
    write_all-Account is_fine (λ f. 0) is_put_off (async_write strerror)
        (λ a. async_write-Account a.alloc a.append a.send) ws c,
    write_all-Account is_taken is_left (λ f. 0) (blocking_write strerror)
        (λ a. blocking_write-Account a.alloc a.append a.send) ws c,
  )
