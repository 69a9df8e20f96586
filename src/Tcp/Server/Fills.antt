-- ===== src/Tcp/Server/Fills.antt =====
-- The loops of `O3DSServer::tick` (UOpen3DServer.cpp) that read up to a length.
use open3dstream.Base.{
  ℕ, zero, suc, ◌+◌, ◌≤◌, ◌<◌, [], ◌++◌, Bool, true, false, length, ltb, leb, ◌≡◌, refl, ◌∙◌, inl,
  inr, Bool-cases, arith,
}
use mathlib.Core.Path.{subst}
use open3dstream.Tcp.Server.{payloads, Clock, Server, read_tcp, fill}
use open3dstream.Tcp.Server.Reads.{Ready, Roomy, Reads, read_tcp-Reads}

module _ (C : Clock) where
  -- The server before such a loop, the answer, and the server after it.
  pub record Fills (len : ℕ) (b : Bool) (s t : Server C) : Type 0 where
    pub kept : t.got ++ t.wire.pending ≡ s.got ++ s.wire.pending
    pub same_phase : t.phase ≡ s.phase
    pub same_payloads : payloads t.events ≡ payloads s.events
    pub roomy : Roomy t.size t.got
    pub grows : length s.got ≤ length t.got
    pub all : b ≡ true → length t.got ≡ len
    pub short : b ≡ false → length t.got < len
    pub fewer : length t.wire.grants ≤ length s.wire.grants
    pub used : b ≡ true → length s.got < len → length t.wire.grants < length s.wire.grants
    pub ready : Ready s.wire → Ready t.wire × (b ≡ false → t.wire.pending ≡ [])

  full-Fills :
      (len : ℕ) (s : Server C) → Roomy s.size s.got → length s.got ≡ len → Fills len true s s
  full-Fills len s r l = record {
    kept = refl;
    same_phase = refl;
    same_payloads = refl;
    roomy = r;
    grows = omega arith;
    all = λ e. l;
    short = λ e. absurd cc;
    fewer = omega arith;
    used = λ e h. absurd (omega arith);
    ready = λ h. (h, λ e. absurd cc);
  }

  stuck-Fills : (len : ℕ) (s t : Server C) → Reads C len false s t → Fills len false s t
  stuck-Fills len s t r = record {
    kept = r.kept;
    same_phase = r.same_phase;
    same_payloads = r.same_payloads;
    roomy = r.roomy;
    grows = r.grows;
    all = λ e. absurd cc;
    short = r.short;
    fewer = r.fewer;
    used = λ e. absurd cc;
    ready = r.ready;
  }

  more-Fills :
      (len : ℕ) (b : Bool) (s t u : Server C)
      → Reads C len true s t
      → Fills len b t u
      → Fills len b s u
  more-Fills len b s t u r f = record {
    kept = f.kept ∙ r.kept;
    same_phase = f.same_phase ∙ r.same_phase;
    same_payloads = f.same_payloads ∙ r.same_payloads;
    roomy = f.roomy;
    grows = omega (arith, r.grows, f.grows);
    all = f.all;
    short = f.short;
    fewer = omega (arith, f.fewer, r.fewer);
    used = λ e h. omega (arith, f.fewer, r.used refl);
    ready = λ h. f.ready (r.ready h).0;
  }

  module _ (now : C.Time) where
    -- Turns for every byte that is missing are enough.
    pub fill-Fills :
        (n len : ℕ) (s : Server C)
        → Roomy s.size s.got
        → length s.got ≤ len
        → len ≤ length s.got + n
        → Fills len (fill C now n len s).0 s (fill C now n len s).1
    unfolding fill
    fill-Fills zero len s r l h =
        let e : leb len (length s.got) ≡ true = ground arith in
        rw (e, fill) (full-Fills len s r (omega arith))
    fill-Fills (suc n) len s r l h = elim (Bool-cases (ltb (length s.got) len)) [
      | inr z ↦ rw (z, fill) (full-Fills len s r (ground (arith, z)))
      | inl y ↦
          let k : length s.got < len = ground (arith, y) in
          let p = read_tcp-Reads C now len s r k in
          elim (Bool-cases (read_tcp C now len s).0) [
            | inr z ↦
                rw (y, z, fill)
                  (stuck-Fills len s (read_tcp C now len s).1
                    (subst (λ b. Reads C len b s (read_tcp C now len s).1) z p))
            | inl w ↦
                let q : Reads C len true s (read_tcp C now len s).1 =
                  subst (λ b. Reads C len b s (read_tcp C now len s).1) w p in
                rw (y, w, fill)
                  (more-Fills len _ s (read_tcp C now len s).1 _ q (
                    fill-Fills n len (read_tcp C now len s).1 q.roomy q.below
                      (omega (arith, q.more refl))))
          ]
    ]
