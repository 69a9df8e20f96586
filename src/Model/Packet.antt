-- ===== src/Model/Packet.antt =====
-- The frame of a packet: `finalize` of src/o3ds/model.cpp and the checks at the start of
-- `SubjectList::parse`. The CRC-32 is a library's and stands for itself.
use open3dstream.Base.{
  ℕ, suc, ◌+◌, ◌*◌, ◌/◌, ◌%◌, ◌<◌, List, [], ◌∷◌, ◌++◌, Option, some, none, false, not, ◌||◌,
  if◌then◌else◌, ◌==◌, ltb, length, drop, ◌≡◌, ◌≢◌, ◌↔◌, refl, ap, ◌∙◌, sym, ◌⊎◌, inl, inr, arith,
}
use open3dstream.Base.Words.{u32_mod, to_bytes, word32_at}
use open3dstream.Model.Types.{Message, null_data, too_small, invalid_structure, crc_failed}

-- The flags of a packet with subjects, and of one with updates only.
abbrev pub full_packet : ℕ
full_packet = 1

abbrev pub update_packet : ℕ
update_packet = 2

-- What the checks make of a packet: an error, or the FlatBuffer in it.
pub data Opened : Type 0 where
  refused : Message → Opened
  accepted : List ℕ → Opened

module _ (crc : List ℕ → ℕ) where
  -- `finalize`.
  unfoldable pub finalize : ℕ → List ℕ → List ℕ
  unfolding to_bytes
  finalize flags body = to_bytes 4 flags ++ (to_bytes 4 (crc body) ++ body)

  abbrev pub check_words : ℕ → ℕ → List ℕ → Opened
  check_words flags check body =
      if not (flags == full_packet || flags == update_packet)
      then refused invalid_structure
      else if not (crc body == check)
      then refused crc_failed
      else accepted body

  -- The start of `parse`; a null pointer is `none`.
  unfoldable pub open_packet : Option (List ℕ) → Opened
  unfolding word32_at
  open_packet none = refused null_data
  open_packet (some bs) =
      if ltb (length bs) 8
      then refused too_small
      else check_words (word32_at bs 0) (word32_at bs 4) (drop 8 bs)

abbrev pub IsFlags : ℕ → Type 0
IsFlags flags = (flags ≡ full_packet) ⊎ (flags ≡ update_packet)

abbrev pub AreBytes : List ℕ → Type 0
AreBytes [] = Unit {0}
AreBytes (b ∷ bs) = (b < 256) × AreBytes bs

eight_ltb : (n : ℕ) → ltb (suc (suc (suc (suc (suc (suc (suc (suc n)))))))) 8 ≡ false
eight_ltb n = ground arith

flags_lt : (flags : ℕ) → IsFlags flags → flags < u32_mod
flags_lt flags h = elim h [ inl e ↦ omega arith | inr e ↦ omega arith ]

abbrev word_of : ℕ → ℕ → ℕ → ℕ → ℕ
word_of b0 b1 b2 b3 = b0 + 256 * (b1 + 256 * (b2 + 256 * b3))

word_of-bytes :
    (x : ℕ)
    → x < u32_mod
    → word_of (x % 256) (x / 256 % 256) (x / 256 / 256 % 256) (x / 256 / 256 / 256 % 256) ≡ x
word_of-bytes x h = omega arith

low : (b x : ℕ) → b < 256 → (b + 256 * x) % 256 ≡ b
low b x h = omega arith

high : (b x : ℕ) → b < 256 → (b + 256 * x) / 256 ≡ x
high b x h = omega arith

small : (b : ℕ) → b < 256 → b % 256 ≡ b
small b h = omega arith

bytes-word_of :
    (b0 b1 b2 b3 : ℕ)
    → b0 < 256
    → b1 < 256
    → b2 < 256
    → b3 < 256
    → b0 ∷ b1 ∷ b2 ∷ b3 ∷ [] ≡ to_bytes 4 (word_of b0 b1 b2 b3)
unfolding to_bytes
bytes-word_of b0 b1 b2 b3 h0 h1 h2 h3 =
    let x2 = b2 + 256 * b3 in
    let x1 = b1 + 256 * x2 in
    rw
      (
        low b0 x1 h0,
        high b0 x1 h0,
        low b1 x2 h1,
        high b1 x2 h1,
        low b2 b3 h2,
        high b2 b3 h2,
        small b3 h3,
      )
      refl

module _ (crc : List ℕ → ℕ) where
  check_words-accepts :
      (flags : ℕ) (body : List ℕ)
      → IsFlags flags
      → check_words crc flags (crc body) body ≡ accepted body
  check_words-accepts flags body h = ground arith

  check_words-IsFlags :
      (flags check : ℕ) (body p : List ℕ)
      → check_words crc flags check body ≡ accepted p
      → IsFlags flags × (check ≡ crc body) × (body ≡ p)
  check_words-IsFlags flags check body p e = ground arith

  open_bytes :
      (b0 b1 b2 b3 b4 b5 b6 b7 : ℕ) (body : List ℕ)
      → open_packet crc (some (b0 ∷ b1 ∷ b2 ∷ b3 ∷ b4 ∷ b5 ∷ b6 ∷ b7 ∷ body))
        ≡ check_words crc (word_of b0 b1 b2 b3) (word_of b4 b5 b6 b7) body
  unfolding open_packet word32_at
  open_bytes b0 b1 b2 b3 b4 b5 b6 b7 body =
      ap
        (λ c.
          if c
          then refused too_small
          else check_words crc (word_of b0 b1 b2 b3) (word_of b4 b5 b6 b7) body)
        (eight_ltb (length body))

  -- A packet that `finalize` makes with the flags 1 or 2, and a checksum of 32 bits, passes the
  -- checks, and the FlatBuffer read from it is the one that was put in.
  pub open-finalize :
      (flags : ℕ) (body : List ℕ)
      → IsFlags flags
      → crc body < u32_mod
      → open_packet crc (some (finalize crc flags body)) ≡ accepted body
  unfolding finalize to_bytes
  open-finalize flags body h l =
      open_bytes _ _ _ _ _ _ _ _ body
      ∙ rw (word_of-bytes flags (flags_lt flags h), word_of-bytes (crc body) l)
          (check_words-accepts flags body h)

  refused_accepted : {m : Message} {p : List ℕ} → refused m ≢ accepted p
  refused_accepted e = cc

  -- The bytes that pass the checks are exactly those that `finalize` makes of the FlatBuffer in
  -- them, with the flags 1 or 2.
  pub accepted-IsFrame :
      (bs body : List ℕ)
      → AreBytes bs
      → open_packet crc (some bs) ≡ accepted body
      → (flags : ℕ) × IsFlags flags × (bs ≡ finalize crc flags body)
  unfolding open_packet finalize
  accepted-IsFrame [] body h e = absurd (refused_accepted e)
  accepted-IsFrame (b0 ∷ []) body h e = absurd (refused_accepted e)
  accepted-IsFrame (b0 ∷ b1 ∷ []) body h e = absurd (refused_accepted e)
  accepted-IsFrame (b0 ∷ b1 ∷ b2 ∷ []) body h e = absurd (refused_accepted e)
  accepted-IsFrame (b0 ∷ b1 ∷ b2 ∷ b3 ∷ []) body h e = absurd (refused_accepted e)
  accepted-IsFrame (b0 ∷ b1 ∷ b2 ∷ b3 ∷ b4 ∷ []) body h e = absurd (refused_accepted e)
  accepted-IsFrame (b0 ∷ b1 ∷ b2 ∷ b3 ∷ b4 ∷ b5 ∷ []) body h e = absurd (refused_accepted e)
  accepted-IsFrame (b0 ∷ b1 ∷ b2 ∷ b3 ∷ b4 ∷ b5 ∷ b6 ∷ []) body h e = absurd (refused_accepted e)
  accepted-IsFrame (b0 ∷ b1 ∷ b2 ∷ b3 ∷ b4 ∷ b5 ∷ b6 ∷ b7 ∷ rest) body
        (h0, (h1, (h2, (h3, (h4, (h5, (h6, (h7, _)))))))) e =
      let flags = word_of b0 b1 b2 b3 in
      let check = word_of b4 b5 b6 b7 in
      let (f, c, r) =
        check_words-IsFlags flags check rest body
          (sym (open_bytes b0 b1 b2 b3 b4 b5 b6 b7 rest) ∙ e) in
      (
        flags,
        f,
        ap (λ xs. xs ++ (b4 ∷ b5 ∷ b6 ∷ b7 ∷ rest)) (bytes-word_of b0 b1 b2 b3 h0 h1 h2 h3)
            ∙ ap (λ xs. to_bytes 4 flags ++ (xs ++ rest)) (bytes-word_of b4 b5 b6 b7 h4 h5 h6 h7)
            ∙ ap (λ x. to_bytes 4 flags ++ (to_bytes 4 x ++ rest)) (c ∙ ap crc r)
            ∙ ap (λ xs. to_bytes 4 flags ++ (to_bytes 4 (crc body) ++ xs)) r,
      )

  -- Bytes whose FlatBuffer has a checksum of 32 bits pass the checks with that FlatBuffer exactly if
  -- they are what `finalize` makes of it, with the flags 1 or 2.
  pub open_packet-accepts :
      (bs body : List ℕ)
      → AreBytes bs
      → crc body < u32_mod
      → (open_packet crc (some bs) ≡ accepted body)
        ↔ ((flags : ℕ) × IsFlags flags × (bs ≡ finalize crc flags body))
  open_packet-accepts bs body h l = (
    accepted-IsFrame bs body h,
    λ (flags, f, e). ap (λ xs. open_packet crc (some xs)) e ∙ open-finalize flags body f l,
  )
