-- ===== src/Utils/Copy.antt =====
-- What `copyString` leaves in the client's buffer.
use ez_rets.Base.{
  ℕ, ◌+◌, ◌-◌, ◌≡◌, refl, ap, ap₂, ◌∙◌, ◌≢◌, ◌||◌, inl, inr, false, [], ◌∷◌, ◌++◌, arith, ◌==◌, leb,
  length, take, Text, min, length-take, take-take, take-min, Bool-cases,
}
use ez_rets.Memory.{
  Memory, read_bytes, poke, poke_outside, peek-terminated, bytes-write_bytes, SameOutside,
}
use ez_rets.Utils.{copy_string}

module _ (src : Text) (dest len : ℕ) (m : Memory) where
  -- The number of characters that reach the buffer.
  abbrev pub copied_size : ℕ
  copied_size = min (len - 1) (length src)

  size-copy_string : dest ≢ 0 → len ≢ 0 → (copy_string src dest len m).1 ≡ copied_size
  unfolding copy_string
  size-copy_string p q = ground (arith, length-take len src)

  bytes-copy_string :
      dest ≢ 0
      → len ≢ 0
      → (copy_string src dest len m).0.bytes
        ≡ poke (poke m.bytes dest (take len src)) (dest + copied_size) (0 ∷ [])
  unfolding copy_string
  bytes-copy_string p q =
      let usable : (dest == 0 || len == 0) ≡ false = ground arith in
      rw (usable, copy_string)
        elim (Bool-cases (leb len (length (take len src)))) [
          | inl full ↦ rw full (
              bytes-write_bytes _ _ _ (omega arith)
              ∙ ap₂ (λ f n. poke f (dest + n) (0 ∷ [])) (bytes-write_bytes _ _ _ p)
                  (ground (arith, length-take len src)))
          | inr room ↦ rw room (
              bytes-write_bytes _ _ _ (omega arith)
              ∙ ap₂ (λ f n. poke f (dest + n) (0 ∷ [])) (bytes-write_bytes _ _ _ p)
                  (ground (arith, length-take len src)))
        ]

  -- With a destination that is not null and a length that is not zero, copyString leaves in the
  -- buffer the longest prefix of the source that leaves room for the terminator, and
  -- then the terminator; the result is the length of that prefix.
  pub copy_string-reads :
      dest ≢ 0
      → len ≢ 0
      → ((copy_string src dest len m).1 ≡ copied_size)
        × (read_bytes (copy_string src dest len m).0 dest (copied_size + 1)
            ≡ take (len - 1) src ++ 0 ∷ [])
  unfolding read_bytes
  copy_string-reads p q = (
    size-copy_string p q,
    rw (bytes-copy_string p q) (
        peek-terminated m.bytes dest (take len src) copied_size 0
          (ground (arith, length-take len src))
        ∙ ap (λ t. t ++ 0 ∷ [])
            (take-take copied_size len src (omega arith) ∙ take-min (len - 1) src)),
  )

  -- No byte outside the buffer changes, whatever the arguments.
  pub copy_string-outside : SameOutside m.bytes (copy_string src dest len m).0.bytes dest len
  unfolding copy_string
  copy_string-outside x h = elim (Bool-cases (dest == 0 || len == 0)) [
    | inl unusable ↦ rw (unusable, copy_string) refl
    | inr usable ↦
        let written = bytes-copy_string (ground arith) (ground arith) in
        rw written (
          ground (
            arith,
            length-take len src,
            poke_outside m.bytes dest (take len src) x (ground (arith, length-take len src)),
          ))
  ]
