-- ===== src/Translation/Pieces/Outside.antt =====
-- project/driver/src/TranslationWorkers.cpp: that the workers for long values keep to the client's
-- buffer.
use ez_rets.Base.{
  ℕ, ◌+◌, ◌-◌, ◌%◌, ◌^◌, ◌≤◌, ◌<◌, ◌≡◌, ap, ◌∙◌, ◌≢◌, inl, inr, true, not, ◌&&◌, [], ◌∷◌, Option,
  none, some, arith, ◌==◌, ltb, leb, Text, pos, length, take, drop, is_empty, length-take,
  Bool-cases,
}
use ez_rets.Memory.{Memory, write_bytes, poke_outside, bytes-write_bytes, SameOutside}
use ez_rets.Odbc.{size_of_int, size_mod}
use ez_rets.Stream.{DataStreamInfo}
use ez_rets.Translation.Long.{translate_binary, translate_character}
use ez_rets.Utils.Copy.{copy_string-outside}
use ez_rets.Translation.Results.{bytes-set_result_size}

write_outside :
    (m : Memory) (target n : ℕ) (text : Text)
    → target ≢ 0
    → length text ≤ n
    → SameOutside m.bytes (write_bytes m target text).bytes target n
write_outside m target n text ne le x h =
    ap (λ f. f x) (bytes-write_bytes m target text ne)
    ∙ poke_outside m.bytes target text x (ground arith)

module _ (text : Text) (target result_size : ℕ) (n : ℕ) (m : Memory) (lt : n < 2 ^ 63) where
  -- The worker for binary data changes no byte outside the client's buffer, whatever the value,
  -- the stream and the pointers; the buffer is shorter than 2^63 bytes.
  pub translate_binary-outside :
      (stream : Option DataStreamInfo)
      → SameOutside m.bytes
          (translate_binary text target (pos n) result_size m stream).memory.bytes
          target
          n
  unfolding translate_binary
  translate_binary-outside none x h =
      let fits : (n % size_mod) ≡ n = omega arith in
      let start : leb 0 (length text) ≡ true = ground arith in
      elim (Bool-cases (is_empty text)) [
        | inl e ↦ rw e (ap (λ f. f x) (bytes-set_result_size result_size _ m))
        | inr e ↦ elim (Bool-cases (target == 0)) [
          | inl z ↦ rw (e, z) (ap (λ f. f x) (bytes-set_result_size result_size _ m))
          | inr z ↦
              rw (e, z, fits, start)
                (ap (λ f. f x) (bytes-set_result_size result_size _ _)
                  ∙ write_outside m target n (take n text) (ground arith)
                      (omega (arith, length-take n text)) x h)
        ]
      ]
  translate_binary-outside (some s) x h =
      let fits : (n % size_mod) ≡ n = omega arith in
      elim (Bool-cases (is_empty text)) [
        | inl e ↦ rw e (ap (λ f. f x) (bytes-set_result_size result_size _ m))
        | inr e ↦ elim (Bool-cases (target == 0)) [
          | inl z ↦ rw (e, z) (ap (λ f. f x) (bytes-set_result_size result_size _ m))
          | inr z ↦ elim (Bool-cases (leb (size_of_int s.offset) (length text))) [
            | inl ok ↦
                rw (e, z, fits, ok)
                  (ap (λ f. f x) (bytes-set_result_size result_size _ _)
                    ∙ write_outside m target n (take n (drop (size_of_int s.offset) text))
                        (ground arith)
                        (omega (arith, length-take n (drop (size_of_int s.offset) text))) x h)
            | inr out ↦ rw (e, z, fits, out)
          ]
        ]
      ]

  -- The worker for text changes no byte outside the client's buffer, to which the terminator
  -- counts, whatever the value, the stream and the pointers; the buffer is shorter than 2^63 bytes.
  pub translate_character-outside :
      (stream : Option DataStreamInfo)
      → SameOutside m.bytes
          (translate_character text target (pos n) result_size m stream).memory.bytes
          target
          n
  unfolding translate_character
  translate_character-outside none x h =
      let fits : (n % size_mod) ≡ n = omega arith in
      elim (Bool-cases (is_empty text)) [
        | inl e ↦ rw e (ap (λ f. f x) (bytes-set_result_size result_size _ m))
        | inr e ↦
            rw (e, fits)
              (ap (λ f. f x) (bytes-set_result_size result_size _ _)
                ∙ copy_string-outside text target n m x h)
      ]
  translate_character-outside (some s) x h = elim (Bool-cases (is_empty text)) [
    | inl e ↦ rw e (ap (λ f. f x) (bytes-set_result_size result_size _ m))
    | inr e ↦ elim (Bool-cases (not (target == 0) && ltb 0 (n - 1))) [
      | inr z ↦ rw (e, z) (ap (λ f. f x) (bytes-set_result_size result_size _ m))
      | inl z ↦ elim (Bool-cases (leb s.offset (length text))) [
        | inl ok ↦
            let piece : Text = take (n - 1) (drop s.offset text) in
            rw (e, z, ok)
              (ap (λ f. f x) (bytes-set_result_size result_size _ _)
                ∙ write_outside (write_bytes m target piece) (target + (n - 1)) 1 (0 ∷ [])
                    (ground arith) (omega arith) x (ground arith)
                ∙ write_outside m target n piece (ground arith)
                    (omega (arith, length-take (n - 1) (drop s.offset text))) x h)
        | inr out ↦ rw (e, z, out)
      ]
    ]
  ]
