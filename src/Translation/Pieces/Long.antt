-- ===== src/Translation/Pieces/Long.antt =====
-- project/driver/src/TranslationWorkers.cpp: what one call of the workers for text and for binary
-- data delivers, and what a client receives by repeated calls.
use ez_rets.Base.{
  ℕ, ◌+◌, ◌-◌, ◌%◌, ◌^◌, ◌≤◌, ◌<◌, ◌≡◌, ap, sym, ◌∙◌, ◌≢◌, true, false, not, ◌&&◌, List, [], ◌∷◌,
  some, arith, ◌==◌, ltb, leb, Text, pos, length, take, drop, min, is_empty, All, length-take,
  length-drop,
}
use ez_rets.Memory.{
  Memory, write_bytes, read_bytes, poke, peek, peek-poke, peek-ext, bytes-write_bytes,
}
use ez_rets.Odbc.{sqllen_of_size, size_of_int, size_sub, size_mod}
use ez_rets.Stream.{DataStreamInfo}
use ez_rets.Translation.{set_result_size}
use ez_rets.Translation.Long.{translate_binary, translate_character, advance}
use ez_rets.Translation.Workers.{returns}
use ez_rets.Translation.Pieces.{PieceWorker, receive, total_room, Delivers, receive-Delivers}
use ez_rets.Translation.Results.{bytes-set_result_size, words-set_result_size}

sqllen-size_sub : (a b : ℕ) → b ≤ a → a < 2 ^ 31 → sqllen_of_size (size_sub a b) ≡ pos (a - b)
sqllen-size_sub a b le lt = ground arith

size_of_int_lem : (n : ℕ) → n < 2 ^ 31 → size_of_int n ≡ n
size_of_int_lem n lt = ground arith

abbrev pub binary_worker : Text → ℕ → ℕ → PieceWorker
binary_worker text target result_size target_len m stream =
    translate_binary text target target_len result_size m stream

abbrev pub character_worker : Text → ℕ → ℕ → PieceWorker
character_worker text target result_size target_len m stream =
    translate_character text target target_len result_size m stream

-- A buffer of `n` bytes, and where the stream stands in the text.
module _ (text : Text) (target result_size : ℕ) where
  module _ (target_set : target ≢ 0) (text_set : is_empty text ≡ false) (n : ℕ) (s : DataStreamInfo)
      (m : Memory) (in_text : s.offset ≤ length text) (small : length text < 2 ^ 31) where
    binary_piece_lem :
        n < 2 ^ 63
        → translate_binary text target (pos n) result_size m (some s)
          ≡ returns
              (set_result_size result_size
                (pos (length text - s.offset))
                (write_bytes m target (take n (drop s.offset text))))
              (some (advance text s (min n (length text - s.offset))))
    unfolding translate_binary set_result_size
    binary_piece_lem lt =
        let ne : (target == 0) ≡ false = ground arith in
        let fits : (n % size_mod) ≡ n = omega arith in
        let inside : leb s.offset (length text) ≡ true = ground arith in
        let size : length (take n (drop s.offset text)) ≡ min n (length text - s.offset) =
          length-take n (drop s.offset text) ∙ ap (min n) (length-drop s.offset text) in
        rw (
          text_set,
          ne,
          fits,
          size_of_int_lem s.offset (omega arith),
          inside,
          size,
          sqllen-size_sub (length text) s.offset in_text small,
        )

    binary-Delivers :
        result_size ≢ 0
        → n < 2 ^ 63
        → Delivers (binary_worker text target result_size) (λ k. k) text target result_size n s m
    unfolding read_bytes
    binary-Delivers result_set lt =
        let e = binary_piece_lem lt in
        let piece : Text = take n (drop s.offset text) in
        let size : length piece ≡ min n (length text - s.offset) =
          length-take n (drop s.offset text) ∙ ap (min n) (length-drop s.offset text) in
        record {
          moved = ap (λ r. r.stream) e;
          read =
              ap (λ r. peek r.memory.bytes target (min n (length text - s.offset))) e
              ∙ ap (λ f. peek f target (min n (length text - s.offset)))
                  (bytes-set_result_size result_size _ _
                    ∙ bytes-write_bytes m target piece target_set)
              ∙ ap (peek (poke m.bytes target piece) target) (sym size)
              ∙ peek-poke m.bytes target piece;
          indicated =
              ap (λ r. r.memory.words result_size) e
              ∙ words-set_result_size result_size _ _ result_set;
        }

    pub character_piece_lem :
        1 < n
        → translate_character text target (pos n) result_size m (some s)
          ≡ returns
              (set_result_size result_size (pos (length text - s.offset)) (
                write_bytes
                  (write_bytes m target (take (n - 1) (drop s.offset text)))
                  (target + (n - 1))
                  (0 ∷ [])))
              (some (advance text s (min (n - 1) (length text - s.offset))))
    unfolding translate_character set_result_size
    character_piece_lem lt =
        let usable : (not (target == 0) && ltb 0 (n - 1)) ≡ true = ground arith in
        let inside : leb s.offset (length text) ≡ true = ground arith in
        let size : length (take (n - 1) (drop s.offset text))
            ≡ min (n - 1) (length text - s.offset) =
          length-take (n - 1) (drop s.offset text) ∙ ap (min (n - 1)) (length-drop s.offset text) in
        rw (text_set, usable, inside, size, sqllen-size_sub (length text) s.offset in_text small)

    pub character-Delivers :
        result_size ≢ 0
        → 1 < n
        → Delivers
            (character_worker text target result_size)
            (λ k. k - 1)
            text
            target
            result_size
            n
            s
            m
    unfolding read_bytes
    character-Delivers result_set lt =
        let e = character_piece_lem lt in
        let piece : Text = take (n - 1) (drop s.offset text) in
        let size : length piece ≡ min (n - 1) (length text - s.offset) =
          length-take (n - 1) (drop s.offset text) ∙ ap (min (n - 1)) (length-drop s.offset text) in
        record {
          moved = ap (λ r. r.stream) e;
          read =
              ap (λ r. peek r.memory.bytes target (min (n - 1) (length text - s.offset))) e
              ∙ ap (λ f. peek f target (min (n - 1) (length text - s.offset)))
                  (bytes-set_result_size result_size _ _
                    ∙ bytes-write_bytes (write_bytes m target piece) (target + (n - 1)) (0 ∷ [])
                        (omega arith)
                    ∙ ap (λ f. poke f (target + (n - 1)) (0 ∷ []))
                        (bytes-write_bytes m target piece target_set))
              ∙ peek-ext _ (poke m.bytes target piece) target _ (λ x a b. ground arith)
              ∙ ap (peek (poke m.bytes target piece) target) (sym size)
              ∙ peek-poke m.bytes target piece;
          indicated =
              ap (λ r. r.memory.words result_size) e
              ∙ words-set_result_size result_size _ _ result_set;
        }

  module _ (ns : List ℕ) (s : DataStreamInfo) (m : Memory) where
    -- A client that fetches a long binary value from its start or from further on with a sequence
    -- of buffers receives, in order and without a gap, as much of what is left of the value as the
    -- buffers hold together; a buffer of n bytes, fewer than 2^63, holds n of them, and the stream
    -- stands behind it. The value is not empty and shorter than 2 GB, and neither pointer is null.
    pub translate_binary-pieces :
        target ≢ 0
        → result_size ≢ 0
        → is_empty text ≡ false
        → length text < 2 ^ 31
        → All (λ n. n < 2 ^ 63) ns
        → s.offset ≤ length text
        → ((receive
              (binary_worker text target result_size)
              (λ n. n)
              text
              target
              result_size
              ns
              s
              m).0
            ≡ take (total_room (λ n. n) ns) (drop s.offset text))
          × ((receive
                (binary_worker text target result_size)
                (λ n. n)
                text
                target
                result_size
                ns
                s
                m).1.offset
              ≡ min (length text) (s.offset + total_room (λ n. n) ns))
    translate_binary-pieces p q text_set small fits le =
        receive-Delivers _ _ text target result_size (λ n. n < 2 ^ 63) small
          (λ n s' m' fit at. binary-Delivers p text_set n s' m' at small q fit) ns s m fits le

  module _ (ns : List ℕ) (s : DataStreamInfo) (m : Memory) where
    -- A client that fetches a long text value from its start or from further on with a sequence
    -- of buffers receives, in order and without a gap, as much of what is left of the value as the
    -- buffers hold together; a buffer of n bytes, two at least, holds n - 1 of them, and the stream
    -- stands behind it. The value is not empty and shorter than 2 GB, and neither pointer is null.
    pub translate_character-pieces :
        target ≢ 0
        → result_size ≢ 0
        → is_empty text ≡ false
        → length text < 2 ^ 31
        → All (λ n. 1 < n) ns
        → s.offset ≤ length text
        → ((receive
              (character_worker text target result_size)
              (λ n. n - 1)
              text
              target
              result_size
              ns
              s
              m).0
            ≡ take (total_room (λ n. n - 1) ns) (drop s.offset text))
          × ((receive
                (character_worker text target result_size)
                (λ n. n - 1)
                text
                target
                result_size
                ns
                s
                m).1.offset
              ≡ min (length text) (s.offset + total_room (λ n. n - 1) ns))
    translate_character-pieces p q text_set small fits le =
        receive-Delivers _ _ text target result_size (λ n. 1 < n) small
          (λ n s' m' fit at. character-Delivers p text_set n s' m' at small q fit) ns s m fits le
