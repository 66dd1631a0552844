-- ===== src/Translation/Long.antt =====
-- project/driver/src/TranslationWorkers.cpp: the workers for text and for binary data, which can
-- deliver a long value in pieces, with a DataStreamInfo to say how far they have come.
use ez_rets.Base.{
  ℕ, ◌+◌, ◌-◌, ◌%◌, ◌&&◌, [], ◌∷◌, Option, none, some, ◌==◌, leb, ltb, not, if◌then◌else◌, Text, ℤ,
  pos, negsuc, length, is_empty,
}
use ez_rets.Memory.{Memory, write_bytes}
use ez_rets.Odbc.{sqllen_of_size, size_of_sqllen, size_of_int, size_sub, size_mod}
use ez_rets.Stream.{DataStreamInfo, has_more_data, no_more_data}
use ez_rets.Translation.{Outcome, out_of_range, set_result_size}
use ez_rets.Translation.Workers.{returns, throws}
use ez_rets.Odbc.{sql_null_data}
use ez_rets.Utils.{copy_string, string_copy}

-- The offset and the status after `size` more bytes of a value.
abbrev pub advance : Text → DataStreamInfo → ℕ → DataStreamInfo
advance text s size =
    let offset = (s.offset + size) % size_mod in
    record s {
      offset = offset;
      status = if leb (length text) offset then no_more_data else has_more_data;
    }

-- The room for characters in a buffer of `target_len` bytes: one is kept for the terminator.
abbrev pub text_room : ℤ → ℕ
text_room (pos n) = n - 1
text_room (negsuc n) = 0

module _ (text : Text) (target : ℕ) (target_len : ℤ) (result_size : ℕ) (m : Memory) where
  -- The piece is written, and the stream moves on; the indicator is what was left before it.
  abbrev deliver : DataStreamInfo → Memory → ℕ → Outcome
  deliver s m' size =
      returns (set_result_size result_size (sqllen_of_size (size_sub (length text) s.offset)) m')
        (some (advance text s size))

  abbrev text_piece : DataStreamInfo → Option Text → Outcome
  text_piece s none = throws m (some s) out_of_range
  text_piece s (some piece) =
      deliver s (write_bytes (write_bytes m target piece) (target + text_room target_len) (0 ∷ []))
        (length piece)

  abbrev character_streamed : Option DataStreamInfo → Outcome
  character_streamed none =
      let (m', size) = copy_string text target (size_of_sqllen target_len) m in
      returns (set_result_size result_size (sqllen_of_size size) m') none
  character_streamed (some s) =
      if not (target == 0) && ltb 0 (text_room target_len)
      then text_piece s (string_copy text (text_room target_len) s.offset)
      else deliver s m 0

  -- CharacterTranslationWorker::translate
  unfoldable pub translate_character : Option DataStreamInfo → Outcome
  unfolding set_result_size write_bytes copy_string
  translate_character stream =
      if is_empty text
      then returns (set_result_size result_size sql_null_data m) stream
      else character_streamed stream

  abbrev binary_offset : Option DataStreamInfo → ℕ
  binary_offset none = 0
  binary_offset (some s) = size_of_int s.offset

  abbrev binary_written : Option DataStreamInfo → Memory → ℕ → Outcome
  binary_written none m' size = returns (set_result_size result_size (sqllen_of_size size) m') none
  binary_written (some s) m' size = deliver s m' size

  abbrev binary_piece : Option DataStreamInfo → Option Text → Outcome
  binary_piece stream none = throws m stream out_of_range
  binary_piece stream (some piece) =
      binary_written stream (write_bytes m target piece) (length piece)

  -- BinaryTranslationWorker::translate
  unfoldable pub translate_binary : Option DataStreamInfo → Outcome
  unfolding set_result_size write_bytes
  translate_binary stream =
      if is_empty text
      then returns (set_result_size result_size sql_null_data m) stream
      else if target == 0
      then binary_written stream m 0
      else binary_piece stream (string_copy text (size_of_sqllen target_len) (binary_offset stream))
