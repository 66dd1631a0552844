-- ===== src/Examples/Pieces.antt =====
-- Values delivered to a client's buffer.
use ez_rets.Base.{◌-◌, ◌≡◌, refl, inl, inr, [], ◌∷◌, ◌++◌, none, some, arith, Text, pos, codes}
use ez_rets.Examples.Data.{plain, blank}
use ez_rets.Memory.{read_bytes}
use ez_rets.Stream.{DataStreamInfo, has_more_data}
use ez_rets.Translation.Long.{translate_binary, translate_character}
use ez_rets.Translation.Numeric.{translate_numeric, take_sign, find_first_of}
use ez_rets.Translation.Numeric.Decoding.{le_value, translate_numeric-value}
use ez_rets.Translation.Pieces.{receive}
use ez_rets.Translation.Pieces.Long.{
  binary_worker, character_worker, translate_binary-pieces, translate_character-pieces,
}
use ez_rets.Translation.Pieces.Outside.{translate_binary-outside, translate_character-outside}
use ez_rets.Utils.{copy_string}
use ez_rets.Utils.Copy.{copy_string-reads, copy_string-outside}

abbrev remarks : Text
remarks = codes "Close to schools."

-- The stream of the first column after six bytes.
abbrev after_six : DataStreamInfo
after_six = record { column = 1; status = has_more_data; offset = 6 }

translate_character-pieces_example :
    ((receive
        (character_worker remarks 1000 2000)
        (λ n. n - 1)
        remarks
        1000
        2000
        (4 ∷ 5 ∷ 20 ∷ [])
        after_six
        blank).0
      ≡ codes "to schools.")
    × ((receive
          (character_worker remarks 1000 2000)
          (λ n. n - 1)
          remarks
          1000
          2000
          (4 ∷ 5 ∷ 20 ∷ [])
          after_six
          blank).1.offset
        ≡ 17)
translate_character-pieces_example =
    translate_character-pieces remarks 1000 2000 (4 ∷ 5 ∷ 20 ∷ []) after_six blank (omega arith)
      (omega arith) refl (omega arith) (omega arith) (omega arith)

translate_binary-pieces_example :
    ((receive
        (binary_worker remarks 1000 2000)
        (λ n. n)
        remarks
        1000
        2000
        (4 ∷ 5 ∷ [])
        after_six
        blank).0
      ≡ codes "to school")
    × ((receive
          (binary_worker remarks 1000 2000)
          (λ n. n)
          remarks
          1000
          2000
          (4 ∷ 5 ∷ [])
          after_six
          blank).1.offset
        ≡ 15)
translate_binary-pieces_example =
    translate_binary-pieces remarks 1000 2000 (4 ∷ 5 ∷ []) after_six blank (omega arith)
      (omega arith) refl (omega arith) (omega arith) (omega arith)

translate_character-outside_example :
    (translate_character remarks 1000 (pos 8) 2000 blank (some after_six)).memory.bytes 1008 ≡ 0
translate_character-outside_example =
    translate_character-outside remarks 1000 2000 8 blank (omega arith) (some after_six) 1008
      (inr (omega arith))

translate_binary-outside_example :
    (translate_binary remarks 1000 (pos 8) 2000 blank (some after_six)).memory.bytes 999 ≡ 0
translate_binary-outside_example =
    translate_binary-outside remarks 1000 2000 8 blank (omega arith) (some after_six) 999
      (inl (omega arith))

copy_string-reads_example :
    ((copy_string remarks 1000 6 blank).1 ≡ 5)
    × (read_bytes (copy_string remarks 1000 6 blank).0 1000 6 ≡ codes "Close" ++ 0 ∷ [])
copy_string-reads_example = copy_string-reads remarks 1000 6 blank (omega arith) (omega arith)

copy_string-outside_example : (copy_string remarks 1000 6 blank).0.bytes 1006 ≡ 0
copy_string-outside_example = copy_string-outside remarks 1000 6 blank 1006 (inr (omega arith))

-- 2^56 and seven more: the client gets seven.
translate_numeric-value_example :
    le_value (
      read_bytes
        (translate_numeric plain (codes "72057594037927943") 1000 2000 none blank).memory
        1003
        16)
    ≡ 7
unfolding take_sign find_first_of
translate_numeric-value_example =
    translate_numeric-value plain (codes "72057594037927943") 1000 2000 none blank 1
      72057594037927943 (codes "72057594037927943") (omega arith) refl refl refl refl
