-- ===== src/Stmt/Texts.antt =====
-- project/driver/src/RetsSTMT.cpp: SQLGetData of a text column.
use ez_rets.Base.{
  ℕ, suc, ◌+◌, ◌-◌, ◌^◌, ◌≤◌, ◌<◌, ◌≡◌, refl, ap, sym, ◌∙◌, ◌≢◌, inl, inr, Bool, true, false, List,
  [], ◌∷◌, some, arith, ◌==◌, leb, if◌then◌else◌, Text, ℤ, pos, length, get_elem?, take, drop, min,
  is_empty, Bool-cases,
}
use ez_rets.Column.{
  Column, faux, set_data, modify_data, get_best_sql_type, moved_pointer, int_of_sqllen, Context,
}
use ez_rets.Descriptors.{AppRowDesc, get_data_ptr, adjust_desc_pointer}
use ez_rets.Librets.{RetsMetadata}
use ez_rets.Memory.{Memory, read_bytes, write_bytes}
use ez_rets.Odbc.{success, success_with_info, sql_char}
use ez_rets.Platform.{Platform}
use ez_rets.ResultSet.{bulk, Bulk, get_data}
use ez_rets.Stmt.{Stmt, returned, sql_get_data, follow_column, context, got_data, get_by_status}
use ez_rets.Stmt.Binding.{refuses_column-never}
use ez_rets.Stream.{DataStreamInfo, no_data_retrieved, has_more_data, no_more_data, FileStatus}
use ez_rets.Translation.{character, set_result_size}
use ez_rets.Translation.Workers.{returns}
use ez_rets.Translation.Long.{advance}
use ez_rets.Translation.Pieces.Long.{character-Delivers, character_piece_lem}
use ez_rets.Translation.Translator.{DataTranslator, native, translate, find, odbc2trans, run_worker}

module _ (p : Platform) (md : RetsMetadata) (quirk : Bool) (c : Column) (default_type : ℤ)
    (max_length : ℕ) (is_faux : c.kind ≡ faux default_type max_length) (ard : AppRowDesc)
    (no_ptrs : ard.desc_data_ptrs ≡ []) (col_no n target ind : ℕ) (short : n < 2 ^ 31)
    (stream : DataStreamInfo) (m : Memory) where
  -- Down to the worker.
  set_data-text :
      (text : Text)
      → set_data
          (record { platform = p; metadata = md; translator = native quirk; ard = ard })
          c
          col_no
          text
          sql_char
          target
          (pos n)
          ind
          (some stream)
          m
        ≡ translate p text sql_char target (pos n) ind (some stream) m (native quirk)
  unfolding set_data get_best_sql_type modify_data moved_pointer get_data_ptr adjust_desc_pointer
  set_data-text text =
      let fits : int_of_sqllen (pos n) ≡ pos n = ground arith in rw (is_faux, no_ptrs, fits)

found-character : (quirk : Bool) → find sql_char (odbc2trans quirk) ≡ some character
unfolding find odbc2trans
found-character true = refl
found-character false = refl

field-get_data :
    (x : Context) (t : DataTranslator) (cols : List Column) (b : Bulk) (i : ℕ) (c : Column)
    (row : List Text) (text : Text) (target_type : ℤ) (target : ℕ) (buffer_length : ℤ) (ind : ℕ)
    (stream : DataStreamInfo) (m : Memory)
    → get_elem? cols i ≡ some c
    → get_elem? b.results b.position ≡ some row
    → get_elem? row i ≡ some text
    → get_data x
        (record { translator = t; columns = cols; rows = bulk b })
        (suc i)
        target_type
        target
        buffer_length
        ind
        stream
        m
      ≡ some (set_data x c (suc i - 1) text target_type target buffer_length ind (some stream) m)
unfolding get_data
field-get_data x t cols b i c row text target_type target buffer_length ind stream m col_found
      row_found text_found =
    rw (col_found, get_data) (rw (row_found, get_data) (rw text_found))

module _ (p : Platform) (md : RetsMetadata) (quirk : Bool) (cols : List Column) (b : Bulk) (i : ℕ)
    (c : Column) (default_type : ℤ) (max_length : ℕ) (row : List Text) (text : Text)
    (col_found : get_elem? cols i ≡ some c) (is_faux : c.kind ≡ faux default_type max_length)
    (row_found : get_elem? b.results b.position ≡ some row)
    (text_found : get_elem? row i ≡ some text) (s : Stmt)
    (set_rs : s.result_set
      ≡ some (record { translator = native quirk; columns = cols; rows = bulk b }))
    (no_ptrs : s.ard.desc_data_ptrs ≡ []) (n target ind : ℕ) (m : Memory) where
  abbrev left : ℕ
  left = length text - s.data_stream_info.offset

  abbrev piece_memory : Memory
  piece_memory = set_result_size ind (pos left) (
      write_bytes (write_bytes m target (take (n - 1) (drop s.data_stream_info.offset text)))
        (target + (n - 1)) (0 ∷ []))

  abbrev moved_on : DataStreamInfo
  moved_on = advance text s.data_stream_info (min (n - 1) left)

  piece :
      s.data_stream_info.offset ≤ length text
      → is_empty text ≡ false
      → length text < 2 ^ 31
      → 1 < n
      → n < 2 ^ 31
      → target ≢ 0
      → get_data
          (context p md s (record { translator = native quirk; columns = cols; rows = bulk b }))
          (record { translator = native quirk; columns = cols; rows = bulk b })
          (suc i)
          sql_char
          target
          (pos n)
          ind
          s.data_stream_info
          m
        ≡ some (returns piece_memory (some moved_on))
  unfolding translate run_worker
  piece inside text_set small lt short target_set =
      field-get_data
        (context p md s (record { translator = native quirk; columns = cols; rows = bulk b }))
        (native quirk) cols b i c row text sql_char target (pos n) ind s.data_stream_info m
        col_found row_found text_found
      ∙ ap some (
          set_data-text p md quirk c default_type max_length is_faux s.ard no_ptrs (suc i - 1) n
            target ind short s.data_stream_info m text
          ∙ rw (found-character quirk) (
              rw (
                character_piece_lem text target ind target_set text_set n s.data_stream_info m
                  inside small lt)))

  here : Stmt
  here = record s {
    errors = [];
    result_set = some (record { translator = native quirk; columns = cols; rows = bulk b });
  }

  by_status :
      (status : FileStatus)
      → status ≢ no_more_data
      → get_data
          (context p md s (record { translator = native quirk; columns = cols; rows = bulk b }))
          (record { translator = native quirk; columns = cols; rows = bulk b })
          (suc i)
          sql_char
          target
          (pos n)
          ind
          s.data_stream_info
          m
        ≡ some (returns piece_memory (some moved_on))
      → get_by_status p md here (suc i) sql_char target (pos n) ind m status
        ≡ got_data p here m (some (returns piece_memory (some moved_on)))
  unfolding here get_by_status got_data
  by_status no_more_data more e = absurd (more refl)
  by_status has_more_data more e = ap (got_data p here m) e
  by_status no_data_retrieved more e = ap (got_data p here m) e

  status_of :
      s.data_stream_info.offset ≤ length text
      → length text < 2 ^ 31
      → moved_on.status ≡ (if leb left (n - 1) then no_more_data else has_more_data)
  status_of inside small = ground arith

  -- SQLGetData of a text as SQL_C_CHAR, from the call down to the client's buffer: the buffer holds
  -- the next n - 1 bytes of the text, or what is left of it; the indicator says how much was left
  -- before the call; the stream moves on by what was delivered; and the call gives SQL_SUCCESS if
  -- that was all of the rest, else SQL_SUCCESS_WITH_INFO. The column is one of the driver's own,
  -- which needs no lookup, the translator is the native one, the statement stands on a row, the
  -- stream follows the column and is not used up, and no descriptor pointers are set. The text is
  -- not empty and shorter than 2 GB, the buffer has n bytes, 1 < n < 2^31, and no pointer is null.
  pub sql_get_data-text :
      s.data_stream_info.column ≡ suc i
      → s.data_stream_info.status ≢ no_more_data
      → s.data_stream_info.offset ≤ length text
      → is_empty text ≡ false
      → length text < 2 ^ 31
      → 1 < n
      → n < 2 ^ 31
      → target ≢ 0
      → ind ≢ 0
      → let d = sql_get_data p md s (suc i) sql_char target (pos n) ind m in
        (d.stmt.data_stream_info ≡ advance text s.data_stream_info (min (n - 1) left))
        × (d.end ≡ returned (if leb left (n - 1) then success else success_with_info))
        × (read_bytes d.memory target (min (n - 1) left)
            ≡ take (n - 1) (drop s.data_stream_info.offset text))
        × (d.memory.words ind ≡ pos left)
  unfolding sql_get_data follow_column here
  sql_get_data-text same more inside text_set small lt short target_set ind_set =
      let follows : (s.data_stream_info.column == suc i) ≡ true = ground arith in
      rw
        (
          set_rs,
          refuses_column-never (suc i) _,
          follows,
          by_status s.data_stream_info.status more
              (piece inside text_set small lt short target_set),
        )
        (elim (Bool-cases (leb left (n - 1))) [
          | inl all ↦ rw (status_of inside small, all) (refl, refl, read, indicated)
          | inr part ↦ rw (status_of inside small, part) (refl, refl, read, indicated)
        ])
    where
      read :
          read_bytes piece_memory target (min (n - 1) left)
          ≡ take (n - 1) (drop s.data_stream_info.offset text)
      read =
          ap (λ r. read_bytes r.memory target (min (n - 1) left))
            (sym (
              character_piece_lem text target ind target_set text_set n s.data_stream_info m inside
                small lt))
          ∙ (character-Delivers text target ind target_set text_set n s.data_stream_info m inside
              small ind_set lt).read

      indicated : piece_memory.words ind ≡ pos left
      indicated =
          ap (λ r. r.memory.words ind)
            (sym (
              character_piece_lem text target ind target_set text_set n s.data_stream_info m inside
                small lt))
          ∙ (character-Delivers text target ind target_set text_set n s.data_stream_info m inside
              small ind_set lt).indicated
