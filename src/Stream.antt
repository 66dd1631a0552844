-- ===== src/Stream.antt =====
-- project/driver/src/DataStreamInfo.cpp: how far SQLGetData has come in a long column.
use ez_rets.Base.{ℕ}

pub data FileStatus : Type 0 where
  no_data_retrieved has_more_data no_more_data : FileStatus

pub record DataStreamInfo : Type 0 where
  pub column : ℕ
  pub status : FileStatus
  pub offset : ℕ

-- DataStreamInfo::reset, and the constructor
abbrev pub reset : DataStreamInfo
reset = record { column = 0; status = no_data_retrieved; offset = 0 }
