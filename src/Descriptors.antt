-- ===== src/Descriptors.antt =====
-- project/driver/src/Descriptors.cpp: the descriptors of a statement and their fields.
use ez_rets.Base.{
  ℕ, ◌+◌, ◌%◌, zero, suc, pos, negsuc, codes, List, [], Option, none, some, ◌==◌, if◌then◌else◌, ℤ,
  eqb_ℤ,
}
use ez_rets.Handle.{Error, add_error}
use ez_rets.Map.{put, get}
use ez_rets.Memory.{Memory}
use ez_rets.Odbc.{SqlReturn, success, success_with_info, error, size_of_sqllen, size_mod}

-- AppRowDesc, with mDescDataPtrs of its base
pub record AppRowDesc : Type 0 where
  pub errors : List Error
  pub array_size : ℕ
  pub bind_offset_ptr : ℕ
  pub bind_type : ℕ
  pub desc_data_ptrs : List (ℤ × ℕ)

-- AppRowDesc::AppRowDesc
abbrev pub new_ard : AppRowDesc
new_ard = record {
  errors = [];
  array_size = 1;
  bind_offset_ptr = 0;
  bind_type = 0;
  desc_data_ptrs = [];
}

-- ImpRowDesc
pub record ImpRowDesc : Type 0 where
  pub array_status_ptr : ℕ
  pub rows_processed_ptr : ℕ

-- AppParamDesc
pub record AppParamDesc : Type 0 where
  pub bind_offset_ptr : ℕ
  pub bind_type : ℕ
  pub array_status_ptr : ℕ
  pub array_size : ℕ

-- AppParamDesc::AppParamDesc; the fields that it does not set are not read
abbrev pub new_apd : AppParamDesc
new_apd = record { bind_offset_ptr = 0; bind_type = 0; array_status_ptr = 0; array_size = 0 }

-- ImpParamDesc
pub record ImpParamDesc : Type 0 where
  pub array_status_ptr : ℕ
  pub row_processed_ptr : ℕ

-- ImpParamDesc::ImpParamDesc
abbrev pub new_ipd : ImpParamDesc
new_ipd = record { array_status_ptr = 0; row_processed_ptr = 0 }

-- adjustDescPointer: the offset is read through its pointer when it is used
unfoldable pub adjust_desc_pointer : Memory → ℕ → ℕ → ℕ
adjust_desc_pointer m offset ptr =
    if offset == 0 then ptr else (ptr + size_of_sqllen (m.words offset)) % size_mod

abbrev pub or_null : Option ℕ → ℕ
or_null none = 0
or_null (some ptr) = ptr

-- BaseDesc::getDataPtr
unfoldable pub get_data_ptr : AppRowDesc → ℤ → ℕ
unfolding get
get_data_ptr ard rec_number = or_null (get eqb_ℤ rec_number ard.desc_data_ptrs)

-- The labels of SQLSetDescField.
pub data DescField : Type 0 where
  bind_type_field octet_length_ptr precision_field scale_field data_ptr other_field : DescField

abbrev option_changed : AppRowDesc → AppRowDesc × SqlReturn
option_changed ard = (
  record ard { errors = add_error ard.errors (codes "01S02") (codes "Option Value Changed") },
  success_with_info,
)

-- RecNumber - 1, in the integers
abbrev before : ℤ → ℤ
before (pos zero) = negsuc 0
before (pos (suc n)) = pos n
before (negsuc n) = negsuc (suc n)

-- BaseDesc::SQLSetDescField of the row descriptor; `value` is the pointer as a number
unfoldable pub set_desc_field : AppRowDesc → ℤ → DescField → ℕ → AppRowDesc × SqlReturn
unfolding put
set_desc_field ard rec_number bind_type_field value =
    if value == 0 then (ard, success) else option_changed ard
set_desc_field ard rec_number octet_length_ptr value =
    if value == 0 then (ard, success) else option_changed ard
set_desc_field ard rec_number precision_field value = (ard, success)
set_desc_field ard rec_number scale_field value = (ard, success)
set_desc_field ard rec_number data_ptr value = (
  record ard { desc_data_ptrs = put eqb_ℤ (before rec_number) value ard.desc_data_ptrs },
  success,
)
set_desc_field ard rec_number other_field value = (
  record ard {
    errors =
        add_error ard.errors (codes "HY000")
          (codes "SQLSetDescField not implemented for this field yet.");
  },
  error,
)

-- BaseDesc::SQLGetDescField
unfoldable pub get_desc_field : AppRowDesc → AppRowDesc × SqlReturn
get_desc_field ard = (
  record ard {
    errors =
        add_error ard.errors (codes "HY000")
          (codes "SQLGetDescField not implemented for this field yet.");
  },
  error,
)
