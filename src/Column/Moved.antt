-- ===== src/Column/Moved.antt =====
-- project/driver/src/Column.cpp and Descriptors.cpp: where a bound value is written.
use ez_rets.Base.{
  ℕ, suc, ◌%◌, Bool-cases, inl, inr, if◌then◌else◌, Option, eqb_ℤ, eqb_ℤ_iff, ◌+◌, ◌≡◌, ◌<◌, ◌≢◌,
  refl, false, none, some, [], arith, ◌==◌, pos,
}
use ez_rets.Column.{moved_pointer}
use ez_rets.Descriptors.{AppRowDesc, adjust_desc_pointer, get_data_ptr, set_desc_field, data_ptr}
use ez_rets.Map.{get-put}
use ez_rets.Memory.{Memory}
use ez_rets.Odbc.{size_mod, size_of_sqllen}
use ez_rets.Stream.{DataStreamInfo}

module _ (ard : AppRowDesc) (col_no : ℕ) (m : Memory) (offset : ℕ)
    (offset_set : ard.bind_offset_ptr ≢ 0) (at : m.words ard.bind_offset_ptr ≡ pos offset)
    (no_ptrs : ard.desc_data_ptrs ≡ []) where
  -- With a bind offset in effect and no pointers in the descriptor, SQLFetch writes the offset
  -- further on than the bound pointer says, and SQLGetData where it says. A null pointer is moved
  -- like any other, so for a positive offset the null indicator of a bound column is taken for an
  -- address. Pointer and offset together stay below 2^64.
  moved_pointer-bound :
      (s : DataStreamInfo) (ptr : ℕ)
      → ptr + offset < size_mod
      → 0 < offset
      → (moved_pointer ard col_no none m ptr ≡ ptr + offset)
        × (moved_pointer ard col_no (some s) m ptr ≡ ptr)
        × (moved_pointer ard col_no none m 0 ≢ 0)
  unfolding moved_pointer adjust_desc_pointer get_data_ptr
  moved_pointer-bound s ptr lt pos_offset =
      let moved : (ard.bind_offset_ptr == 0) ≡ false = ground arith in
      rw (at, no_ptrs, moved) (omega arith, refl, λ h. absurd (omega (arith, h)))

get_data_ptr-set :
    (ard : AppRowDesc) (i j : ℕ) (value : ℕ)
    → get_data_ptr (set_desc_field ard (pos (suc i)) data_ptr value).0 (pos j)
      ≡ (if i == j then value else get_data_ptr ard (pos j))
unfolding get_data_ptr set_desc_field
get_data_ptr-set ard i j value =
    rw (get-put eqb_ℤ eqb_ℤ_iff (pos i) (pos j) value ard.desc_data_ptrs)
      (elim (Bool-cases (i == j)) [ inl e ↦ rw (e) | inr e ↦ rw (e) ])

-- A data pointer that a client sets for record i + 1 of the row descriptor by SQLSetDescField is
-- taken for the address of an offset: in the column of index i, which has that number, a pointer
-- is moved by what stands at the address, in SQLFetch and in SQLGetData, and in no other column does
-- it change. The pointer is not null and no bind offset is set.
pub moved_pointer-set_desc_field :
    (ard : AppRowDesc) (i value : ℕ)
    → value ≢ 0
    → ard.bind_offset_ptr ≡ 0
    → (j : ℕ) (stream : Option DataStreamInfo) (m : Memory) (ptr : ℕ)
    → let ard' = (set_desc_field ard (pos (suc i)) data_ptr value).0 in
      moved_pointer ard' j stream m ptr ≡ (
        if i == j
        then (ptr + size_of_sqllen (m.words value)) % size_mod
        else moved_pointer ard j stream m ptr)
unfolding moved_pointer adjust_desc_pointer set_desc_field
moved_pointer-set_desc_field ard i value set no_offset j none m ptr =
    let is_set : (value == 0) ≡ false = ground arith in
    elim (Bool-cases (i == j)) [
      | inl e ↦ rw (get_data_ptr-set ard i j value, e, is_set, no_offset)
      | inr e ↦ rw (get_data_ptr-set ard i j value, e)
    ]
moved_pointer-set_desc_field ard i value set no_offset j (some s) m ptr =
    let is_set : (value == 0) ≡ false = ground arith in
    elim (Bool-cases (i == j)) [
      | inl e ↦ rw (get_data_ptr-set ard i j value, e, is_set)
      | inr e ↦ rw (get_data_ptr-set ard i j value, e)
    ]
