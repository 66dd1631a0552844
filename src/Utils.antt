-- ===== src/Utils.antt =====
-- project/driver/src/utils.cpp: `copyString`, by which every string reaches a client's buffer.
pub mod Copy
use ez_rets.Base.{
  ℕ, zero, suc, ◌+◌, ◌-◌, ◌≤◌, ◌<◌, ◌≡◌, refl, ◌≢◌, ◌⊎◌, inl, inr, Bool, true, false, ◌||◌, List,
  [], ◌∷◌, ◌++◌, Option, none, some, arith, ◌==◌, leb, if◌then◌else◌, length, take, drop, Text, min,
  length-take,
}
use ez_rets.Memory.{Memory, write_bytes, read_bytes, poke, peek, poke_outside, peek-poke, peek-ext}

-- The `n` bytes that `std::string::copy(dest, n, pos)` writes; it throws past the end.
abbrev pub string_copy : Text → ℕ → ℕ → Option Text
string_copy s n pos = if leb pos (length s) then some (take n (drop pos s)) else none

-- odbcrets::copyString
unfoldable pub copy_string : Text → ℕ → ℕ → Memory → Memory × ℕ
copy_string src dest len m =
    if dest == 0 || len == 0
    then (m, 0)
    else let copied : Text = take len src in
      let m' = write_bytes m dest copied in
      if leb len (length copied)
      then (write_bytes m' (dest + (len - 1)) (0 ∷ []), len - 1)
      else (write_bytes m' (dest + length copied) (0 ∷ []), length copied)
