-- ===== src/Handle/Lengths.antt =====
-- project/driver/src/AbstractHandle.cpp: what `SetStringLength` writes, and what it leaves alone.
use ez_rets.Base.{ℕ, ◌≡◌, ◌≢◌, arith, ℤ}
use ez_rets.Handle.{set_string_length}
use ez_rets.Memory.{Memory, set_word}

pub bytes-set_string_length :
    (m : Memory) (p : ℕ) (v : ℤ) → (set_string_length p v m).bytes ≡ m.bytes
unfolding set_string_length set_word
bytes-set_string_length m p v = ground arith

pub words-set_string_length_other :
    (m : Memory) (p q : ℕ) (v : ℤ) → p ≢ q → (set_string_length q v m).words p ≡ m.words p
unfolding set_string_length set_word
words-set_string_length_other m p q v h = ground arith

pub words-set_string_length :
    (m : Memory) (p : ℕ) (v : ℤ) → p ≢ 0 → (set_string_length p v m).words p ≡ v
unfolding set_string_length set_word
words-set_string_length m p v h = ground arith
