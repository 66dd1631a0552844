-- ===== src/Translation/Results.antt =====
-- project/driver/src/TranslationWorkers.cpp: what `setResultSize` writes, and what it leaves alone.
use ez_rets.Base.{ℕ, ◌≡◌, ◌≢◌, arith, ℤ}
use ez_rets.Memory.{Memory, set_word}
use ez_rets.Translation.{set_result_size}

pub bytes-set_result_size : (p : ℕ) (v : ℤ) (m : Memory) → (set_result_size p v m).bytes ≡ m.bytes
unfolding set_result_size set_word
bytes-set_result_size p v m = ground arith

pub words-set_result_size :
    (p : ℕ) (v : ℤ) (m : Memory) → p ≢ 0 → (set_result_size p v m).words p ≡ v
unfolding set_result_size set_word
words-set_result_size p v m ne = ground arith
