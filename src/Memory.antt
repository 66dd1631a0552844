-- ===== src/Memory.antt =====
-- The client's memory, as the driver writes to it through the pointers of an ODBC call: character
-- buffers byte by byte, and integer cells (SQLLEN, SQLINTEGER, SQLSMALLINT) whole. The two kinds
-- of objects do not overlap. Address 0 is NULL, and a write through it is recorded as a fault.
use ez_rets.Base.{
  ℕ, zero, suc, ◌+◌, ◌≤◌, ◌<◌, ◌≡◌, refl, ap, ◌∙◌, ◌++◌, take, ap₂, ◌≢◌, ◌⊎◌, inl, Bool, true, [],
  ◌∷◌, arith, ◌==◌, if◌then◌else◌, length, ℤ, Text,
}

pub record Memory : Type 0 where
  pub bytes : ℕ → ℕ
  pub words : ℕ → ℤ
  pub fault : Bool

abbrev pub update {ℓ} : {A : Type ℓ} → (ℕ → A) → ℕ → A → ℕ → A
update f p v x = if x == p then v else f x

abbrev pub poke : (ℕ → ℕ) → ℕ → Text → ℕ → ℕ
poke f p [] = f
poke f p (b ∷ bs) = poke (update f p b) (p + 1) bs

-- Writes the bytes from the address on.
unfoldable pub write_bytes : Memory → ℕ → Text → Memory
write_bytes m p [] = m
write_bytes m p (b ∷ bs) =
    if p == 0 then record m { fault = true } else record m { bytes = poke m.bytes p (b ∷ bs) }

-- Writes one integer.
unfoldable pub set_word : Memory → ℕ → ℤ → Memory
set_word m p v =
    if p == 0 then record m { fault = true } else record m { words = update m.words p v }

-- The bytes in a range of addresses.
abbrev pub peek : (ℕ → ℕ) → ℕ → ℕ → Text
peek f p zero = []
peek f p (suc n) = f p ∷ peek f (p + 1) n

unfoldable pub read_bytes : Memory → ℕ → ℕ → Text
read_bytes m p n = peek m.bytes p n

-- Outside the range [p, p + n) the two memories hold the same bytes.
abbrev pub SameOutside : (ℕ → ℕ) → (ℕ → ℕ) → ℕ → ℕ → Type 0
SameOutside f g p n = (x : ℕ) → (x < p) ⊎ (p + n ≤ x) → g x ≡ f x

pub poke_outside :
    (f : ℕ → ℕ) (p : ℕ) (bs : Text) (x : ℕ) → (x < p) ⊎ (p + length bs ≤ x) → poke f p bs x ≡ f x
poke_outside f p [] x h = refl
poke_outside f p (b ∷ bs) x h =
    ground (arith, poke_outside (update f p b) (p + 1) bs x (omega arith))

pub peek-ext :
    (f g : ℕ → ℕ) (p n : ℕ) → ((x : ℕ) → p ≤ x → x < p + n → f x ≡ g x) → peek f p n ≡ peek g p n
peek-ext f g p zero h = refl
peek-ext f g p (suc n) h =
    ap₂ ◌∷◌ (h p (omega arith) (omega arith))
      (peek-ext f g (p + 1) n (λ x a b. h x (omega arith) (omega arith)))

pub peek-poke : (f : ℕ → ℕ) (p : ℕ) (bs : Text) → peek (poke f p bs) p (length bs) ≡ bs
peek-poke f p [] = refl
peek-poke f p (b ∷ bs) = ap₂ ◌∷◌ first (peek-poke (update f p b) (p + 1) bs)
  where
    first : poke (update f p b) (p + 1) bs p ≡ b
    first = ground (arith, poke_outside (update f p b) (p + 1) bs p (inl (omega arith)))

pub peek-append : (f : ℕ → ℕ) (p a b : ℕ) → peek f p (a + b) ≡ peek f p a ++ peek f (p + a) b
peek-append f p zero b = ap₂ (λ k q. peek f q k) (omega arith) (omega arith)
peek-append f p (suc a) b =
    ap (λ k. peek f p k) shift ∙ ap (◌∷◌ (f p)) (peek-append f (p + 1) a b ∙ moved)
  where
    shift : suc a + b ≡ suc (a + b)
    shift = omega arith

    moved : peek f (p + 1) a ++ peek f (p + 1 + a) b ≡ peek f (p + 1) a ++ peek f (p + suc a) b
    moved = ap (λ q. peek f (p + 1) a ++ peek f q b) (omega arith)

-- Part of what was written reads back as that part.
pub peek-poke_part :
    (f : ℕ → ℕ) (p : ℕ) (bs : Text) (k : ℕ) → k ≤ length bs → peek (poke f p bs) p k ≡ take k bs
peek-poke_part f p bs zero h = refl
peek-poke_part f p [] (suc k) h = absurd (omega arith)
peek-poke_part f p (b ∷ bs) (suc k) h =
    ap₂ ◌∷◌ first (peek-poke_part (update f p b) (p + 1) bs k (omega arith))
  where
    first : poke (update f p b) (p + 1) bs p ≡ b
    first = ground (arith, poke_outside (update f p b) (p + 1) bs p (inl (omega arith)))

pub bytes-write_bytes :
    (m : Memory) (p : ℕ) (bs : Text) → p ≢ 0 → (write_bytes m p bs).bytes ≡ poke m.bytes p bs
unfolding write_bytes
bytes-write_bytes m p [] h = refl
bytes-write_bytes m p (b ∷ bs) h = ground arith

-- A string and the byte that ends it read back together.
pub peek-terminated :
    (f : ℕ → ℕ) (p : ℕ) (bs : Text) (k c : ℕ)
    → k ≤ length bs
    → peek (update (poke f p bs) (p + k) c) p (k + 1) ≡ take k bs ++ c ∷ []
peek-terminated f p bs k c h =
    peek-append (update (poke f p bs) (p + k) c) p k 1 ∙ ap₂ ◌++◌ front last
  where
    front : peek (update (poke f p bs) (p + k) c) p k ≡ take k bs
    front = peek-ext _ _ p k (λ x a b. ground arith) ∙ peek-poke_part f p bs k h

    last : peek (update (poke f p bs) (p + k) c) (p + k) 1 ≡ c ∷ []
    last = ground arith

pub bytes-set_word : (m : Memory) (p : ℕ) (v : ℤ) → (set_word m p v).bytes ≡ m.bytes
unfolding set_word
bytes-set_word m p v = ground arith

pub words-set_word : (m : Memory) (p : ℕ) (v : ℤ) → p ≢ 0 → (set_word m p v).words p ≡ v
unfolding set_word
words-set_word m p v h = ground arith

pub words-set_word_other :
    (m : Memory) (p q : ℕ) (v : ℤ) → p ≢ q → (set_word m q v).words p ≡ m.words p
unfolding set_word
words-set_word_other m p q v h = ground arith
