-- ===== src/Mdns/Buffer.antt =====
-- The vos::Buffer of a third party, in Buffer.hpp beside flint/src/discovery/mdns/MDNS.h: the calls
-- that the codec makes of it, and what these do to the bytes that the buffer holds.
use flingd_cc.Base.{ℕ, zero, suc, List, [], ◌∷◌, ◌++◌, ◌≡◌, ◌<◌, length}

abbrev pub Bytes : Type 0
Bytes = List ℕ

abbrev pub set_at : ℕ → ℕ → Bytes → Bytes
set_at i c [] = []
set_at zero c (x ∷ xs) = c ∷ xs
set_at (suc i) c (x ∷ xs) = x ∷ set_at i c xs

-- `append_raw` has the bytes at the pointer and the length; `size` is the field `_index`.
pub record Buffer (B : Type 0) : Type 0 where
  pub empty : B
  pub size : B → ℕ
  pub append_raw : Bytes → ℕ → B → B
  pub appenduc : ℕ → B → B
  pub replace : ℕ → ℕ → B → B
  pub delete_end : B → B

-- What the calls do to the bytes in the buffer, given memory. Nothing is said of `delete_end` on an
-- empty buffer.
pub record BufferLaws {B : Type 0} (buffer : Buffer B) : Type 0 where
  pub contents : B → Bytes
  pub contents-empty : contents buffer.empty ≡ []
  pub length-contents : (b : B) → length (contents b) ≡ buffer.size b
  pub contents-append_raw :
      (xs : Bytes) (b : B) → contents (buffer.append_raw xs (length xs) b) ≡ contents b ++ xs
  pub contents-appenduc :
      (c : ℕ) (b : B) → c < 256 → contents (buffer.appenduc c b) ≡ contents b ++ c ∷ []
  pub contents-replace :
      (i c : ℕ) (b : B)
      → c < 256
      → i < buffer.size b
      → contents (buffer.replace i c b) ≡ set_at i c (contents b)
  pub contents-delete_end :
      (xs : Bytes) (c : ℕ) (b : B) → contents b ≡ xs ++ c ∷ [] → contents (buffer.delete_end b) ≡ xs
