-- ===== src/Core/AadLaws.antt =====
-- The 60 bytes of additional data: session id, direction, nonce.
use tun_go.Base.{
  ℕ, zero, suc, ◌≡◌, refl, ap, ◌∙◌, List, [], ◌∷◌, ◌++◌, Bytes, length, take, copy_at,
  length-copy_at, copy_at-fills, take-copy_at, arith,
}
use tun_go.Core.{aad_buf, create_aad}

pub take_all {ℓ} : {A : Type ℓ} (n : ℕ) (xs : List A) → length xs ≡ n → take n xs ≡ xs
take_all zero [] e = refl
take_all zero (x ∷ xs) e = absurd (omega arith)
take_all (suc n) [] e = refl
take_all (suc n) (x ∷ xs) e = ap (◌∷◌ x) (take_all n xs (omega arith))

-- The nonce goes behind the 48-byte prefix.
pub create_aad_lem :
    (nonce buf : Bytes)
    → length nonce ≡ 12
    → length buf ≡ 60
    → create_aad nonce buf ≡ take 48 buf ++ nonce
unfolding create_aad
create_aad_lem nonce buf n b =
    take_all 60 (copy_at 48 nonce buf) (omega (arith, length-copy_at 48 nonce buf))
    ∙ copy_at-fills 48 nonce buf (omega arith)

-- The buffer keeps its prefix and its size, so that it serves for the next packet.
pub create_aad_keeps :
    (nonce buf : Bytes)
    → length nonce ≡ 12
    → length buf ≡ 60
    → (length (create_aad nonce buf) ≡ 60) × (take 48 (create_aad nonce buf) ≡ take 48 buf)
unfolding create_aad
create_aad_keeps nonce buf n b =
    let whole : create_aad nonce buf ≡ copy_at 48 nonce buf =
      take_all 60 (copy_at 48 nonce buf) (omega (arith, length-copy_at 48 nonce buf)) in
    (rw whole (length-copy_at 48 nonce buf ∙ b), rw whole (take-copy_at 48 nonce buf))

pub length-aad_buf : (id dir : Bytes) → length (aad_buf id dir) ≡ 60
unfolding aad_buf
length-aad_buf id dir = length-copy_at 32 dir _ ∙ length-copy_at 0 id _
