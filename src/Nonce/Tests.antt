-- ===== src/Nonce/Tests.antt =====
-- Runs of the nonce counter, and its theorems at concrete nonces.
use tun_go.Base.{
  ◌-◌, ◌^◌, ◌≡◌, ◌≢◌, refl, [], ◌∷◌, Bytes, replicate, ok, err, nonce_overflow, arith, put_be,
}
use tun_go.Nonce.{Nonce, IsNonce, increment, encode, zeroize}
use tun_go.Nonce.Counter.{Advances, increment-Advances, nonces_distinct}

abbrev carry : Nonce
carry = record { epoch = 3; counter_low = 2 ^ 64 - 1; counter_high = 9 }

abbrev last : Nonce
last = record { epoch = 3; counter_low = 2 ^ 64 - 1; counter_high = 2 ^ 16 - 1 }

abbrev buffer : Bytes
buffer = replicate 12 0

carries : increment carry ≡ ok (record { epoch = 3; counter_low = 0; counter_high = 10 })
unfolding increment
carries = refl

overflows : increment last ≡ err nonce_overflow
unfolding increment
overflows = refl

encodes :
    encode (record { epoch = 0x0102; counter_low = 0x0304; counter_high = 5 }) buffer
    ≡ 0 ∷ 0 ∷ 0 ∷ 0 ∷ 0 ∷ 0 ∷ 3 ∷ 4 ∷ 0 ∷ 5 ∷ 1 ∷ 2 ∷ []
unfolding encode put_be
encodes = refl

zeroizes : zeroize carry ≡ record { epoch = 0; counter_low = 0; counter_high = 0 }
unfolding zeroize
zeroizes = refl

carry-IsNonce : IsNonce carry
carry-IsNonce = omega arith

increment-Advances_example : Advances carry (increment carry)
increment-Advances_example = increment-Advances carry carry-IsNonce

abbrev once : Nonce
once = record { epoch = 3; counter_low = 0; counter_high = 10 }

abbrev thrice : Nonce
thrice = record { epoch = 3; counter_low = 2; counter_high = 10 }

nonces_distinct_example : encode once buffer ≢ encode thrice buffer
unfolding increment
nonces_distinct_example =
    nonces_distinct 1 3 carry buffer buffer carry-IsNonce refl refl (omega arith)
