-- ===== src/Aead/Toy.antt =====
-- A cipher that satisfies the laws, for concrete runs: its tag is its key, in front of the text.
use tun_go.Base.{
  ℕ, refl, ◌++◌, length, drop, replicate, length-append, none, some, ◌==◌, if◌then◌else◌, get_or,
  arith, ==_iff,
}
use tun_go.Aead.{Aead, Laws}

abbrev pub toy : Aead ℕ
toy = record {
  new = λ key. if length key == 32 then some (get_or key 0 0) else none;
  seal = λ c nonce plain aad. replicate 16 c ++ plain;
  unseal = λ c nonce ct aad. if get_or ct 0 0 == c then some (drop 16 ct) else none;
}

pub toy-Laws : Laws toy
toy-Laws = record {
  new_sized = λ key e. (get_or key 0 0, ground arith);
  new_unsized = λ key e. ground arith;
  length-seal = λ c nonce plain aad. omega (arith, length-append (replicate 16 c) plain);
  unseal-seal = λ c nonce plain aad. rw ((==_iff c c).1 refl);
}
