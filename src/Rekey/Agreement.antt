-- ===== src/Rekey/Agreement.antt =====
-- Both ends of a V1 exchange derive the same keys (src/internal/protocol/rekey/rekey.go and
-- initiator.go).
pub mod Switching
pub mod Messages
mod Tests
use tun_go.Base.{
  ℕ, ◌≡◌, refl, sym, ap, ◌∙◌, List, [], ◌∷◌, Bytes, length, take, drop, Result, Error, ok, err,
  arith, ◌==◌, ==_iff, ==_ne, not, if◌then◌else◌, ℕ_discrete, bad_key_size,
}
use tun_go.Core.AadLaws.{take_all}
use tun_go.Rekey.StateMachine.{EpochManager, StateMachine, current_keys}
use tun_go.Rekey.Server.{
  Primitives, ServerRekeyCoordinator, rekey_v1, derive_keys, derive_label_c2s, derive_label_s2c,
}
use tun_go.Rekey.Client.{ClientPrimitives, ClientRekeyCoordinator, accept_ack_v1, switch_v1}

-- Diffie-Hellman: a generated public key is that of its private key, and the two ends get one secret.
pub record DhLaws {X : Type 0} (prim : ClientPrimitives X) : Type 0 where
  pub generated :
      (x : X) (public_key private_key : Bytes)
      → (prim.common.generate_key_pair x).1 ≡ ok (public_key, private_key)
      → prim.common.x25519 private_key prim.basepoint ≡ ok public_key
  pub one_secret :
      (a b pub_a pub_b : Bytes)
      → prim.common.x25519 a prim.basepoint ≡ ok pub_a
      → prim.common.x25519 b prim.basepoint ≡ ok pub_b
      → prim.common.x25519 a pub_b ≡ prim.common.x25519 b pub_a

module _ {M X : Type 0} (manager : EpochManager M) (prim : ClientPrimitives X) where
  derived :
      (m : StateMachine M) (public_key shared body c2s s2c : Bytes)
      → derive_keys manager prim.common m public_key shared ≡ ok (body, c2s, s2c)
      → (body ≡ public_key)
        × (length public_key ≡ 32)
        × (prim.common.derive_key shared (current_keys m).0 derive_label_c2s ≡ ok c2s)
        × (prim.common.derive_key shared (current_keys m).1 derive_label_s2c ≡ ok s2c)
  unfolding derive_keys
  derived m public_key shared body c2s s2c e =
      go (prim.common.derive_key shared (current_keys m).0 derive_label_c2s) refl
        (prim.common.derive_key shared (current_keys m).1 derive_label_s2c) refl
    where
      go :
          (r : Result Bytes)
          → prim.common.derive_key shared (current_keys m).0 derive_label_c2s ≡ r
          → (t : Result Bytes)
          → prim.common.derive_key shared (current_keys m).1 derive_label_s2c ≡ t
          → (body ≡ public_key)
            × (length public_key ≡ 32)
            × (prim.common.derive_key shared (current_keys m).0 derive_label_c2s ≡ ok c2s)
            × (prim.common.derive_key shared (current_keys m).1 derive_label_s2c ≡ ok s2c)
      go (err x) p t q = absurd (
          let no : derive_keys manager prim.common m public_key shared ≡ err x =
            rw (p, derive_keys) refl in
          cc)
      go (ok k) p (err x) q = absurd (
          let no : derive_keys manager prim.common m public_key shared ≡ err x =
            rw (p, derive_keys, q) refl in
          cc)
      go (ok k) p (ok l) q = elim (ℕ_discrete (length public_key) 32) [
        | no n ↦ absurd (
            let no : derive_keys manager prim.common m public_key shared ≡ err bad_key_size =
              rw (p, derive_keys, q, ==_ne _ _ n) refl in
            cc)
        | yes size ↦
            let all : derive_keys manager prim.common m public_key shared ≡ ok (public_key, k, l) =
              rw (p, derive_keys, q, (==_iff _ _).1 size) refl in
            let same_body : public_key ≡ body = cc in
            let same_c2s : k ≡ c2s = cc in
            let same_s2c : l ≡ s2c = cc in
            (sym same_body, size, p ∙ ap ok same_c2s, q ∙ ap ok same_s2c)
      ]

  -- The server's run of the key agreement, taken apart.
  rekeyed :
      (s : ServerRekeyCoordinator M X) (request body c2s s2c : Bytes)
      → (rekey_v1 manager prim.common s request).1 ≡ ok (body, c2s, s2c)
      → (private_key : Bytes) × (shared : Bytes) × ((prim.common.generate_key_pair s.world).1
          ≡ ok (body, private_key))
        × (prim.common.x25519 private_key (take 32 (drop 3 request)) ≡ ok shared)
        × (length body ≡ 32)
        × (prim.common.derive_key shared (current_keys s.controller).0 derive_label_c2s ≡ ok c2s)
        × (prim.common.derive_key shared (current_keys s.controller).1 derive_label_s2c ≡ ok s2c)
  unfolding rekey_v1
  rekeyed s request body c2s s2c e = go (prim.common.generate_key_pair s.world).1 refl
    where
      Parts : Type 0
      Parts =
          (private_key : Bytes) × (shared : Bytes) × ((prim.common.generate_key_pair s.world).1
            ≡ ok (body, private_key))
          × (prim.common.x25519 private_key (take 32 (drop 3 request)) ≡ ok shared)
          × (length body ≡ 32)
          × (prim.common.derive_key shared (current_keys s.controller).0 derive_label_c2s ≡ ok c2s)
          × (prim.common.derive_key shared (current_keys s.controller).1 derive_label_s2c ≡ ok s2c)

      with_shared :
          (public_key private_key : Bytes)
          → (prim.common.generate_key_pair s.world).1 ≡ ok (public_key, private_key)
          → (r : Result Bytes) → prim.common.x25519 private_key (take 32 (drop 3 request)) ≡ r
          → Parts
      with_shared public_key private_key p (err x) q = absurd (
          let no : (rekey_v1 manager prim.common s request).1 ≡ err x = rw (p, rekey_v1, q) refl in
          cc)
      with_shared public_key private_key p (ok shared) q =
          let same : derive_keys manager prim.common s.controller public_key shared
              ≡ ok (body, c2s, s2c) =
            sym (rw (p, rekey_v1, q) refl) ∙ e in
          let (own, size, k, l) = derived s.controller public_key shared body c2s s2c same in
          (
            private_key,
            shared,
            p ∙ ap (λ (b : Bytes). ok (b, private_key)) (sym own),
            q,
            rw own size,
            k,
            l,
          )

      go : (r : Result (Bytes × Bytes)) → (prim.common.generate_key_pair s.world).1 ≡ r → Parts
      go (err x) p = absurd (
          let no : (rekey_v1 manager prim.common s request).1 ≡ err x = rw (p, rekey_v1) refl in cc)
      go (ok (public_key, private_key)) p =
          with_shared public_key private_key p
            (prim.common.x25519 private_key (take 32 (drop 3 request))) refl

  accepted :
      (c : ClientRekeyCoordinator M X) (ack shared c2s s2c : Bytes)
      → prim.common.x25519 c.pending_private_key (take 32 (drop 3 ack)) ≡ ok shared
      → prim.common.derive_key shared (current_keys c.controller).0 derive_label_c2s ≡ ok c2s
      → prim.common.derive_key shared (current_keys c.controller).1 derive_label_s2c ≡ ok s2c
      → accept_ack_v1 manager prim c ack ≡ switch_v1 manager prim c c2s s2c
  unfolding accept_ack_v1
  accepted c ack shared c2s s2c e k l = ground (arith, e, k, l)

  -- The client takes the keys of the server's run out of the body of its response.
  pub keys_taken :
      (c : ClientRekeyCoordinator M X) (s : ServerRekeyCoordinator M X)
      (public_key body c2s s2c : Bytes)
      → DhLaws prim
      → current_keys c.controller ≡ current_keys s.controller
      → prim.common.x25519 c.pending_private_key prim.basepoint ≡ ok public_key
      → length public_key ≡ 32
      → (rekey_v1 manager prim.common s (255 ∷ (1 ∷ (2 ∷ public_key)))).1 ≡ ok (body, c2s, s2c)
      → (length body ≡ 32)
        × (accept_ack_v1 manager prim c (255 ∷ (1 ∷ (3 ∷ body))) ≡ switch_v1 manager prim c c2s s2c)
  keys_taken c s public_key body c2s s2c laws same own size e =
      let (private_key, shared, made, secret, long, k, l) =
        rekeyed s (255 ∷ (1 ∷ (2 ∷ public_key))) body c2s s2c e in
      let theirs : prim.common.x25519 private_key public_key ≡ ok shared =
        ap (prim.common.x25519 private_key) (sym (take_all 32 public_key size)) ∙ secret in
      let mine : prim.common.x25519 c.pending_private_key (take 32 body) ≡ ok shared =
        ap (prim.common.x25519 c.pending_private_key) (take_all 32 body long)
        ∙ (laws.one_secret c.pending_private_key private_key public_key body own
              (laws.generated s.world body private_key made)
            ∙ theirs) in
      (
        long,
        accepted c (255 ∷ (1 ∷ (3 ∷ body))) shared c2s s2c mine
            (ap (λ (x : Bytes × Bytes). prim.common.derive_key shared x.0 derive_label_c2s) same
              ∙ k)
            (ap (λ (x : Bytes × Bytes). prim.common.derive_key shared x.1 derive_label_s2c) same
              ∙ l),
      )
