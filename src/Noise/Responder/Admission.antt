-- ===== src/Noise/Responder/Admission.antt =====
-- Whom the server lets in, and what it does before it computes a key (ik_handshake.go).
use tun_go.Base.{
  ℕ, ◌≡◌, ◌≢◌, ◌∙◌, inl, inr, refl, ap, List, [], Bool, true, false, Option, none, some, Bytes,
  Result, ok, err, Error, arith, Option-cases, Bool-cases,
}
use tun_go.Ip.{Addr}
use tun_go.Noise.Mac.{Blake, extract_noise_msg, extract_client_ephemeral}
use tun_go.Noise.Cookie.{XAead, CookieManager, verify_mac2_for_client}
use tun_go.Noise.Handshake.{
  NoiseLib, Transport, ServerHandshakeOutcome, IkHandshake, bytes_of, lookup, needs_cookie,
}
use tun_go.Noise.Responder.{
  send_msg2, answer_client, authorise, run_responder_noise, challenge, check_cookie,
  enforce_cookie_if_needed, accept_client, past_mac1,
}

-- The server's Noise state has read a client's message, and found `key` to be its static key.
pub record IsOpened {HS : Type 0} (lib : NoiseLib HS) (priv own : Bytes) (seed : ℕ) (m key : Bytes)
    : Type 0 where
  pub fresh : HS
  pub opened : HS
  pub payload : Bytes × Option (Bytes × Bytes)
  pub was_made : lib.new_responder priv own [] seed ≡ ok fresh
  pub was_opened : lib.read_message fresh (bytes_of (extract_noise_msg m)) ≡ (opened, ok payload)
  pub its_key : key ≡ lib.peer_static opened

-- The message is read, and the peer's static key is on the list under the client id, and enabled.
abbrev pub IsListed : {HS : Type 0} → NoiseLib HS → IkHandshake HS → ℕ → Bytes → Bytes → ℕ → Type 0
IsListed lib h seed m key id =
    IsOpened lib (bytes_of h.server_priv_key) (bytes_of h.server_pub_key) seed m key
    × (lookup h key ≡ some (id, true))

module _ {HS T : Type 0} (lib : NoiseLib HS) (tr : Transport T) where
  send_msg2_lem :
      (hs : HS) (t : T) (id : ℕ) (key : Bytes) (selected : List ℕ)
      (m : Bytes × Option (Bytes × Bytes)) (o : ServerHandshakeOutcome)
      → (send_msg2 lib tr hs t id key selected m).1 ≡ ok o
      → (o.client_id ≡ id) × (o.client_pub_key ≡ key)
  unfolding send_msg2
  send_msg2_lem hs t id key selected m o h = ground arith

  answer_client_lem :
      (hs : HS) (t : T) (key : Bytes) (id : ℕ) (enabled : Bool) (advertised : List ℕ)
      (o : ServerHandshakeOutcome)
      → (answer_client lib tr hs t key (id, enabled) advertised).1 ≡ ok o
      → (enabled ≡ true) × (o.client_id ≡ id) × (o.client_pub_key ≡ key)
  unfolding answer_client send_msg2
  answer_client_lem hs t key id enabled advertised o h = ground arith

  authorise_lem :
      (h : IkHandshake HS) (hs : HS) (t : T) (read : Bytes × Option (Bytes × Bytes))
      (o : ServerHandshakeOutcome)
      → (authorise lib tr h hs t read).1 ≡ ok o
      → (o.client_pub_key ≡ lib.peer_static hs)
        × (lookup h o.client_pub_key ≡ some (o.client_id, true))
  unfolding authorise
  authorise_lem h hs t read o e = go (lookup h (lib.peer_static hs)) refl
    where
      go :
          (found : Option (ℕ × Bool))
          → lookup h (lib.peer_static hs) ≡ found
          → (o.client_pub_key ≡ lib.peer_static hs)
            × (lookup h o.client_pub_key ≡ some (o.client_id, true))
      go none f = absurd (ground (arith, f))
      go (some (id, enabled)) f =
          let (on, its, key) =
            answer_client_lem hs t (lib.peer_static hs) id enabled read.0 o (ground (arith, f)) in
          (key, ap (lookup h) key ∙ f ∙ ground arith)

  pub run_responder_noise_lem :
      (h : IkHandshake HS) (seed : ℕ) (t : T) (m : Bytes) (o : ServerHandshakeOutcome)
      → (run_responder_noise lib tr h seed t m).1 ≡ ok o
      → IsListed lib h seed m o.client_pub_key o.client_id
  unfolding run_responder_noise
  run_responder_noise_lem h seed t m o e =
      go (lib.new_responder (bytes_of h.server_priv_key) (bytes_of h.server_pub_key) [] seed) refl
    where
      finish :
          (hs : HS) (r : HS × Result (Bytes × Option (Bytes × Bytes)))
          → lib.read_message hs (bytes_of (extract_noise_msg m)) ≡ r
          → lib.new_responder (bytes_of h.server_priv_key) (bytes_of h.server_pub_key) [] seed
            ≡ ok hs
          → IsListed lib h seed m o.client_pub_key o.client_id
      finish hs (hs', err x) r f = absurd (ground (arith, r, f))
      finish hs (hs', ok read) r f =
          let (key, listed) = authorise_lem h hs' t read o (ground (arith, r, f)) in
          (
            record {
              fresh = hs;
              opened = hs';
              payload = read;
              was_made = f;
              was_opened = r;
              its_key = key;
            },
            listed,
          )

      go :
          (state : Result HS)
          → lib.new_responder (bytes_of h.server_priv_key) (bytes_of h.server_pub_key) [] seed
            ≡ state
          → IsListed lib h seed m o.client_pub_key o.client_id
      go (err x) f = absurd (ground (arith, f))
      go (ok hs) f = finish hs (lib.read_message hs (bytes_of (extract_noise_msg m))) refl f

-- The cookie that was asked for came with the message, from the address that it was made for.
pub record IsProven {T : Type 0} (blake : Blake) (tr : Transport T) (now : ℕ) (t : T) (m : Bytes)
    (cm : CookieManager) : Type 0 where
  pub ip : Addr
  pub known : tr.remote_addr t ≡ some ip
  pub proven : verify_mac2_for_client blake cm now m ip ≡ true

module _ {T : Type 0} (blake : Blake) (x : XAead) (tr : Transport T) where
  challenge_refuses :
      (cm : CookieManager) (now : ℕ) (random : Option Bytes) (key ephemeral : Bytes) (ip : Addr)
      (t : T)
      → (challenge blake x tr cm now random key ephemeral ip t).1 ≢ none
  unfolding challenge
  challenge_refuses cm now random key ephemeral ip t e = ground arith

  pub check_cookie_lem :
      (cm : CookieManager) (now : ℕ) (random : Option Bytes) (key : Bytes) (t : T) (m : Bytes)
      → (check_cookie blake x tr cm now random key t m).1 ≡ none
      → IsProven blake tr now t m cm
  unfolding check_cookie
  check_cookie_lem cm now random key t m e = elim (Option-cases (extract_client_ephemeral m)) [
    | inl f ↦ absurd (ground (arith, f))
    | inr (ephemeral, f) ↦ elim (Option-cases (tr.remote_addr t)) [
      | inl g ↦ absurd (ground (arith, f, g))
      | inr (ip, g) ↦ elim (Bool-cases (verify_mac2_for_client blake cm now m ip)) [
        | inl v ↦ record { ip = ip; known = g; proven = v }
        | inr v ↦
            absurd (ground (arith, f, g, v, challenge_refuses cm now random key ephemeral ip t))
      ]
    ]
  ]

module _ {HS T : Type 0} (blake : Blake) (x : XAead) (tr : Transport T) where
  module _ (h : IkHandshake HS) (now : ℕ) (random : Option Bytes) (seed : ℕ) (t : T)
      (m : Bytes) where
    pub refused :
        (cm : CookieManager) (ip : Addr)
        → needs_cookie h ≡ some cm
        → tr.remote_addr t ≡ some ip
        → verify_mac2_for_client blake cm now m ip ≡ false
        → (e : Error) × ((enforce_cookie_if_needed blake x tr h now random t m).1 ≡ some e)
    unfolding enforce_cookie_if_needed
    refused cm ip n k v = elim (Option-cases gate) [
      | inl f ↦
          (let p = check_cookie_lem blake x tr cm now random (bytes_of h.server_pub_key) t m f in
            absurd (ground (arith, p.known, p.proven, v, k)))
      | inr (e, f) ↦ (e, rw (n, enforce_cookie_if_needed) f)
    ]
      where
        gate : Option Error
        gate = (check_cookie blake x tr cm now random (bytes_of h.server_pub_key) t m).1

    pub past_mac1_error :
        (lib : NoiseLib HS) (e : Error)
        → (enforce_cookie_if_needed blake x tr h now random t m).1 ≡ some e
        → past_mac1 lib blake x tr h now random seed t m
          ≡ (h, (enforce_cookie_if_needed blake x tr h now random t m).0, err e)
    unfolding past_mac1
    past_mac1_error lib e f = rw (f, past_mac1) refl

    pub past_mac1_ok :
        (lib : NoiseLib HS)
        → (enforce_cookie_if_needed blake x tr h now random t m).1 ≡ none
        → past_mac1 lib blake x tr h now random seed t m
          ≡ accept_client h (
              run_responder_noise lib tr h seed
                (enforce_cookie_if_needed blake x tr h now random t m).0
                m)
    unfolding past_mac1
    past_mac1_ok lib f = rw (f, past_mac1) refl

    pub enforced :
        (cm : CookieManager)
        → needs_cookie h ≡ some cm
        → (enforce_cookie_if_needed blake x tr h now random t m).1 ≡ none
        → IsProven blake tr now t m cm
    unfolding enforce_cookie_if_needed
    enforced cm n f =
        check_cookie_lem blake x tr cm now random (bytes_of h.server_pub_key) t m
          (rw (n, enforce_cookie_if_needed) at f)

module _ {HS T : Type 0} (h : IkHandshake HS) (lib : NoiseLib HS) (tr : Transport T)
    (seed : ℕ) where
  -- Whose message was read, and who is on the list, of the handshake that went through.
  pub accept_client_lem :
      (t : T) (m : Bytes) (id : ℕ)
      → (accept_client h (run_responder_noise lib tr h seed t m)).2 ≡ ok id
      → IsListed lib h seed m
          (accept_client h (run_responder_noise lib tr h seed t m)).0.authenticated_client_pub_key
          id
  unfolding accept_client
  accept_client_lem t m id e =
      go (run_responder_noise lib tr h seed t m)
        (λ o r. run_responder_noise_lem lib tr h seed t m o r) e
    where
      go :
          (run : T × Result ServerHandshakeOutcome)
          → ((o : ServerHandshakeOutcome)
              → run.1 ≡ ok o
              → IsListed lib h seed m o.client_pub_key o.client_id)
          → (accept_client h run).2 ≡ ok id
          → IsListed lib h seed m (accept_client h run).0.authenticated_client_pub_key id
      go (t', err x) listed e = absurd (cc)
      go (t', ok o) listed e =
          let same_id : o.client_id ≡ id = ground arith in
          let (opened, found) = listed o refl in
          (opened, found ∙ ap (λ (i : ℕ). some (i, true)) same_id)
