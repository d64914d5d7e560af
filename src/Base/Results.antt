-- ===== src/Base/Results.antt =====
-- Go's `(value, error)` as a result type. An error value stands for the sentinel or the
-- `fmt.Errorf` text of the source.

pub data Error : Type 0 where
  nonce_overflow buffer_too_short insufficient_capacity cipher_too_short : Error
  non_unique_nonce unknown_epoch unknown_route_id open_failed no_session : Error
  epoch_exhausted rekey_refused rekey_in_progress bad_key_size : Error
  short_buffer short_write invalid_length_prefix zero_length_frame frame_cap_exceeded : Error
  peer_closed not_found eof write_failed : Error
  bad_frame_cap no_adapter out_of_fuel carrier_epoch_changed : Error
  invalid_subnet counter_out_of_range generated_ip_invalid exceeds_subnet : Error
  invalid_mac1 cookie_required invalid_cookie_reply unexpected_cookie : Error
  unknown_peer peer_disabled unknown_protocol msg_too_short server_key_mismatch : Error
  missing_client_key missing_server_key missing_allowed_peers : Error
  noise_failed handshake_incomplete unsupported_capability random_failed read_failed : Error

pub data Result {ℓ} (A : Type ℓ) : Type ℓ where
  ok : A → Result A
  err : Error → Result A

abbrev pub map_ok {ℓ κ} : {A : Type ℓ} {B : Type κ} → (A → B) → Result A → Result B
map_ok f (ok a) = ok (f a)
map_ok f (err e) = err e
