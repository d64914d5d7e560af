-- ===== src/Noise/Mac/Appended.antt =====
-- What the client appends to its first message is what the server finds there (mac.go).
use tun_go.Base.{
  ◌+◌, ◌-◌, ◌<◌, ◌≤◌, ◌≡◌, ◌∙◌, refl, sym, ap, ◌++◌, true, Option, some, Bytes, length, take, drop,
  ok, arith, length-append, take-append_of_length, drop-append_of_length, drop-drop, Option-cases,
  inl, inr, dec_lt,
}
use tun_go.Ip.Addresses.{same_self}
use tun_go.Noise.Mac.{
  Blake, BlakeLaws, min_msg1_size, min_total_size, extract_noise_msg, prepend_version,
  check_version, compute_mac1, verify_mac1, compute_mac2, verify_mac2, append_macs,
}

-- The parts of a message behind its first one.
module _ (msg1 mac1 mac2 : Bytes) where
  module _ (long : min_msg1_size ≤ length msg1) (m1 : length mac1 ≡ 16)
      (m2 : length mac2 ≡ 16) where
    abbrev whole : Bytes
    whole = msg1 ++ (mac1 ++ mac2)

    length-whole : length whole ≡ length msg1 + 32
    length-whole = omega (arith, length-append msg1 (mac1 ++ mac2), length-append mac1 mac2)

    prefix_size : length whole - 16 - 16 ≡ length msg1
    prefix_size = omega (arith, length-whole)

    take-whole : take (length whole - 16 - 16) whole ≡ msg1
    take-whole =
        ap (λ t. take t whole) prefix_size
        ∙ take-append_of_length (length msg1) msg1 (mac1 ++ mac2) refl

    drop-whole : drop (length whole - 16 - 16) whole ≡ mac1 ++ mac2
    drop-whole =
        ap (λ t. drop t whole) prefix_size
        ∙ drop-append_of_length (length msg1) msg1 (mac1 ++ mac2) refl

    middle-whole : take 16 (drop (length whole - 16 - 16) whole) ≡ mac1
    middle-whole = ap (take 16) drop-whole ∙ take-append_of_length 16 mac1 mac2 m1

    last-whole : drop (length whole - 16 - 16 + 16) whole ≡ mac2
    last-whole =
        sym (drop-drop (length whole - 16 - 16) 16 whole)
        ∙ ap (drop 16) drop-whole
        ∙ drop-append_of_length 16 mac1 mac2 m1

-- The server finds both MACs of a message that the client made valid, and the message itself.
module _ (h : Blake) (laws : BlakeLaws h) (random : Option Bytes) (msg1 key cookie m : Bytes) where
  module _ (long : min_msg1_size ≤ length msg1) where
    macs_with_cookie :
        0 < length cookie
        → append_macs h random msg1 key cookie ≡ ok m
        → m
          ≡ msg1
            ++ (compute_mac1 h msg1 key ++ compute_mac2 h msg1 (compute_mac1 h msg1 key) cookie)
    unfolding append_macs
    macs_with_cookie c e = ground arith

    length-compute_mac1 : length (compute_mac1 h msg1 key) ≡ 16
    unfolding compute_mac1
    length-compute_mac1 = laws.length-hash128 _ _

    length-compute_mac2 : (mac1 : Bytes) → length (compute_mac2 h msg1 mac1 cookie) ≡ 16
    unfolding compute_mac2
    length-compute_mac2 mac1 = laws.length-hash128 _ _

    appended :
        ((r : Bytes) → random ≡ some r → length r ≡ 16)
        → append_macs h random msg1 key cookie ≡ ok m
        → (mac2 : Bytes) × (length mac2 ≡ 16) × (m ≡ msg1 ++ (compute_mac1 h msg1 key ++ mac2))
    unfolding append_macs
    appended sized e = elim (Option-cases random) [
      | inl n ↦ (
        compute_mac2 h msg1 (compute_mac1 h msg1 key) cookie,
        length-compute_mac2 _,
        ground (arith, n),
      )
      | inr (r, n) ↦ elim (dec_lt 0 (length cookie)) [
        | yes c ↦ (
          compute_mac2 h msg1 (compute_mac1 h msg1 key) cookie,
          length-compute_mac2 _,
          ground arith,
        )
        | no c ↦ (r, sized r n, ground (arith, n))
      ]
    ]

    pub verify_mac1-append_macs :
        ((r : Bytes) → random ≡ some r → length r ≡ 16)
        → append_macs h random msg1 key cookie ≡ ok m
        → (verify_mac1 h m key ≡ true) × (extract_noise_msg m ≡ some msg1) × (112 ≤ length m)
    unfolding verify_mac1 extract_noise_msg
    verify_mac1-append_macs sized e =
        let (mac2, m2, at) = appended sized e in
        let size = length-whole msg1 (compute_mac1 h msg1 key) mac2 long length-compute_mac1 m2 in
        let front = take-whole msg1 (compute_mac1 h msg1 key) mac2 long length-compute_mac1 m2 in
        let middle = middle-whole msg1 (compute_mac1 h msg1 key) mac2 long length-compute_mac1 m2 in
        rw at (
          ground (arith, size, front, middle, same_self (compute_mac1 h msg1 key)),
          ground (arith, size, front),
          omega (arith, size),
        )

    pub length-append_macs :
        ((r : Bytes) → random ≡ some r → length r ≡ 16)
        → append_macs h random msg1 key cookie ≡ ok m
        → length m ≡ length msg1 + 32
    length-append_macs sized e =
        let (mac2, m2, at) = appended sized e in
        ap length at ∙ length-whole msg1 (compute_mac1 h msg1 key) mac2 long length-compute_mac1 m2

    pub verify_mac2-append_macs :
        0 < length cookie
        → append_macs h random msg1 key cookie ≡ ok m
        → verify_mac2 h m cookie ≡ true
    unfolding verify_mac2
    verify_mac2-append_macs c e =
        let mac1 = compute_mac1 h msg1 key in
        let mac2 = compute_mac2 h msg1 mac1 cookie in
        let size =
          length-whole msg1 mac1 mac2 long length-compute_mac1 (length-compute_mac2 mac1) in
        let front = take-whole msg1 mac1 mac2 long length-compute_mac1 (length-compute_mac2 mac1) in
        let middle =
          middle-whole msg1 mac1 mac2 long length-compute_mac1 (length-compute_mac2 mac1) in
        let last = last-whole msg1 mac1 mac2 long length-compute_mac1 (length-compute_mac2 mac1) in
        rw (macs_with_cookie c e) (ground (arith, size, front, middle, last, same_self mac2))

-- The version byte comes off again.
pub check_version-prepend_version :
    (m : Bytes) → min_total_size ≤ length m → check_version (prepend_version m) ≡ ok m
unfolding check_version prepend_version
check_version-prepend_version m long = ground arith
