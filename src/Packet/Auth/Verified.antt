-- ===== src/Packet/Auth/Verified.antt =====
-- A packet that was authenticated is accepted under the same key.
use ospfd.Common.{
  ℕ, zero, suc, ◌+◌, ◌≤◌, ◌≡◌, refl, sym, ap, ◌∙◌, arith, true, false, List, [], ◌∷◌, ◌++◌, length,
  length-append, set, take, drop, take-length_append, drop-length_append, ltb, ltb-false, ◌==◌,
  from_be16,
}
use mathlib.Core.Path.{subst}
use ospfd.Packet.Seal.Verified.{Long, long, Long-of}
use ospfd.Packet.Auth.{
  HmacAlgo, digest_len, AuthKey, no_key, password, md5_key, hmac_key, apad, filled, write_all,
  crypto_fields, bytes_eq, byte, bad_length, apply_auth, verify_auth, verify_key, seal_md5,
  seal_hmac,
}

bytes_eq_refl : (l : List ℕ) → bytes_eq l l ≡ true
unfolding bytes_eq
bytes_eq_refl [] = refl
bytes_eq_refl (x ∷ l) = ground (arith, bytes_eq_refl l)

pub length-filled : (n : ℕ) (l : List ℕ) → length (filled n l) ≡ n
unfolding filled
length-filled zero l = refl
length-filled (suc n) [] = ap suc (length-filled n [])
length-filled (suc n) (x ∷ l) = ap suc (length-filled n l)

take_all : (l : List ℕ) → take (length l) l ≡ l
take_all [] = refl
take_all (x ∷ l) = ap (λ m. x ∷ m) (take_all l)

-- Eight bytes.
pub data Eight : List ℕ → Type 0 where
  eight : (a b c d e f g h : ℕ) → Eight (a ∷ b ∷ c ∷ d ∷ e ∷ f ∷ g ∷ h ∷ [])

Eight-of : (l : List ℕ) → length l ≡ 8 → Eight l
Eight-of (a ∷ b ∷ c ∷ d ∷ e ∷ f ∷ g ∷ h ∷ []) k = eight a b c d e f g h
Eight-of l k = absurd (omega arith)

pub filled-Eight : (w : List ℕ) → Eight (filled 8 w)
filled-Eight w = Eight-of (filled 8 w) (length-filled 8 w)

written_back :
    (p f : List ℕ)
    → Long p
    → Eight f
    → (take 8 (drop 16 (write_all (set (set p 14 0) 15 1) 16 f)) ≡ f)
      × (from_be16
            (byte (write_all (set (set p 14 0) 15 1) 16 f) 14)
            (byte (write_all (set (set p 14 0) 15 1) 16 f) 15)
          ≡ 1)
      × (length (write_all (set (set p 14 0) 15 1) 16 f) ≡ length p)
unfolding write_all
written_back _ _ (long _ _ _ _ _ _ _ _ _ _ _ _ _ _ _ _ _ _ _ _ _ _ _ _ r) (eight _ _ _ _ _ _ _ _) =
    (refl, refl, refl)

-- The fields of a packet that is sealed with a digest of `len` bytes.
record Sealed (p : List ℕ) (key_id len : ℕ) (q : List ℕ) : Type 0 where
  size : length q ≡ length p
  au_type : (rest : List ℕ) → from_be16 (byte (q ++ rest) 14) (byte (q ++ rest) 15) ≡ 2
  id : (rest : List ℕ) → byte (q ++ rest) 18 ≡ key_id
  digest : (rest : List ℕ) → byte (q ++ rest) 19 ≡ len
  whole :
      (rest : List ℕ)
      → from_be16 (byte (q ++ rest) 2) (byte (q ++ rest) 3) ≡ from_be16 (byte p 2) (byte p 3)

crypto_fields-Sealed :
    (p : List ℕ) (key_id len sequence : ℕ)
    → Long p
    → Sealed p key_id len (crypto_fields p key_id len sequence)
unfolding crypto_fields write_all
crypto_fields-Sealed _ key_id len sequence
      (long _ _ _ _ _ _ _ _ _ _ _ _ _ _ _ _ _ _ _ _ _ _ _ _ r) =
    record {
      size = refl;
      au_type = λ rest. refl;
      id = λ rest. refl;
      digest = λ rest. refl;
      whole = λ rest. refl;
    }

module _ (md5 : List ℕ → List ℕ) (hmac_sha : HmacAlgo → List ℕ → List ℕ → List ℕ)
    (length-md5 : (d : List ℕ) → length (md5 d) ≡ 16)
    (length-hmac_sha : (algo : HmacAlgo) (k d : List ℕ)
      → length (hmac_sha algo k d) ≡ digest_len algo) where
  -- Without a key the packet must say so itself.
  abbrev pub SaysNull : AuthKey → List ℕ → Type 0
  SaysNull no_key p = from_be16 (byte p 14) (byte p 15) ≡ 0
  SaysNull _ p = Unit {0}

  all_in : (q : List ℕ) (d : List ℕ) (n : ℕ) → length d ≡ n → take n (drop (length q) (q ++ d)) ≡ d
  all_in q d n e = rw (drop-length_append q d) (subst (λ m. take m d ≡ d) e (take_all d))

  good_length :
      (p q d : List ℕ) (key_id n : ℕ)
      → Sealed p key_id n q
      → 24 ≤ length p
      → from_be16 (byte p 2) (byte p 3) ≡ length p
      → length d ≡ n
      → bad_length (q ++ d) n ≡ false
  good_length p q d key_id n s l w e =
      let len : from_be16 (byte (q ++ d) 2) (byte (q ++ d) 3) ≡ length p = s.whole d ∙ w in
      let enough : ltb (length p) 24 ≡ false = ltb-false _ _ (omega arith) in
      let fits : ltb (length (q ++ d)) (length p + n) ≡ false =
        ltb-false _ _ (omega (arith, length-append q d, s.size)) in
      rw (len, enough, fits) refl

  eq_refl : (n : ℕ) → (n == n) ≡ true
  eq_refl n = ground arith

  verify_md5 :
      (p q : List ℕ) (key_id : ℕ) (k : List ℕ)
      → Sealed p key_id 16 q
      → 24 ≤ length p
      → from_be16 (byte p 2) (byte p 3) ≡ length p
      → verify_auth md5 hmac_sha (seal_md5 md5 hmac_sha k q) (md5_key key_id k) ≡ true
  unfolding verify_auth verify_key
  verify_md5 p q key_id k s l w =
      let d = md5 (q ++ filled 16 k) in
      let enough : ltb (length (q ++ d)) 24 ≡ false =
        ltb-false _ _ (omega (arith, length-append q d, s.size)) in
      let len : from_be16 (byte (q ++ d) 2) (byte (q ++ d) 3) ≡ length q =
        s.whole d ∙ (w ∙ sym s.size) in
      rw (enough, s.au_type d, good_length p q d key_id 16 s l w (length-md5 _), s.id d, s.digest d)
        (rw (eq_refl key_id)
          (rw (len, take-length_append q d, all_in q d 16 (length-md5 _)) (bytes_eq_refl d)))

  verify_hmac :
      (p q : List ℕ) (algo : HmacAlgo) (key_id : ℕ) (k : List ℕ)
      → Sealed p key_id (digest_len algo) q
      → 24 ≤ length p
      → from_be16 (byte p 2) (byte p 3) ≡ length p
      → verify_auth md5 hmac_sha (seal_hmac md5 hmac_sha algo k q) (hmac_key algo key_id k) ≡ true
  unfolding verify_auth verify_key
  verify_hmac p q algo key_id k s l w =
      let d = hmac_sha algo k (q ++ apad (digest_len algo)) in
      let wide = length-hmac_sha algo k (q ++ apad (digest_len algo)) in
      let enough : ltb (length (q ++ d)) 24 ≡ false =
        ltb-false _ _ (omega (arith, length-append q d, s.size)) in
      let len : from_be16 (byte (q ++ d) 2) (byte (q ++ d) 3) ≡ length q =
        s.whole d ∙ (w ∙ sym s.size) in
      rw
        (
          enough,
          s.au_type d,
          good_length p q d key_id (digest_len algo) s l w wide,
          s.id d,
          s.digest d,
        )
        (rw (eq_refl key_id, eq_refl (digest_len algo))
          (rw (len, take-length_append q d, all_in q d (digest_len algo) wide) (bytes_eq_refl d)))

  -- A packet of at least a header, whose length field is its length, and without a key one that says
  -- that it is not authenticated, is accepted under the key that it was authenticated with; the
  -- digests are of their documented lengths.
  pub verify_auth-apply_auth :
      (packet : List ℕ) (key : AuthKey) (sequence : ℕ)
      → 24 ≤ length packet
      → from_be16 (byte packet 2) (byte packet 3) ≡ length packet
      → SaysNull key packet
      → verify_auth md5 hmac_sha (apply_auth md5 hmac_sha packet key sequence) key ≡ true
  unfolding verify_auth apply_auth verify_key
  verify_auth-apply_auth p no_key sequence l w says =
      rw (ltb-false (length p) 24 l) (ground (arith, says))
  verify_auth-apply_auth p (password f) sequence l w says =
      let (same, kind, size) = written_back p (filled 8 f) (Long-of p l) (filled-Eight f) in
      let enough : ltb (length p) 24 ≡ false = ltb-false _ _ l in
      rw (enough, size, enough, kind, same) (bytes_eq_refl (filled 8 f))
  verify_auth-apply_auth p (md5_key key_id k) sequence l w says = rw (ltb-false (length p) 24 l) (
      verify_md5 p (crypto_fields p key_id 16 sequence) key_id k
        (crypto_fields-Sealed p key_id 16 sequence (Long-of p l)) l w)
  verify_auth-apply_auth p (hmac_key algo key_id k) sequence l w says =
      rw (ltb-false (length p) 24 l) (
        verify_hmac p (crypto_fields p key_id (digest_len algo) sequence) algo key_id k
          (crypto_fields-Sealed p key_id (digest_len algo) sequence (Long-of p l)) l w)
