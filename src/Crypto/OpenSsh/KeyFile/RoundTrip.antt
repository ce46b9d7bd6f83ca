-- ===== src/Crypto/OpenSsh/KeyFile/RoundTrip.antt =====
-- The Ed25519 key file of packages/crypto/src/openssh.ts, read back.
use trominal.Shared.{
  ℕ, zero, suc, ◌+◌, ◌-◌, ◌%◌, ◌^◌, ◌<◌, true, [], ◌∷◌, ◌++◌, length, Bytes, codes, leb, ◌≡◌, refl,
  ap, arith, some, append-nil, append_assoc, length-append, text_eq, take-append_of_length,
  drop-append_of_length,
}
use trominal.Crypto.Wire.{concat, uint32, ssh_string, pad_to_block_size, padding_from}
use trominal.Crypto.Wire.Reading.{
  read_uint32-uint32, read_string-ssh_string, read_string-ssh_string_end, length-ssh_string-append,
}
use trominal.Crypto.OpenSsh.{
  Ed25519KeyPair, auth_magic, ed25519_key_type, public_blob, private_block, envelope,
}
use trominal.Crypto.OpenSsh.KeyFile.{
  key_file, IsExportable, expect, is_padding, read_fields, read_private_block, read_header,
  read_public_blob, read_envelope,
}

pub expect-append : (es rest : Bytes) → expect es (es ++ rest) ≡ some rest
unfolding expect
expect-append [] rest = refl
expect-append (e ∷ es) rest = ground (arith, expect-append es rest)

is_padding-padding_from :
    (index n : ℕ) → index + n < 256 → is_padding (index + 1) (padding_from index n) ≡ true
unfolding is_padding padding_from
is_padding-padding_from index zero h = refl
is_padding-padding_from index (suc n) h = ground (arith, is_padding-padding_from (index + 1) n)

length-padding_from : (index n : ℕ) → length (padding_from index n) ≡ n
unfolding padding_from
length-padding_from index zero = refl
length-padding_from index (suc n) = ap suc (length-padding_from (index + 1) n)

-- The padded array is the array, then at most `block_size - 1` bytes, up to a multiple of the block size.
pub length-pad_to_block_size : (bytes : Bytes) → length (pad_to_block_size bytes 8) % 8 ≡ 0
unfolding pad_to_block_size
length-pad_to_block_size bytes = omega (
  arith,
  length-append bytes (padding_from 0 ((8 - length bytes % 8) % 8) ++ []),
  length-append (padding_from 0 ((8 - length bytes % 8) % 8)) [],
  length-padding_from 0 ((8 - length bytes % 8) % 8),
)

abbrev written : Ed25519KeyPair → Bytes → Bytes → Bytes
written keypair comment rest =
    ssh_string ed25519_key_type
    ++ (ssh_string keypair.public_key
        ++ (ssh_string keypair.private_key ++ (ssh_string comment ++ rest)))

length-private_block :
    (check : Bytes) (keypair : Ed25519KeyPair) (comment : Bytes)
    → length (private_block check keypair comment) % 8 ≡ 0
unfolding private_block
length-private_block check keypair comment = length-pad_to_block_size (
    concat (
      check
      ∷ check
      ∷ ssh_string ed25519_key_type
      ∷ ssh_string keypair.public_key
      ∷ ssh_string keypair.private_key
      ∷ ssh_string comment
      ∷ []))

length-written :
    (keypair : Ed25519KeyPair) (comment rest : Bytes)
    → length (written keypair comment rest)
      ≡ 27 + length keypair.public_key + length keypair.private_key + length comment + length rest
length-written keypair comment rest = omega (
  arith,
  length-ssh_string-append ed25519_key_type (
      ssh_string keypair.public_key
      ++ (ssh_string keypair.private_key ++ (ssh_string comment ++ rest))),
  length-ssh_string-append keypair.public_key
      (ssh_string keypair.private_key ++ (ssh_string comment ++ rest)),
  length-ssh_string-append keypair.private_key (ssh_string comment ++ rest),
  length-ssh_string-append comment rest,
)

read_header-written :
    (rest : Bytes)
    → read_header (
        auth_magic
        ++ (ssh_string (codes "none")
            ++ (ssh_string (codes "none") ++ (ssh_string [] ++ (uint32 1 ++ rest)))))
      ≡ some rest
unfolding read_header text_eq
read_header-written rest = rw (expect-append auth_magic _) (
    rw (read_string-ssh_string (codes "none") _ (omega arith)) (
      rw (read_string-ssh_string (codes "none") (ssh_string [] ++ (uint32 1 ++ rest)) (omega arith))
        (rw (read_string-ssh_string [] (uint32 1 ++ rest) (omega arith))
          (rw (read_uint32-uint32 1 rest (omega arith))))))

module _ (key : Bytes) (size : length key ≡ 32) where
  read_public_blob-public_blob : read_public_blob (public_blob key) ≡ some (ed25519_key_type, key)
  unfolding read_public_blob public_blob
  read_public_blob-public_blob = rw append-nil (
      rw (read_string-ssh_string ed25519_key_type (ssh_string key) (omega arith))
        (rw (read_string-ssh_string_end key (omega (arith, size)))))

  length-public_blob-lt : length (public_blob key) < 2 ^ 32
  unfolding public_blob
  length-public_blob-lt = omega (
    arith,
    length-ssh_string-append ed25519_key_type (ssh_string key ++ []),
    length-ssh_string-append key [],
    size,
  )

module _ (keypair : Ed25519KeyPair) (comment : Bytes) (h : IsExportable keypair comment) where
  read_fields-written :
      (n : ℕ)
      → n < 255
      → read_fields (written keypair comment (padding_from 0 n)) ≡ some (key_file keypair comment)
  unfolding read_fields
  read_fields-written n small = rw (read_string-ssh_string ed25519_key_type _ (omega arith)) (
      rw (read_string-ssh_string keypair.public_key _ (omega (arith, h.public_length))) (
        rw (read_string-ssh_string keypair.private_key _ (omega (arith, h.private_length))) (
          rw (read_string-ssh_string comment (padding_from 0 n) (omega (arith, h.comment_length)))
            (rw (is_padding-padding_from 0 n (omega arith))))))

  module _ (check : Bytes) (four : length check ≡ 4) where
    abbrev body : Bytes
    body = check ++ (check ++ written keypair comment [])

    abbrev padding : ℕ
    padding = (8 - length body % 8) % 8

    private_block_lem :
        private_block check keypair comment
        ≡ check ++ (check ++ written keypair comment (padding_from 0 padding))
    unfolding private_block pad_to_block_size
    private_block_lem = simp (append-nil, append_assoc)

    -- Reading the private part of a written file gives the key pair and the comment.
    pub read_private_block-private_block :
        read_private_block (private_block check keypair comment) ≡ some (key_file keypair comment)
    unfolding read_private_block
    read_private_block-private_block =
        let blocks : length (private_block check keypair comment) % 8 ≡ 0 =
          length-private_block check keypair comment in
        let rest = check ++ written keypair comment (padding_from 0 padding) in
        let long : leb 4 (length (check ++ rest)) ≡ true =
          ground (arith, four, length-append check rest) in
        rw blocks (
          rw private_block_lem (
            rw long (
              rw (take-append_of_length 4 check rest four, drop-append_of_length 4 check rest four)
                (rw (expect-append check (written keypair comment (padding_from 0 padding)))
                  (read_fields-written padding (omega arith))))))

    -- The length of the private part fits its length field.
    length-private_block-lt : length (private_block check keypair comment) < 2 ^ 32
    length-private_block-lt = rw private_block_lem (
        omega (
          arith,
          length-append check (check ++ written keypair comment (padding_from 0 padding)),
          length-append check (written keypair comment (padding_from 0 padding)),
          length-written keypair comment (padding_from 0 padding),
          length-padding_from 0 padding,
          four,
          h.public_length,
          h.private_length,
          h.comment_length,
        ))

    -- An exported file holds the key pair and the comment, and states its public key in the clear.
    pub read_envelope-envelope :
        read_envelope (envelope check keypair comment)
        ≡ some (ed25519_key_type, keypair.public_key, key_file keypair comment)
    unfolding read_envelope envelope
    read_envelope-envelope =
        let block = private_block check keypair comment in
        simp append-nil (
          rw (read_header-written (ssh_string (public_blob keypair.public_key) ++ ssh_string block))
            (rw
              (read_string-ssh_string (public_blob keypair.public_key) (ssh_string block)
                (length-public_blob-lt keypair.public_key h.public_length))
              (rw (read_public_blob-public_blob keypair.public_key h.public_length) (
                rw (read_string-ssh_string_end block length-private_block-lt)
                  (rw read_private_block-private_block)))))
