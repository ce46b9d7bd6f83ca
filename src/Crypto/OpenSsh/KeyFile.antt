-- ===== src/Crypto/OpenSsh/KeyFile.antt =====
-- An independent reader of the `openssh-key-v1` format, for the key files that
-- packages/crypto/src/openssh.ts writes.
pub mod RoundTrip
use mathlib.Core.Bool.{◌&&◌}
use trominal.Shared.{
  ◌≡◌, ◌<◌, ◌^◌, ℕ, ◌+◌, ◌%◌, Bool, true, [], ◌∷◌, length, take, drop, Bytes, codes, leb, ◌==◌,
  Option, none, some, if◌then◌else◌, text_eq,
}
use trominal.Shared.Options.{◌>>=◌, ◌>>◌, require}
use trominal.Crypto.Wire.Reading.{read_uint32, read_string}
use trominal.Crypto.OpenSsh.{Ed25519KeyPair, ed25519_key_type, auth_magic}

pub record KeyFile : Type 0 where
  pub key_type : Bytes
  pub public_key : Bytes
  pub private_key : Bytes
  pub comment : Bytes

-- `bytes` begins with `expected`.
unfoldable pub expect : Bytes → Bytes → Option Bytes
expect [] bytes = some bytes
expect (e ∷ es) [] = none
expect (e ∷ es) (b ∷ bs) = if e == b then expect es bs else none

-- What follows the comment counts up from 1.
unfoldable pub is_padding : ℕ → Bytes → Bool
is_padding next [] = true
is_padding next (b ∷ rest) = (b == next) && is_padding (next + 1) rest

unfoldable pub read_fields : Bytes → Option KeyFile
unfolding is_padding
read_fields bytes = do
  (key_type, bytes₁) ← read_string bytes
  (public_key, bytes₂) ← read_string bytes₁
  (private_key, bytes₃) ← read_string bytes₂
  (comment, rest) ← read_string bytes₃
  require (is_padding 1 rest)
  some (record {
    key_type = key_type;
    public_key = public_key;
    private_key = private_key;
    comment = comment;
  })

-- The check number stands twice, and the length is a multiple of 8.
unfoldable pub read_private_block : Bytes → Option KeyFile
read_private_block bytes = do
  require (length bytes % 8 == 0)
  require (leb 4 (length bytes))
  rest ← expect (take 4 bytes) (drop 4 bytes)
  read_fields rest

-- The header of an unencrypted file with one key; what follows is returned.
unfoldable pub read_header : Bytes → Option Bytes
unfolding read_uint32
read_header bytes = do
  bytes₁ ← expect auth_magic bytes
  (cipher, bytes₂) ← read_string bytes₁
  (kdf, bytes₃) ← read_string bytes₂
  (options, bytes₄) ← read_string bytes₃
  require (text_eq cipher (codes "none") && text_eq kdf (codes "none") && text_eq options [])
  (keys, rest) ← read_uint32 bytes₄
  require (keys == 1)
  some rest

unfoldable pub read_public_blob : Bytes → Option (Bytes × Bytes)
read_public_blob blob = do
  (key_type, rest) ← read_string blob
  (public_key, _) ← read_string rest
  some (key_type, public_key)

-- The public part, stated in the clear, and the private part.
unfoldable pub read_envelope : Bytes → Option (Bytes × Bytes × KeyFile)
read_envelope bytes = do
  rest ← read_header bytes
  (blob, rest') ← read_string rest
  (stated_type, stated_key) ← read_public_blob blob
  (block, _) ← read_string rest'
  file ← read_private_block block
  some (stated_type, stated_key, file)

-- What the file of a key pair holds.
abbrev pub key_file : Ed25519KeyPair → Bytes → KeyFile
key_file keypair comment = record {
  key_type = ed25519_key_type;
  public_key = keypair.public_key;
  private_key = keypair.private_key;
  comment = comment;
}

-- The lengths that the export checks, and a comment that fits its length field.
pub record IsExportable (keypair : Ed25519KeyPair) (comment : Bytes) : Type 0 where
  pub public_length : length keypair.public_key ≡ 32
  pub private_length : length keypair.private_key ≡ 64
  pub comment_length : length comment < 2 ^ 31
