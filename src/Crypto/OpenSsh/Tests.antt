-- ===== src/Crypto/OpenSsh/Tests.antt =====
-- Runs of the key exports of packages/crypto/src/openssh.ts.
use trominal.Shared.{
  ◌≡◌, refl, List, [], ◌∷◌, ◌++◌, replicate, Text, codes, some, arith, All, text_eq,
}
use trominal.Shared.Results.{ok, err}
use trominal.Crypto.Wire.{
  concat, uint32, ssh_string, ssh_mpint, unsigned, trim_leading_zeros, pad_to_block_size,
  padding_from,
}
use trominal.Crypto.Wire.Reading.{be_value, be_from, read_mpint, read_mpint-ssh_mpint}
use trominal.Crypto.Der.{der_length, length_bytes, der_integer}
use trominal.Crypto.Der.Reading.{read_integer, read_integer-der_integer}
use trominal.Crypto.OpenSsh.{
  Ed25519KeyPair, JsonWebKey, Platform, ed25519_key_type, envelope, wrap_base64, matches,
  join_lines, rsa_sequence, rsa_private_jwk_to_pem, multi_prime, base64_url_to_bytes,
}
use trominal.Crypto.OpenSsh.Wrapping.{wrap_base64-lines, Fits}
use trominal.Crypto.OpenSsh.KeyFile.{key_file, read_envelope, IsExportable}
use trominal.Crypto.OpenSsh.KeyFile.RoundTrip.{read_envelope-envelope}
use trominal.Crypto.OpenSsh.RsaKey.{read_sequence, read_sequence-rsa_sequence}

mpint_top_bit : ssh_mpint (0 ∷ 0 ∷ 0x80 ∷ 1 ∷ []) ≡ 0 ∷ 0 ∷ 0 ∷ 3 ∷ 0 ∷ 0x80 ∷ 1 ∷ []
unfolding ssh_mpint ssh_string unsigned trim_leading_zeros concat uint32
mpint_top_bit = refl

der_long_length : der_length 300 ≡ 0x82 ∷ 1 ∷ 44 ∷ []
unfolding der_length length_bytes
der_long_length = refl

padded : pad_to_block_size (7 ∷ 7 ∷ 7 ∷ 7 ∷ 7 ∷ []) 8 ≡ 7 ∷ 7 ∷ 7 ∷ 7 ∷ 7 ∷ 1 ∷ 2 ∷ 3 ∷ []
unfolding pad_to_block_size padding_from concat
padded = refl

wrapped : wrap_base64 (codes "abcde") 2 ≡ codes "ab" ++ 10 ∷ (codes "cd" ++ 10 ∷ codes "e")
unfolding wrap_base64 matches join_lines
wrapped = refl

abbrev keypair : Ed25519KeyPair
keypair = record { public_key = replicate 32 7; private_key = replicate 64 9 }

keypair-IsExportable : IsExportable keypair (codes "me@host")
keypair-IsExportable = record {
  public_length = refl;
  private_length = refl;
  comment_length = omega arith;
}

read_envelope-envelope_example :
    read_envelope (envelope (1 ∷ 2 ∷ 3 ∷ 4 ∷ []) keypair (codes "me@host"))
    ≡ some (ed25519_key_type, replicate 32 7, key_file keypair (codes "me@host"))
read_envelope-envelope_example =
    read_envelope-envelope keypair (codes "me@host") keypair-IsExportable (1 ∷ 2 ∷ 3 ∷ 4 ∷ []) refl

wrap_base64-lines_run :
    (lines : List Text) × (wrap_base64 (codes "YWJj") 3 ≡ join_lines lines)
    × (concat lines ≡ codes "YWJj")
    × All (Fits 3) lines
wrap_base64-lines_run =
    wrap_base64-lines (codes "YWJj") 3 (omega arith) (refl, (refl, (refl, (refl, tt))))

read_mpint-ssh_mpint_run : read_mpint (ssh_mpint (0 ∷ 0x81 ∷ []) ++ (5 ∷ [])) ≡ some (0x81, 5 ∷ [])
unfolding be_value be_from
read_mpint-ssh_mpint_run = read_mpint-ssh_mpint (0 ∷ 0x81 ∷ []) (5 ∷ []) (omega arith)

read_integer-der_integer_run :
    read_integer (der_integer (0 ∷ 0x81 ∷ 0 ∷ []) ++ (5 ∷ [])) ≡ some (0x8100, 5 ∷ [])
unfolding be_value be_from
read_integer-der_integer_run = read_integer-der_integer (0 ∷ 0x81 ∷ 0 ∷ []) (5 ∷ []) (omega arith)

read_sequence-rsa_sequence_run :
    read_sequence 9
      (rsa_sequence (15 ∷ []) (3 ∷ []) (3 ∷ []) (5 ∷ []) (3 ∷ []) (3 ∷ []) (1 ∷ []) (2 ∷ []))
    ≡ some (0 ∷ 15 ∷ 3 ∷ 3 ∷ 5 ∷ 3 ∷ 3 ∷ 1 ∷ 2 ∷ [])
unfolding be_value be_from
read_sequence-rsa_sequence_run =
    read_sequence-rsa_sequence (15 ∷ []) (3 ∷ []) (3 ∷ []) (5 ∷ []) (3 ∷ []) (3 ∷ []) (1 ∷ [])
      (2 ∷ []) (omega arith)

-- A codec that needs no table, to run the exports on.
abbrev plain : Platform
plain = record { to_base64 = λ b. b; utf8 = λ s. s; atob = λ s. some s }

abbrev three_primes : JsonWebKey
three_primes = record {
  kty = some (codes "RSA");
  n = some (codes "AQ");
  e = some (codes "AQ");
  d = some (codes "AQ");
  p = some (codes "AQ");
  q = some (codes "AQ");
  dp = some (codes "AQ");
  dq = some (codes "AQ");
  qi = some (codes "AQ");
  oth = some (codes "r" ∷ []);
}

three_primes_refused : rsa_private_jwk_to_pem plain three_primes ≡ err multi_prime
unfolding rsa_private_jwk_to_pem text_eq
three_primes_refused = refl

url_alphabet : base64_url_to_bytes plain (codes "-_a") ≡ ok (codes "+/a=")
unfolding base64_url_to_bytes
url_alphabet = refl
