-- ===== src/Crypto/Envelope/Tests.antt =====
-- Runs of packages/crypto/src/encrypt.ts on the toy cipher, and the properties at concrete inputs.
use trominal.Shared.{Text, Bytes, codes, replicate, [], ◌≡◌, refl}
use trominal.Shared.Results.{ok, err}
use trominal.Crypto.Toy
use trominal.Crypto.Toy.{toy, toy-IsCodec, toy-IsCorrect, toy-IsAuthentic}
use trominal.Crypto.Envelope.{
  Envelope, make_ad, sealed_envelope, encrypt, encrypt_with_nonce, decrypt, decrypt_to_string,
  key_length, nonce_length, not_authentic, empty_resource, unsupported_version,
}
use trominal.Crypto.Envelope.Binding.{NoColon, make_ad_injective}
use trominal.Crypto.Envelope.RoundTrip.{decrypt-encrypt, decrypt_binds}

abbrev key : Bytes
key = replicate 32 7

abbrev nonce : Bytes
nonce = replicate 24 1

abbrev ad : Text
ad = codes "trominal:v1:host:42"

abbrev stored : Envelope
stored = sealed_envelope toy (codes "db.internal") key ad nonce

make_ad_run : make_ad (codes "host") (codes "42") ≡ ok ad
unfolding make_ad
make_ad_run = refl

make_ad_empty : make_ad (codes "host") [] ≡ err empty_resource
unfolding make_ad
make_ad_empty = refl

encrypt_run : encrypt toy (codes "db.internal") key ad nonce ≡ ok stored
unfolding encrypt
encrypt_run = refl

encrypt_short_key : encrypt toy (codes "db.internal") (replicate 31 7) ad nonce ≡ err key_length
unfolding encrypt
encrypt_short_key = refl

encrypt_with_nonce_short :
    encrypt_with_nonce toy (codes "db.internal") key ad (replicate 12 1) ≡ err nonce_length
unfolding encrypt_with_nonce
encrypt_with_nonce_short = refl

decrypt_to_string_run : decrypt_to_string toy stored key ad ≡ ok (codes "db.internal")
unfolding decrypt_to_string decrypt Toy.strip Toy.unframe
decrypt_to_string_run = refl

decrypt_run : decrypt toy stored key ad ≡ ok (codes "db.internal")
unfolding decrypt Toy.strip Toy.unframe
decrypt_run = refl

decrypt_version :
    decrypt toy (record { v = 2; ct = stored.ct; n = stored.n }) key ad ≡ err unsupported_version
unfolding decrypt
decrypt_version = refl

decrypt_other_row : decrypt toy stored key (codes "trominal:v1:host:43") ≡ err not_authentic
unfolding decrypt Toy.strip Toy.unframe
decrypt_other_row = refl

host-NoColon : NoColon (codes "host")
host-NoColon = ((λ e. cc e), ((λ e. cc e), ((λ e. cc e), ((λ e. cc e), tt))))

make_ad_injective_run : (codes "host" ≡ codes "host") × (codes "42" ≡ codes "42")
make_ad_injective_run =
    make_ad_injective (codes "host") (codes "host") (codes "42") (codes "42") host-NoColon
      host-NoColon make_ad_run make_ad_run

decrypt-encrypt_run : decrypt toy stored key ad ≡ ok (codes "db.internal")
decrypt-encrypt_run =
    decrypt-encrypt toy toy-IsCodec (codes "db.internal") key nonce ad toy-IsCorrect refl
      encrypt_run

decrypt_binds_example : (ad ≡ ad) × (key ≡ key) × (codes "db.internal" ≡ codes "db.internal")
decrypt_binds_example =
    decrypt_binds toy toy-IsCodec (codes "db.internal") key nonce key (codes "db.internal") ad ad
      toy-IsCorrect toy-IsAuthentic encrypt_run decrypt_run
