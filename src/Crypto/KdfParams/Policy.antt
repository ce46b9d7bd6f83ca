-- ===== src/Crypto/KdfParams/Policy.antt =====
-- What `isKdfParams` of packages/crypto/src/kdf-params.ts accepts.
use mathlib.Core.List.{Perm}
use trominal.Shared.{
  and_true, ℕ, ◌≤◌, ◌%◌, true, Option, none, some, List, [], ◌∷◌, Text, codes, text_eq, text_eq_iff,
  ◌≡◌, refl, ◌↔◌, arith,
}
use trominal.Json.{
  nat, negative, fraction, Value, null, boolean, number, string, array, object, Fields, keys, get,
}
use trominal.Json.Order.{sort, sort-eq_iff_perm}
use trominal.Crypto.KdfParams.Limits
use trominal.Crypto.KdfParams.{
  argon2id, kdf_keys, is_integer_between, is_number, is_string, texts_eq, is_kdf_params,
}

texts_eq_iff : (ss ts : List Text) → (texts_eq ss ts ≡ true) ↔ (ss ≡ ts)
texts_eq_iff [] [] = ground arith
texts_eq_iff [] (t ∷ ts) = ground arith
texts_eq_iff (s ∷ ss) [] = ground arith
texts_eq_iff (s ∷ ss) (t ∷ ts) = ground (arith, texts_eq_iff ss ts, text_eq_iff s t)

-- The six keys, in any order and no other, with the values in the accepted range.
pub record IsSupported (v : Fields) : Type 0 where
  pub memlimit : ℕ
  pub opslimit : ℕ
  pub has_keys : Perm (keys v) kdf_keys
  pub version : get (codes "version") v ≡ some (number (nat 1))
  pub alg : get (codes "alg") v ≡ some (string argon2id)
  pub has_memlimit : get (codes "memlimit") v ≡ some (number (nat memlimit))
  pub memlimit_ge : Limits.memlimit_min ≤ memlimit
  pub memlimit_le : memlimit ≤ Limits.memlimit_max
  pub whole_kib : memlimit % 1024 ≡ 0
  pub has_opslimit : get (codes "opslimit") v ≡ some (number (nat opslimit))
  pub opslimit_ge : 3 ≤ opslimit
  pub opslimit_le : opslimit ≤ 10
  pub salt_len : get (codes "salt_len") v ≡ some (number (nat 16))
  pub out_len : get (codes "out_len") v ≡ some (number (nat 32))

sort-kdf_keys : sort kdf_keys ≡ kdf_keys
unfolding sort
sort-kdf_keys = refl

is_number-eq : (o : Option Value) (k : ℕ) → is_number o k ≡ true → o ≡ some (number (nat k))
is_number-eq (some (number (nat n))) k h = ground arith
is_number-eq none k h = cc
is_number-eq (some (number (negative n))) k h = cc
is_number-eq (some (number fraction)) k h = cc
is_number-eq (some null) k h = cc
is_number-eq (some (boolean b)) k h = cc
is_number-eq (some (string s)) k h = cc
is_number-eq (some (array vs)) k h = cc
is_number-eq (some (object fs)) k h = cc

is_string-eq : (o : Option Value) (t : Text) → is_string o t ≡ true → o ≡ some (string t)
is_string-eq (some (string s)) t h = ground (arith, text_eq_iff s t)
is_string-eq none t h = cc
is_string-eq (some null) t h = cc
is_string-eq (some (boolean b)) t h = cc
is_string-eq (some (number n)) t h = cc
is_string-eq (some (array vs)) t h = cc
is_string-eq (some (object fs)) t h = cc

Between : Option Value → ℕ → ℕ → Type 0
Between o lo hi = (n : ℕ) × (o ≡ some (number (nat n))) × (lo ≤ n) × (n ≤ hi)

is_integer_between-Between :
    (o : Option Value) (lo hi : ℕ) → is_integer_between o lo hi ≡ true → Between o lo hi
unfolding Between
is_integer_between-Between (some (number (nat n))) lo hi h = (n, refl, ground arith, ground arith)
is_integer_between-Between none lo hi h = cc
is_integer_between-Between (some (number (negative n))) lo hi h = cc
is_integer_between-Between (some (number fraction)) lo hi h = cc
is_integer_between-Between (some null) lo hi h = cc
is_integer_between-Between (some (boolean b)) lo hi h = cc
is_integer_between-Between (some (string s)) lo hi h = cc
is_integer_between-Between (some (array vs)) lo hi h = cc
is_integer_between-Between (some (object fs)) lo hi h = cc

pub is_kdf_params-IsSupported : (v : Fields) → is_kdf_params (object v) ≡ true → IsSupported v
unfolding is_kdf_params Between
is_kdf_params-IsSupported v h =
    let (h, out_len) = and_true h in
    let (h, salt_len) = and_true h in
    let (h, ops) = and_true h in
    let (h, kib) = and_true h in
    let (h, mem) = and_true h in
    let (h, alg) = and_true h in
    let (key_list, version) = and_true h in
    let (memlimit, has_mem, mem_ge, mem_le) = is_integer_between-Between _ _ _ mem in
    let (opslimit, has_ops, ops_ge, ops_le) = is_integer_between-Between _ _ _ ops in
    record {
      memlimit = memlimit;
      opslimit = opslimit;
      has_keys =
          (sort-eq_iff_perm (keys v) kdf_keys sort-kdf_keys).0 ((texts_eq_iff _ _).0 key_list);
      version = is_number-eq _ _ version;
      alg = is_string-eq _ _ alg;
      has_memlimit = has_mem;
      memlimit_ge = mem_ge;
      memlimit_le = mem_le;
      whole_kib = ground (arith, has_mem);
      has_opslimit = has_ops;
      opslimit_ge = ops_ge;
      opslimit_le = ops_le;
      salt_len = is_number-eq _ _ salt_len;
      out_len = is_number-eq _ _ out_len;
    }

IsSupported-is_kdf_params : (v : Fields) → IsSupported v → is_kdf_params (object v) ≡ true
unfolding is_kdf_params text_eq
IsSupported-is_kdf_params v h =
    rw
      ((texts_eq_iff _ kdf_keys).1
        ((sort-eq_iff_perm (keys v) kdf_keys sort-kdf_keys).1 h.has_keys))
      (rw (h.version, h.alg, h.has_memlimit, h.has_opslimit, h.salt_len, h.out_len) (ground arith))

-- `isKdfParams` accepts exactly the objects with the six keys, in any order and no other, whose
-- values lie in the accepted range.
pub is_kdf_params_iff :
    (value : Value)
    → (is_kdf_params value ≡ true) ↔ ((v : Fields) × (value ≡ object v) × IsSupported v)
is_kdf_params_iff value = (accepted value, λ (v, e, h). rw e (IsSupported-is_kdf_params v h))
  where
    accepted :
        (value : Value)
        → is_kdf_params value ≡ true
        → (v : Fields) × (value ≡ object v) × IsSupported v
    accepted (object v) h = (v, refl, is_kdf_params-IsSupported v h)
    accepted null h = unfold is_kdf_params in cc
    accepted (boolean b) h = unfold is_kdf_params in cc
    accepted (number n) h = unfold is_kdf_params in cc
    accepted (string t) h = unfold is_kdf_params in cc
    accepted (array vs) h = unfold is_kdf_params in cc
