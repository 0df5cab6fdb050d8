-- ===== src/Frame/Codec.antt =====
-- What each pair of a writer and a reader of a field guarantees, in both directions.
use apptraverse.Prelude.{
  ℕ, ◌+◌, ◌*◌, ◌/◌, ◌%◌, ◌^◌, ◌≤◌, ◌<◌, ◌≡◌, refl, ap, ◌∙◌, subst, ◌≢◌, Option, none, some, [], ◌∷◌,
  ◌++◌, append_assoc, arith, length, take, drop, All, All-take, All-drop, take-append-drop,
  take-append_length, drop-append_length, length-take, length-append, Bytes, nat_eq,
}
use apptraverse.Frame.{
  Reader, ◌>>=◌, append_u32, append_obj_id, append_u64, read_u32, read_obj_id, read_u64,
  read_bounded_bytes, nonzero,
}

abbrev pub IsByte : ℕ → Type 0
IsByte b = b < 256

-- A reader takes back what the writer wrote, and a reader that succeeds on bytes has read what the
-- writer writes for a value in range.
pub record IsCodec {A : Type 0} (write : A → Bytes) (read : Reader A) (InRange : A → Type 0)
    : Type 0 where
  pub read-write : (a : A) (rest : Bytes) → InRange a → read (write a ++ rest) ≡ some (a, rest)
  pub write-read :
      (bytes : Bytes) {a : A} {rest : Bytes}
      → All IsByte bytes
      → read bytes ≡ some (a, rest)
      → InRange a × (bytes ≡ write a ++ rest) × All IsByte rest

-- Inversion of a successful bind.
pub >>=-eq-some :
    {A B : Type 0} (m : Reader A) (f : A → Reader B) (bytes : Bytes) {r : B × Bytes}
    → (m >>= f) bytes ≡ some r
    → (a : A) × (rest : Bytes) × (m bytes ≡ some (a, rest)) × (f a rest ≡ some r)
>>=-eq-some {A} {B} m f bytes {r} h = go (m bytes) refl h
  where
    go :
        (o : Option (A × Bytes))
        → m bytes ≡ o
        → ◌≡◌ {A = Option (B × Bytes)} (elim o [ none ↦ none | some (a, rest) ↦ f a rest ]) (some r)
        → (a : A) × (rest : Bytes) × (m bytes ≡ some (a, rest)) × (f a rest ≡ some r)
    go none e k = absurd (cc)
    go (some (a, rest)) e k = (a, rest, e, k)

pub >>=-step :
    {A B : Type 0} (m : Reader A) (f : A → Reader B) (bytes : Bytes) {a : A} {rest : Bytes}
    → m bytes ≡ some (a, rest)
    → (m >>= f) bytes ≡ f a rest
>>=-step {A} {B} m f bytes e = ap (λ (o : Option (A × Bytes)). continue o) e
  where
    continue : Option (A × Bytes) → Option (B × Bytes)
    continue o = elim o [ none ↦ none | some (a, rest) ↦ f a rest ]

unfoldable pub u32_bytes : ℕ → Bytes
u32_bytes v = append_u32 [] v

unfoldable pub u64_bytes : ℕ → Bytes
u64_bytes v = append_u64 [] v

pub append_u32_lem : (out : Bytes) (v : ℕ) → append_u32 out v ≡ out ++ u32_bytes v
unfolding append_u32 u32_bytes
append_u32_lem out v = refl

pub append_u64_lem : (out : Bytes) (v : ℕ) → append_u64 out v ≡ out ++ u64_bytes v
unfolding append_u64 append_u32 u64_bytes u32_bytes
append_u64_lem out v = append_assoc out _ _

pub append_obj_id_lem : (out : Bytes) (v : ℕ) → append_obj_id out v ≡ out ++ u32_bytes v
unfolding append_obj_id append_u32 u32_bytes
append_obj_id_lem out v = refl

read_u32-bytes :
    (v : ℕ) (rest : Bytes) → v < 2 ^ 32 → read_u32 (u32_bytes v ++ rest) ≡ some (v, rest)
unfolding read_u32 append_u32 u32_bytes
read_u32-bytes v rest h =
    let e : v / 2 ^ 24 % 256 * 2 ^ 24
          + v / 2 ^ 16 % 256 * 2 ^ 16
          + v / 2 ^ 8 % 256 * 2 ^ 8
          + v % 256
        ≡ v =
      omega arith in
    rw e

bytes-read_u32 :
    (bytes : Bytes) {v : ℕ} {rest : Bytes}
    → All IsByte bytes
    → read_u32 bytes ≡ some (v, rest)
    → (v < 2 ^ 32) × (bytes ≡ u32_bytes v ++ rest) × All IsByte rest
unfolding read_u32 append_u32 u32_bytes
bytes-read_u32 (a ∷ b ∷ c ∷ d ∷ r) {v} {rest} h e =
    let same : r ≡ rest = cc in
    let value : a * 2 ^ 24 + b * 2 ^ 16 + c * 2 ^ 8 + d ≡ v = cc in
    let a_back : a ≡ v / 2 ^ 24 % 256 = omega arith in
    let b_back : b ≡ v / 2 ^ 16 % 256 = omega arith in
    let c_back : c ≡ v / 2 ^ 8 % 256 = omega arith in
    let d_back : d ≡ v % 256 = omega arith in (omega arith, cc, subst (All IsByte) same h.1.1.1.1)
bytes-read_u32 [] h e = absurd (cc)
bytes-read_u32 (a ∷ []) h e = absurd (cc)
bytes-read_u32 (a ∷ b ∷ []) h e = absurd (cc)
bytes-read_u32 (a ∷ b ∷ c ∷ []) h e = absurd (cc)

abbrev pub IsU32 : ℕ → Type 0
IsU32 v = v < 2 ^ 32

abbrev pub IsU64 : ℕ → Type 0
IsU64 v = v < 2 ^ 64

-- Four bytes, the highest first, are exactly a 32-bit word.
pub IsU32-codec : IsCodec u32_bytes read_u32 IsU32
IsU32-codec = record { read-write = read_u32-bytes; write-read = bytes-read_u32 }

-- A reader that refuses 0 reads the numbers in range that are not 0.
pub nonzero_codec :
    {write : ℕ → Bytes} {read : Reader ℕ} {InRange : ℕ → Type 0}
    → IsCodec write read InRange
    → IsCodec write (nonzero read) (λ v. InRange v × (v ≢ 0))
unfolding nonzero
nonzero_codec {write} {read} {InRange} c = record {
  read-write = λ v rest h. >>=-step read _ _ (c.read-write v rest h.0) ∙ ground (arith, h.1);
  write-read = λ bytes {a = v} {rest} h e.
      let (n, r, e1, e2) = >>=-eq-some read _ bytes e in
      let (inside, split, bytes') = c.write-read bytes h e1 in
      let n_pos : n ≢ 0 = ground arith in
      let same : n ≡ v = ground arith in
      let same_rest : r ≡ rest = ground arith in
      (
        (subst InRange same inside, subst (λ k. k ≢ 0) same n_pos),
        cc,
        subst (All IsByte) same_rest bytes',
      );
}

abbrev pub IsObjId : ℕ → Type 0
IsObjId v = IsU32 v × (v ≢ 0)

pub IsObjId-codec : IsCodec u32_bytes read_obj_id IsObjId
unfolding read_obj_id nonzero
IsObjId-codec = nonzero_codec IsU32-codec

u64_bytes-split :
    (v : ℕ) (rest : Bytes)
    → u64_bytes v ++ rest ≡ u32_bytes (v / 2 ^ 32 % 2 ^ 32) ++ (u32_bytes (v % 2 ^ 32) ++ rest)
unfolding append_u64 append_u32 u64_bytes u32_bytes
u64_bytes-split v rest = refl

pub IsU64-codec : IsCodec u64_bytes read_u64 IsU64
unfolding read_u64 append_u64
IsU64-codec = record {
  read-write = λ v rest h.
      ap read_u64 (u64_bytes-split v rest)
      ∙ >>=-step read_u32 _ _ (IsU32-codec.read-write (v / 2 ^ 32 % 2 ^ 32) _ (omega arith))
      ∙ >>=-step read_u32 _ _ (IsU32-codec.read-write (v % 2 ^ 32) rest (omega arith))
      ∙ ground arith;
  write-read = λ bytes {a = v} {rest} h e.
      let (hi, r1, e1, k1) = >>=-eq-some read_u32 _ bytes e in
      let (lo, r2, e2, k2) = >>=-eq-some read_u32 _ r1 k1 in
      let (hi_small, split1, bytes1) = IsU32-codec.write-read bytes h e1 in
      let (lo_small, split2, bytes2) = IsU32-codec.write-read r1 bytes1 e2 in
      let value : hi * 2 ^ 32 + lo ≡ v = cc in
      let same : r2 ≡ rest = cc in
      let hi_back : hi ≡ v / 2 ^ 32 % 2 ^ 32 = omega arith in
      let lo_back : lo ≡ v % 2 ^ 32 = omega arith in
      (omega arith, cc (u64_bytes-split v rest), subst (All IsByte) same bytes2);
}

abbrev pub bounded_bytes : Bytes → Bytes
bounded_bytes out = u32_bytes (length out) ++ out

abbrev pub IsBounded : ℕ → Bytes → Type 0
IsBounded max_size out = (length out ≢ 0) × (length out ≤ max_size) × All IsByte out

pub IsBounded-codec :
    (max_size : ℕ)
    → max_size < 2 ^ 32
    → IsCodec bounded_bytes (read_bounded_bytes max_size) (IsBounded max_size)
unfolding read_bounded_bytes
IsBounded-codec max_size small = record {
  read-write = λ out rest h.
      ap (λ (bytes : Bytes). read_bounded_bytes max_size bytes)
        (append_assoc (u32_bytes (length out)) out rest)
      ∙ >>=-step read_u32 _ _ (IsU32-codec.read-write (length out) (out ++ rest) (omega arith))
      ∙ ground
          (arith, take-append_length out rest, drop-append_length out rest, length-append out rest);
  write-read = λ bytes {a = out} {rest} h e.
      let (size, r, e1, k) = >>=-eq-some read_u32 _ bytes e in
      let (small', split, bytes') = IsU32-codec.write-read bytes h e1 in
      let size_pos : size ≢ 0 = ground arith in
      let size_le : size ≤ max_size = ground arith in
      let size_fits : size ≤ length r = ground arith in
      let out_eq : take size r ≡ out = ground arith in
      let rest_eq : drop size r ≡ rest = ground arith in
      let len : length out ≡ size = omega (arith, ap length out_eq, length-take size r) in
      (
        (omega arith, omega arith, subst (All IsByte) out_eq (All-take IsByte size r bytes')),
        cc (take-append-drop size r, append_assoc (u32_bytes (length out)) out rest),
        subst (All IsByte) rest_eq (All-drop IsByte size r bytes'),
      );
}
