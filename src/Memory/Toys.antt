-- ===== src/Memory/Toys.antt =====
-- Toy certificates for the cluster in memory, and their encoding as numbers.
use Prim.Native.Char.{Char, char, code, nul, IsScalar}
use Prim.Native.Nat.{Ordering, compare}
use text.Mathlib.TextEquality.{Char-path}
use build_operator.Prelude.{
  ℕ, zero, suc, String, ◌≡◌, refl, ◌∙◌, ◌⊎◌, inl, inr, false, List, [], ◌∷◌,
}
use build_operator.Prelude.Int.{ℤ, pos, negsuc}
use build_operator.Error.{failure}
use build_operator.Exec.{Result, ok, err}
use build_operator.Kube.Storage.{Bytes}
use build_operator.World.{Certificate}

Ordering-cases : (o : Ordering) → (o ≡ Ordering.lt) ⊎ ((o ≡ Ordering.eq) ⊎ (o ≡ Ordering.gt))
Ordering-cases Ordering.lt = inl refl
Ordering-cases Ordering.eq = inr (inl refl)
Ordering-cases Ordering.gt = inr (inr refl)

-- A number in the two ranges of characters is one, and another is none.
above : (n : ℕ) → (compare n 55296 ≡ Ordering.lt → ⊥) → IsScalar n ⊎ ¬ IsScalar n
above n high = elim (Ordering-cases (compare n 55296)) [
  | inl e ↦ absurd (high e)
  | inr rest ↦ elim (Ordering-cases (compare 57343 n)) [
    | inl f ↦ elim (Ordering-cases (compare n 1114112)) [
      | inl g ↦ elim rest [ inl e ↦ inl (rw (e, f, g) tt) | inr e ↦ inl (rw (e, f, g) tt) ]
      | inr (inl g) ↦ elim rest [
        | inl e ↦ rw (e, f, g) (inr λ x. x)
        | inr e ↦ rw (e, f, g) (inr λ x. x)
      ]
      | inr (inr g) ↦ elim rest [
        | inl e ↦ rw (e, f, g) (inr λ x. x)
        | inr e ↦ rw (e, f, g) (inr λ x. x)
      ]
    ]
    | inr (inl f) ↦ elim rest [ inl e ↦ rw (e, f) (inr λ x. x) | inr e ↦ rw (e, f) (inr λ x. x) ]
    | inr (inr f) ↦ elim rest [ inl e ↦ rw (e, f) (inr λ x. x) | inr e ↦ rw (e, f) (inr λ x. x) ]
  ]
]

pub is_scalar : (n : ℕ) → IsScalar n ⊎ ¬ IsScalar n
is_scalar n = elim (Ordering-cases (compare n 55296)) [
  | inl e ↦ inl (rw e tt)
  | inr (inl e) ↦ above n (rw e λ f. cc)
  | inr (inr e) ↦ above n (rw e λ f. cc)
]

scalar_or_nul : (n : ℕ) → IsScalar n ⊎ ¬ IsScalar n → Char
scalar_or_nul n (inl p) = char n p
scalar_or_nul n (inr none_such) = nul

char_of : ℕ → Char
unfolding scalar_or_nul
char_of n = scalar_or_nul n (is_scalar n)

scalar_or_nul-code :
    (n : ℕ) (p : IsScalar n) (d : IsScalar n ⊎ ¬ IsScalar n) → scalar_or_nul n d ≡ char n p
unfolding scalar_or_nul
scalar_or_nul-code n p (inl q) = Char-path (char n q) (char n p) refl
scalar_or_nul-code n p (inr none_such) = absurd (none_such p)

char_of-code : (c : Char) → char_of (code c) ≡ c
unfolding char_of
char_of-code (char n p) = scalar_or_nul-code n p (is_scalar n)

-- A text as numbers: its characters from 2 on, and 1 at its end.
encode_text : String → Bytes → Bytes
encode_text String.[] rest = 1 ∷ rest
encode_text (String.◌∷◌ c s) rest = suc (suc (code c)) ∷ encode_text s rest

-- Texts, with 0 after the last.
encode_texts : List String → Bytes → Bytes
unfolding encode_text
encode_texts [] rest = 0 ∷ rest
encode_texts (s ∷ texts) rest = encode_text s (encode_texts texts rest)

push : Char → List String → List String
push c [] = String.◌∷◌ c String.[] ∷ []
push c (s ∷ texts) = String.◌∷◌ c s ∷ texts

decode_texts : Bytes → List String × Bytes
unfolding push char_of
decode_texts [] = ([], [])
decode_texts (zero ∷ rest) = ([], rest)
decode_texts (suc zero ∷ rest) =
    let (texts, after) = decode_texts rest in (String.[] ∷ texts, after)
decode_texts (suc (suc n) ∷ rest) =
    let (texts, after) = decode_texts rest in (push (char_of n) texts, after)

decode-encode_text :
    (s : String) (texts : List String) (rest after : Bytes)
    → decode_texts rest ≡ (texts, after)
    → decode_texts (encode_text s rest) ≡ (s ∷ texts, after)
unfolding decode_texts encode_text push
decode-encode_text String.[] texts rest after h = rw h refl
decode-encode_text (String.◌∷◌ c s) texts rest after h =
    rw (decode-encode_text s texts rest after h, char_of-code c) refl

decode-encode_texts :
    (texts : List String) (rest : Bytes) → decode_texts (encode_texts texts rest) ≡ (texts, rest)
unfolding decode_texts encode_texts
decode-encode_texts [] rest = refl
decode-encode_texts (s ∷ texts) rest =
    decode-encode_text s texts (encode_texts texts rest) rest (decode-encode_texts texts rest)

-- A toy certificate's serial number is its key, and its start the key that signed it.
unfoldable pub toy_certificate : Certificate → ℕ → ℕ → Certificate
toy_certificate tmpl key signer = record {
  serial_number = key;
  common_name = tmpl.common_name;
  not_before = pos signer;
  not_after = tmpl.not_after;
  key_usage = tmpl.key_usage;
  ext_key_usage = tmpl.ext_key_usage;
  basic_constraints_valid = false;
  is_ca = false;
  max_path_len_zero = false;
  dns_names = tmpl.dns_names;
}

encode_end : ℤ → Bytes → Bytes
encode_end (pos n) rest = 0 ∷ n ∷ rest
encode_end (negsuc n) rest = 1 ∷ n ∷ rest

unfoldable pub encode_certificate : Certificate → ℕ → ℕ → Bytes
unfolding encode_end encode_texts
encode_certificate tmpl key signer =
    key
    ∷ signer
    ∷ encode_end tmpl.not_after (
        encode_texts (tmpl.common_name ∷ tmpl.dns_names)
          (encode_texts tmpl.key_usage (encode_texts tmpl.ext_key_usage [])))

with_names : ℕ → ℕ → ℤ → List String → List String → List String → Result Certificate
with_names key signer end [] usage extended = err (failure "malformed certificate")
with_names key signer end (name ∷ names) usage extended = ok (record {
  serial_number = key;
  common_name = name;
  not_before = pos signer;
  not_after = end;
  key_usage = usage;
  ext_key_usage = extended;
  basic_constraints_valid = false;
  is_ca = false;
  max_path_len_zero = false;
  dns_names = names;
})

decode_names : ℕ → ℕ → ℤ → Bytes → Result Certificate
unfolding decode_texts with_names
decode_names key signer end rest =
    let (names, r) = decode_texts rest in
    let (usage, q) = decode_texts r in
    let (extended, _) = decode_texts q in with_names key signer end names usage extended

unfoldable pub decode_certificate : Bytes → Result Certificate
unfolding decode_names
decode_certificate (key ∷ signer ∷ zero ∷ n ∷ rest) = decode_names key signer (pos n) rest
decode_certificate (key ∷ signer ∷ suc zero ∷ n ∷ rest) = decode_names key signer (negsuc n) rest
decode_certificate _ = err (failure "malformed certificate")

decode-encode_end :
    (key signer : ℕ) (end : ℤ) (rest : Bytes)
    → decode_certificate (key ∷ signer ∷ encode_end end rest) ≡ decode_names key signer end rest
unfolding decode_certificate encode_end
decode-encode_end key signer (pos n) rest = refl
decode-encode_end key signer (negsuc n) rest = refl

pub decode-encode :
    (tmpl : Certificate) (key signer : ℕ)
    → decode_certificate (encode_certificate tmpl key signer) ≡ ok (toy_certificate tmpl key signer)
unfolding encode_certificate toy_certificate
decode-encode tmpl key signer =
    decode-encode_end key signer tmpl.not_after _
    ∙ (unfold decode_names in
        rw
          (
            decode-encode_texts (tmpl.common_name ∷ tmpl.dns_names),
            decode-encode_texts tmpl.key_usage,
            decode-encode_texts tmpl.ext_key_usage,
          )
          refl)
