-- ===== src/Util/UrlEncode/RoundTrip.antt =====
-- url_encode.h: decoding gives back what was encoded, and what an encoded text is made of.
use aim_rt.Prelude.{
  ℕ, ◌/◌, ◌%◌, ◌<◌, ◌≡◌, refl, ap, ◌∙◌, Bool, true, false, ◌||◌, List, [], ◌∷◌, ◌++◌, arith, All,
  All-append, Bool-cases, inl, inr, nat_eq, ◌==◌,
}
use aim_rt.Util.UrlEncode.{
  to_hex, from_hex, escape, unescape, is_alnum, is_unreserved, url_encode_byte, url_encode,
  url_decode, http_header_encode, http_header_decode,
}

abbrev pub IsByte : ℕ → Type 0
IsByte c = c < 256

from_hex-to_hex : (x : ℕ) (up : Bool) → x < 16 → from_hex (to_hex x up) ≡ x
unfolding from_hex to_hex
from_hex-to_hex x up h = ground (arith, h)

unescape-escape :
    (up : Bool) (c : ℕ) → IsByte c → unescape (to_hex (c / 16) up) (to_hex (c % 16) up) ≡ c
unfolding unescape
unescape-escape up c h = omega (
  arith,
  from_hex-to_hex (c / 16) up (omega (arith, h)),
  from_hex-to_hex (c % 16) up (omega arith),
  h,
)

-- A byte that is no escape and no space in disguise is decoded as it stands.
url_decode-plain :
    (c : ℕ) (cs : List ℕ)
    → (c == 43) ≡ false
    → (c == 37) ≡ false
    → url_decode (c ∷ cs) ≡ c ∷ url_decode cs
unfolding url_decode
url_decode-plain c [] p q = rw (p, q) refl
url_decode-plain c (a ∷ []) p q = rw (p, q) refl
url_decode-plain c (a ∷ b ∷ rest) p q = rw (p, q) refl

url_decode-space : (cs : List ℕ) → url_decode (43 ∷ cs) ≡ 32 ∷ url_decode cs
unfolding url_decode
url_decode-space [] = refl
url_decode-space (a ∷ []) = refl
url_decode-space (a ∷ b ∷ rest) = refl

url_decode-escape :
    (up : Bool) (c : ℕ) (cs : List ℕ)
    → IsByte c
    → url_decode (escape up c ++ cs) ≡ c ∷ url_decode cs
unfolding url_decode escape
url_decode-escape up c cs h = ap (λ x. x ∷ url_decode cs) (unescape-escape up c h)

url_decode-url_encode_byte :
    (up : Bool) (c : ℕ) (cs : List ℕ)
    → IsByte c
    → url_decode (url_encode_byte up c ++ cs) ≡ c ∷ url_decode cs
unfolding url_encode_byte
url_decode-url_encode_byte up c cs h = elim (Bool-cases (is_unreserved c)) [
  | inl e ↦ rw e (url_decode-plain c cs (ground (arith, e)) (ground (arith, e)))
  | inr e ↦ rw e (elim (Bool-cases (c == 32)) [
    | inl s ↦ rw s (url_decode-space cs ∙ ap (λ x. x ∷ url_decode cs) (ground (arith, s)))
    | inr s ↦ rw s (url_decode-escape up c cs h)
  ])
]

-- Every text of bytes is what its URL encoding, in either case of the digits, decodes to.
pub url_decode-url_encode :
    (up : Bool) (cs : List ℕ) → All IsByte cs → url_decode (url_encode up cs) ≡ cs
unfolding url_encode
url_decode-url_encode up [] h = unfold url_decode in refl
url_decode-url_encode up (c ∷ cs) (h, hs) =
    url_decode-url_encode_byte up c (url_encode up cs) h
    ∙ ap (λ xs. c ∷ xs) (url_decode-url_encode up cs hs)

header_decode-plain :
    (c : ℕ) (cs : List ℕ)
    → (c == 37) ≡ false
    → http_header_decode (c ∷ cs) ≡ c ∷ http_header_decode cs
unfolding http_header_decode
header_decode-plain c [] q = rw q refl
header_decode-plain c (a ∷ []) q = rw q refl
header_decode-plain c (a ∷ b ∷ rest) q = rw q refl

header_decode-escape :
    (up : Bool) (c : ℕ) (cs : List ℕ)
    → IsByte c
    → http_header_decode (escape up c ++ cs) ≡ c ∷ http_header_decode cs
unfolding http_header_decode escape
header_decode-escape up c cs h = ap (λ x. x ∷ http_header_decode cs) (unescape-escape up c h)

-- Every text of bytes is what its encoding for HTTP headers, in either case of the digits, decodes
-- to.
pub http_header_decode-http_header_encode :
    (up : Bool) (cs : List ℕ) → All IsByte cs → http_header_decode (http_header_encode up cs) ≡ cs
unfolding http_header_encode
http_header_decode-http_header_encode up [] h = unfold http_header_decode in refl
http_header_decode-http_header_encode up (c ∷ cs) (h, hs) =
    let rest = ap (λ xs. c ∷ xs) (http_header_decode-http_header_encode up cs hs) in
    elim (Bool-cases (is_alnum c || c == 45)) [
      | inl e ↦ rw e (header_decode-plain c (http_header_encode up cs) (ground (arith, e)) ∙ rest)
      | inr e ↦ rw e (header_decode-escape up c (http_header_encode up cs) h ∙ rest)
    ]

-- The bytes that an encoded text may hold.
abbrev pub IsUrlSafe : ℕ → Type 0
IsUrlSafe c = (is_unreserved c || (c == 43 || c == 37)) ≡ true

to_hex-IsUrlSafe : (x : ℕ) (up : Bool) → x < 16 → IsUrlSafe (to_hex x up)
unfolding to_hex
to_hex-IsUrlSafe x up h = ground (arith, h)

url_encode_byte-IsUrlSafe : (up : Bool) (c : ℕ) → IsByte c → All IsUrlSafe (url_encode_byte up c)
unfolding url_encode_byte escape
url_encode_byte-IsUrlSafe up c h = elim (Bool-cases (is_unreserved c)) [
  | inl e ↦ rw e (ground (arith, e), tt)
  | inr e ↦ rw e (elim (Bool-cases (c == 32)) [
    | inl s ↦ rw s (refl, tt)
    | inr s ↦ rw s (
      refl,
      (
        to_hex-IsUrlSafe (c / 16) up (omega (arith, h)),
        (to_hex-IsUrlSafe (c % 16) up (omega arith), tt),
      ),
    )
  ])
]

-- The encoding of a text of bytes holds letters, digits, `-`, `_`, `.`, `~`, `+` and `%` only.
pub url_encode-IsUrlSafe :
    (up : Bool) (cs : List ℕ) → All IsByte cs → All IsUrlSafe (url_encode up cs)
unfolding url_encode
url_encode-IsUrlSafe up [] h = tt
url_encode-IsUrlSafe up (c ∷ cs) (h, hs) =
    All-append IsUrlSafe (url_encode_byte up c) (url_encode up cs)
      (url_encode_byte-IsUrlSafe up c h) (url_encode-IsUrlSafe up cs hs)
