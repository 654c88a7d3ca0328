-- ===== src/Util/UrlEncode.antt =====
-- src/common/util/url_encode.h. Texts are lists of bytes, which are the numbers below 256;
-- `std::isalnum` is that of the C locale. In `url_decode` the two digits of an escape are there
-- exactly when two more bytes follow the `%`.
pub mod RoundTrip
use aim_rt.Prelude.{
  ℕ, ◌+◌, ◌-◌, ◌*◌, ◌/◌, ◌%◌, Bool, true, false, ◌&&◌, ◌||◌, List, [], ◌∷◌, ◌++◌, leb, ltb,
  if◌then◌else◌, nat_eq, ◌==◌,
}

abbrev pub between : ℕ → ℕ → ℕ → Bool
between lo hi c = leb lo c && leb c hi

abbrev pub is_alnum : ℕ → Bool
is_alnum c = between 48 57 c || (between 65 90 c || between 97 122 c)

unfoldable pub to_hex : ℕ → Bool → ℕ
to_hex x up = if ltb 9 x then x + (if up then 65 else 97) - 10 else x + 48

unfoldable pub from_hex : ℕ → ℕ
from_hex x =
    if between 48 57 x
    then x - 48
    else if between 65 70 x
    then x - 65 + 10
    else if between 97 102 x
    then x - 97 + 10
    else 0

-- `-`, `_`, `.` and `~` stand for themselves.
abbrev pub is_unreserved : ℕ → Bool
is_unreserved c = is_alnum c || (c == 45 || (c == 95 || (c == 46 || c == 126)))

-- `%` and two digits.
unfoldable pub escape : Bool → ℕ → List ℕ
unfolding to_hex
escape up c = 37 ∷ to_hex (c / 16) up ∷ to_hex (c % 16) up ∷ []

unfoldable pub url_encode_byte : Bool → ℕ → List ℕ
unfolding escape
url_encode_byte up c = if is_unreserved c then c ∷ [] else if c == 32 then 43 ∷ [] else escape up c

unfoldable pub url_encode : Bool → List ℕ → List ℕ
unfolding url_encode_byte
url_encode up [] = []
url_encode up (c ∷ cs) = url_encode_byte up c ++ url_encode up cs

-- `(FromHex(a) << 4) | FromHex(b)`: the digits are below 16.
unfoldable pub unescape : ℕ → ℕ → ℕ
unfolding from_hex
unescape a b = from_hex a * 16 + from_hex b

unfoldable pub url_decode : List ℕ → List ℕ
unfolding unescape
url_decode [] = []
url_decode (c ∷ []) = if c == 43 then 32 ∷ [] else if c == 37 then [] else c ∷ []
url_decode (c ∷ a ∷ []) =
    let next = url_decode (a ∷ []) in
    if c == 43 then 32 ∷ next else if c == 37 then [] else c ∷ next
url_decode (c ∷ a ∷ b ∷ rest) =
    let next = url_decode (a ∷ b ∷ rest) in
    let after = url_decode rest in
    if c == 43 then 32 ∷ next else if c == 37 then unescape a b ∷ after else c ∷ next

unfoldable pub http_header_encode : Bool → List ℕ → List ℕ
unfolding escape
http_header_encode up [] = []
http_header_encode up (c ∷ cs) =
    (if is_alnum c || c == 45 then c ∷ [] else escape up c) ++ http_header_encode up cs

unfoldable pub http_header_decode : List ℕ → List ℕ
unfolding unescape
http_header_decode [] = []
http_header_decode (c ∷ []) = if c == 37 then [] else c ∷ []
http_header_decode (c ∷ a ∷ []) =
    let next = http_header_decode (a ∷ []) in if c == 37 then [] else c ∷ next
http_header_decode (c ∷ a ∷ b ∷ rest) =
    let next = http_header_decode (a ∷ b ∷ rest) in
    let after = http_header_decode rest in if c == 37 then unescape a b ∷ after else c ∷ next
