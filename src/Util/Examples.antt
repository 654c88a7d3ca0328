-- ===== src/Util/Examples.antt =====
-- URL encoding of "a b" and one byte above 127.
use aim_rt.Prelude.{ℕ, ◌≡◌, refl, true, List, [], ◌∷◌, All, arith}
use aim_rt.Util.UrlEncode.{url_encode, url_decode}
use aim_rt.Util.UrlEncode.RoundTrip.{IsByte, url_decode-url_encode}

abbrev demo_text : List ℕ
demo_text = 97 ∷ 32 ∷ 98 ∷ 228 ∷ []

demo_text-IsByte : All IsByte demo_text
demo_text-IsByte = (omega arith, (omega arith, (omega arith, (omega arith, tt))))

demo_encodes : url_encode true demo_text ≡ 97 ∷ 43 ∷ 98 ∷ 37 ∷ 69 ∷ 52 ∷ []
unfolding url_encode
demo_encodes = refl

url_decode-url_encode_example : url_decode (url_encode true demo_text) ≡ demo_text
url_decode-url_encode_example = url_decode-url_encode true demo_text demo_text-IsByte
