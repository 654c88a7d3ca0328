-- ===== src/Util/Strings/Truncation.antt =====
-- string_util.h: `SafeUtf8TruncationLength`.
use aim_rt.Prelude.{
  ℕ, zero, suc, ◌≤◌, ◌<◌, ◌≡◌, ◌⊎◌, inl, inr, refl, Bool, true, false, List, nat_eq, ◌==◌, bit_and,
  leb, if◌then◌else◌, length, get_or, arith, Bool-cases,
}

-- A byte that continues a character: the two high bits are 10.
unfoldable pub is_continuation : ℕ → Bool
is_continuation byte = bit_and byte 192 == 128

-- The loop, by its counter `truncate_pos`.
unfoldable pub step_back : List ℕ → ℕ → ℕ
step_back str zero = 0
step_back str (suc pos) =
    let rest = step_back str pos in
    if is_continuation (get_or str (suc pos) 0) then rest else suc pos

unfoldable pub safe_truncation_length : List ℕ → ℕ → ℕ → ℕ
safe_truncation_length str actual_length desired_length =
    if leb actual_length desired_length
    then actual_length
    else if is_continuation (get_or str desired_length 0)
    then step_back str desired_length
    else desired_length

-- No character is cut at `r`, and none is whole up to a later place that is not after `pos`.
abbrev pub IsLastStart : List ℕ → ℕ → ℕ → Type 0
IsLastStart str pos r =
    (r ≤ pos)
    × ((r ≡ 0) ⊎ (is_continuation (get_or str r 0) ≡ false))
    × ((i : ℕ) → r < i → i ≤ pos → is_continuation (get_or str i 0) ≡ true)

step_back-IsLastStart : (str : List ℕ) (pos : ℕ) → IsLastStart str pos (step_back str pos)
unfolding step_back
step_back-IsLastStart str zero = (omega arith, inl refl, λ i h k. absurd (omega (arith, h, k)))
step_back-IsLastStart str (suc pos) = elim (Bool-cases (is_continuation (get_or str (suc pos) 0))) [
  | inr e ↦ rw (step_back, e) (omega arith, inr e, λ i h k. absurd (omega (arith, h, k)))
  | inl e ↦
      let (low, start, none_between) = step_back-IsLastStart str pos in
      rw (step_back, e)
        (
          omega (arith, low),
          start,
          λ i h k. elim (Bool-cases (leb i pos)) [
            | inl f ↦ none_between i h (ground (arith, f))
            | inr f ↦ let same : i ≡ suc pos = ground (arith, f, k) in rw same e
          ],
        )
]

-- For a length within the text the result of `SafeUtf8TruncationLength` is not over the length of the
-- text nor over the one that is asked for. When all of the text is asked for the result is its length;
-- else it is the last place, not after the one asked for, that is 0 or at which no continuation byte
-- stands.
pub safe_truncation_length-IsLastStart :
    (str : List ℕ) (actual_length desired_length : ℕ)
    → actual_length ≤ length str
    → (safe_truncation_length str actual_length desired_length ≤ actual_length)
      × (safe_truncation_length str actual_length desired_length ≤ desired_length)
      × (actual_length ≤ desired_length
          → safe_truncation_length str actual_length desired_length ≡ actual_length)
      × (desired_length < actual_length
          → IsLastStart str desired_length
              (safe_truncation_length str actual_length desired_length))
unfolding safe_truncation_length
safe_truncation_length-IsLastStart str a d fits = elim (Bool-cases (leb a d)) [
  | inl e ↦
      let all : a ≤ d = ground (arith, e) in
      rw (safe_truncation_length, e)
        (omega arith, all, λ h. refl, λ h. absurd (omega (arith, h, all)))
  | inr e ↦
      let some_left : d < a = ground (arith, e) in
      elim (Bool-cases (is_continuation (get_or str d 0))) [
        | inl f ↦
            let found = step_back-IsLastStart str d in
            rw (safe_truncation_length, e, f)
              (
                omega (arith, found.0, some_left),
                found.0,
                λ h. absurd (omega (arith, h, some_left)),
                λ h. found,
              )
        | inr f ↦
            rw (safe_truncation_length, e, f)
              (
                omega (arith, some_left),
                omega arith,
                λ h. absurd (omega (arith, h, some_left)),
                λ h. (omega arith, inr f, λ i g k. absurd (omega (arith, g, k))),
              )
      ]
]
