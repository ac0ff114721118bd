-- ===== src/Wildcard.antt =====
-- include/wildcard.h: the backtracking filename glob of `dir`. A C string is the list of its bytes,
-- none of them the NUL, and the empty list is a pointer to the NUL.
pub mod Reference
pub mod Partial
pub mod Correct
use fdc_sds_pio.Prelude.{
  Bool, Bytes, Option, [], false, if◌then◌else◌, leb, length, none, some, suc, true, zero, ℕ, ◌&&◌,
  ◌*◌, ◌+◌, ◌==◌, ◌||◌, ◌∷◌,
}

unfoldable pub tolower : ℕ → ℕ
tolower c = if leb b'A' c && leb c b'Z' then c + 32 else c

-- `while (*pat == '*') ++pat; return *pat == '\0';`
unfoldable pub only_stars : Bytes → Bool
only_stars [] = true
only_stars (a ∷ pat) = a == b'*' && only_stars pat

-- `*pat == '?' || tolower(*pat) == tolower(*str)`
unfoldable pub same_char : ℕ → ℕ → Bool
unfolding tolower
same_char a c = a == b'?' || tolower a == tolower c

-- The loop; `star` holds the resume point in the pattern and in the string. `none` means that the
-- fuel ran out.
unfoldable pub match_loop : ℕ → Bytes → Bytes → Option (Bytes × Bytes) → Option Bool
unfolding only_stars same_char
match_loop zero pat str star = none
match_loop (suc f) pat [] star = some (only_stars pat)
match_loop (suc f) [] (c ∷ str) none = some false
match_loop (suc f) [] (c ∷ str) (some (p, [])) = none
match_loop (suc f) [] (c ∷ str) (some (p, x ∷ ss)) = match_loop f p ss (some (p, ss))
match_loop (suc f) (a ∷ pat) (c ∷ str) none =
    let next = match_loop f pat str none in
    let mark = match_loop f pat (c ∷ str) (some (pat, c ∷ str)) in
    if same_char a c then next else if a == b'*' then mark else some false
match_loop (suc f) (a ∷ pat) (c ∷ str) (some (p, [])) = none
match_loop (suc f) (a ∷ pat) (c ∷ str) (some (p, x ∷ ss)) =
    let next = match_loop f pat str (some (p, x ∷ ss)) in
    let mark = match_loop f pat (c ∷ str) (some (pat, c ∷ str)) in
    let back = match_loop f p ss (some (p, ss)) in
    if same_char a c then next else if a == b'*' then mark else back

unfoldable pub wildcard_match_ci : Bytes → Bytes → Option Bool
unfolding match_loop
wildcard_match_ci pat str = match_loop ((length str + 2) * (length pat + 1)) pat str none
