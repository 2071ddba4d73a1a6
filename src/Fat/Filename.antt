-- ===== src/Fat/Filename.antt =====
-- fat_filename_util.c: names of eight and three bytes on disk, and as text. A text is a list of bytes
-- without its final zero.
pub mod Roundtrip
use famaf_unc.Base.{
  ℕ, zero, suc, ◌+◌, ◌-◌, Bool, true, false, not, ◌||◌, ◌&&◌, List, [], ◌∷◌, ◌++◌, Option, none,
  some, ltb, leb, ◌==◌, if◌then◌else◌, length, take, replicate,
}
use famaf_unc.Fat.Util.{get_or}

abbrev pub space : ℕ
space = 0x20

abbrev pub dot : ℕ
dot = 0x2e

abbrev pub slash : ℕ
slash = 0x2f

abbrev pub between : ℕ → ℕ → ℕ → Bool
between lo hi c = leb lo c && leb c hi

abbrev pub one_of : ℕ → List ℕ → Bool
one_of c [] = false
one_of c (d ∷ ds) = c == d || one_of c ds

-- _fat_char_tab: letters, digits, bytes from 128 on, and $%-_@~`!(){}^#& with the space.
unfoldable pub char_legal_in_filename : ℕ → Bool
char_legal_in_filename c =
    between b'a' b'z' c
    || (between b'A' b'Z' c
        || (between b'0' b'9' c
            || (between 128 255 c
                || one_of c (
                    space ∷ b'$' ∷ b'%' ∷ b'-' ∷ b'_' ∷ b'@' ∷ b'~' ∷ b'`' ∷ b'!' ∷ b'(' ∷ b')'
                    ∷ b'{' ∷ b'}' ∷ b'^' ∷ b'#' ∷ b'&' ∷ []))))

-- Up to the end, a zero or a space, every byte is legal.
unfoldable pub legal_prefix : List ℕ → Bool
legal_prefix [] = true
legal_prefix (c ∷ cs) =
    if c == 0 || c == space then true else char_legal_in_filename c && legal_prefix cs

unfoldable pub file_basename_valid : List ℕ → Bool
file_basename_valid [] = false
file_basename_valid (c ∷ cs) =
    if c == 0 || (c == space || c == 0xe5)
    then false
    else char_legal_in_filename c && legal_prefix cs

unfoldable pub file_extension_valid : List ℕ → Bool
file_extension_valid cs = legal_prefix cs

-- The length without the spaces and zeros at the end, among the first `max_len` bytes.
unfoldable pub filename_len : List ℕ → ℕ → ℕ
filename_len name zero = 0
filename_len name (suc n) =
    if not (get_or name n 0 == space) && not (get_or name n 0 == 0)
    then suc n
    else filename_len name n

unfoldable pub build_filename : List ℕ → List ℕ → List ℕ
build_filename base extension =
    let name_len = filename_len base 8 in
    let extension_len = filename_len extension 3 in
    if name_len == 0
    then slash ∷ []
    else take name_len base
      ++ (if extension_len == 0 then [] else dot ∷ take extension_len extension)

-- strrchr: the parts before and behind the last dot.
unfoldable pub split_last_dot : List ℕ → Option (List ℕ × List ℕ)
split_last_dot [] = none
split_last_dot (c ∷ cs) = elim (split_last_dot cs) [
  | some (name, extension) ↦ some (c ∷ name, extension)
  | none ↦ if c == dot then some ([], cs) else none
]

-- At most `n` bytes, in a field of `n` bytes that was filled with spaces.
unfoldable pub padded : ℕ → List ℕ → List ℕ
padded zero cs = []
padded (suc n) [] = space ∷ padded n []
padded (suc n) (c ∷ cs) = c ∷ padded n cs

unfoldable pub filename_from_path : List ℕ → List ℕ × List ℕ
filename_from_path src = elim (split_last_dot src) [
  | some (name, extension) ↦ (padded 8 name, padded 3 extension)
  | none ↦ (padded 8 src, padded 3 [])
]

-- The last byte of a path; of an empty one the byte before its text, which is taken to be no slash.
abbrev pub last_byte : List ℕ → ℕ
last_byte [] = 0
last_byte (c ∷ []) = c
last_byte (c ∷ d ∷ cs) = last_byte (d ∷ cs)

unfoldable pub filepath_from_name : List ℕ → List ℕ → List ℕ
filepath_from_name parent name =
    if last_byte parent == slash then parent ++ name else parent ++ (slash ∷ name)
