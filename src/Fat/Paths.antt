-- ===== src/Fat/Paths.antt =====
-- The tests of big_brother.c on a path, and remove_trailing_spaces of fat_util.c.
pub mod Spaces
use famaf_unc.Fat.Filename.{space}
use famaf_unc.Base.{ℕ, zero, suc, Bool, true, false, ◌&&◌, List, [], ◌∷◌, ◌==◌, if◌then◌else◌}

-- strncmp(a, b, n) == 0
abbrev pub equal_up_to : ℕ → List ℕ → List ℕ → Bool
equal_up_to zero cs ds = true
equal_up_to (suc n) [] [] = true
equal_up_to (suc n) [] (d ∷ ds) = false
equal_up_to (suc n) (c ∷ cs) [] = false
equal_up_to (suc n) (c ∷ cs) (d ∷ ds) = c == d && equal_up_to n cs ds

-- BB_DIRNAME, "/bb", and BB_LOG_FILE, "/bb/fs.log".
abbrev pub bb_dirname : List ℕ
bb_dirname = b'/' ∷ b'b' ∷ b'b' ∷ []

abbrev pub bb_log_file : List ℕ
bb_log_file = b'/' ∷ b'b' ∷ b'b' ∷ b'/' ∷ b'f' ∷ b's' ∷ b'.' ∷ b'l' ∷ b'o' ∷ b'g' ∷ []

unfoldable pub is_log_filepath : List ℕ → Bool
is_log_filepath filepath = equal_up_to 8 bb_log_file filepath

unfoldable pub is_log_dirpath : List ℕ → Bool
is_log_dirpath filepath = equal_up_to 15 bb_dirname filepath

-- `c` before a text whose spaces at the end are gone.
unfoldable pub unless_space : ℕ → List ℕ → List ℕ
unless_space c [] = if c == space then [] else c ∷ []
unless_space c (d ∷ ds) = c ∷ d ∷ ds

unfoldable pub remove_trailing_spaces : List ℕ → List ℕ
unfolding unless_space
remove_trailing_spaces [] = []
remove_trailing_spaces (c ∷ cs) = unless_space c (remove_trailing_spaces cs)
