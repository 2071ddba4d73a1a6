-- ===== src/Fat/Paths/Spaces.antt =====
-- What is_log_filepath, is_log_dirpath and remove_trailing_spaces do to a text.
use famaf_unc.Fat.Paths.{is_log_filepath, remove_trailing_spaces, unless_space}
use famaf_unc.Fat.Filename.{space}
use famaf_unc.Base.{
  ℕ, suc, ◌≡◌, refl, ap, ◌∙◌, arith, true, List, [], ◌∷◌, ◌++◌, ◌==◌, replicate, Bool-cases, inl,
  inr,
}

-- "/bb/fs.l"
abbrev pub log_prefix : List ℕ
log_prefix = b'/' ∷ b'b' ∷ b'b' ∷ b'/' ∷ b'f' ∷ b's' ∷ b'.' ∷ b'l' ∷ []

-- Every path that begins with "/bb/fs.l" is taken for that of the log file.
is_log_filepath-log_prefix : (rest : List ℕ) → is_log_filepath (log_prefix ++ rest) ≡ true
unfolding is_log_filepath
is_log_filepath-log_prefix rest = refl

unless_space-spaces :
    (c n : ℕ) (cs : List ℕ)
    → (m : ℕ) × (unless_space c cs ++ replicate m space ≡ c ∷ (cs ++ replicate n space))
unfolding unless_space
unless_space-spaces c n (d ∷ ds) = (n, refl)
unless_space-spaces c n [] = elim (Bool-cases (c == space)) [
  | inl e ↦ let q : space ≡ c = ground arith in (suc n, rw e (ap (λ x. x ∷ replicate n space) q))
  | inr e ↦ (n, rw e refl)
]

-- What remove_trailing_spaces takes away are spaces at the end.
remove_trailing_spaces-replicate :
    (cs : List ℕ) → (n : ℕ) × (remove_trailing_spaces cs ++ replicate n space ≡ cs)
unfolding remove_trailing_spaces
remove_trailing_spaces-replicate [] = (0, refl)
remove_trailing_spaces-replicate (c ∷ cs) =
    let (n, e) = remove_trailing_spaces-replicate cs in
    let (m, f) = unless_space-spaces c n (remove_trailing_spaces cs) in (m, f ∙ ap (λ xs. c ∷ xs) e)
