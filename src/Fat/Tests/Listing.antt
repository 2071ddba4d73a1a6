-- ===== src/Fat/Tests/Listing.antt =====
-- The listing of the root of a tree in memory.
use famaf_unc.Fat.Fuse.{ok, pos}
use famaf_unc.Fat.Fuse.Handles.{readdir}
use famaf_unc.Fat.Fuse.Listed.{collect, shown, readdir-shown}
use famaf_unc.Fat.Tests.{volume, file}
use famaf_unc.Fat.Tests.Operations.{system, mounted, root-HasFile, dir_root-dir}
use famaf_unc.Base.{if◌then◌else◌, ◌==◌, ◌≡◌, refl, [], ◌∷◌, arith}

-- The names that are shown are those of the children but "bb".
shown_bb :
    shown
      (λ p. record file { name = if p == 1 then b'b' ∷ b'b' ∷ [] else b'a' ∷ [] })
      (0 ∷ 1 ∷ 2 ∷ [])
    ≡ (b'a' ∷ []) ∷ (b'a' ∷ []) ∷ []
unfolding shown
shown_bb = refl

readdir-shown_example :
    readdir system collect 5 [] (mounted volume file)
    ≡ ok
        (pos 0, (b'.' ∷ []) ∷ (b'.' ∷ b'.' ∷ []) ∷ shown (mounted volume file).files (20 ∷ []))
        (mounted volume file)
readdir-shown_example =
    readdir-shown system (mounted volume file) 5 10 (20 ∷ []) root-HasFile (omega arith)
      dir_root-dir refl (omega arith, refl, refl, refl) (omega arith, tt) (omega arith)
      (omega arith)
