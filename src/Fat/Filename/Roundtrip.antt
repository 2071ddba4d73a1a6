-- ===== src/Fat/Filename/Roundtrip.antt =====
-- A file's name survives the way to disk and back.
use famaf_unc.Fat.Util.{get_or}
use famaf_unc.Fat.Filename.{
  padded, filename_len, split_last_dot, build_filename, dot, filename_from_path, get_or, space,
}
use famaf_unc.Base.{
  ℕ, zero, suc, ◌<◌, ◌≤◌, ◌≡◌, refl, ap, false, some, none, List, [], ◌∷◌, ◌++◌, arith, length,
  ◌==◌, Bool-cases, inl, inr, take, All,
}

-- No dot, space or zero.
abbrev pub IsPlain : List ℕ → Type 0
IsPlain = All (λ c. ((c == dot) ≡ false) × ((c == space) ≡ false) × ((c == 0) ≡ false))

split_last_dot-plain : (cs : List ℕ) → IsPlain cs → split_last_dot cs ≡ none
unfolding split_last_dot
split_last_dot-plain [] h = refl
split_last_dot-plain (c ∷ cs) h = rw (split_last_dot-plain cs h.1, h.0.0) refl

split_last_dot-append :
    (name extension : List ℕ)
    → IsPlain extension
    → split_last_dot (name ++ (dot ∷ extension)) ≡ some (name, extension)
unfolding split_last_dot
split_last_dot-append [] extension h = rw (split_last_dot-plain extension h) refl
split_last_dot-append (c ∷ cs) extension h = rw (split_last_dot-append cs extension h) refl

get_or-padded_blank : (n i x : ℕ) → i < n → get_or (padded n []) i x ≡ space
unfolding padded
get_or-padded_blank zero i x h = elim h [ ]
get_or-padded_blank (suc n) zero x h = refl
get_or-padded_blank (suc n) (suc i) x h = get_or-padded_blank n i x (omega arith)

get_or-padded_beyond :
    (n i x : ℕ) (cs : List ℕ) → i < n → length cs ≤ i → get_or (padded n cs) i x ≡ space
unfolding padded
get_or-padded_beyond n i x [] h l = get_or-padded_blank n i x h
get_or-padded_beyond zero i x (c ∷ cs) h l = elim h [ ]
get_or-padded_beyond (suc n) zero x (c ∷ cs) h l = absurd (omega arith)
get_or-padded_beyond (suc n) (suc i) x (c ∷ cs) h l =
    get_or-padded_beyond n i x cs (omega arith) (omega arith)

get_or-padded_inside :
    (n i x : ℕ) (cs : List ℕ)
    → IsPlain cs
    → i < n
    → i < length cs
    → ((get_or (padded n cs) i x == space) ≡ false) × ((get_or (padded n cs) i x == 0) ≡ false)
unfolding padded
get_or-padded_inside n i x [] p h l = elim l [ ]
get_or-padded_inside zero i x (c ∷ cs) p h l = elim h [ ]
get_or-padded_inside (suc n) zero x (c ∷ cs) p h l = (p.0.1, p.0.2)
get_or-padded_inside (suc n) (suc i) x (c ∷ cs) p h l =
    get_or-padded_inside n i x cs p.1 (omega arith) (omega arith)

-- The length of a padded name is that of the name.
filename_len-padded :
    (n m : ℕ) (cs : List ℕ)
    → IsPlain cs
    → length cs ≤ m
    → m ≤ n
    → filename_len (padded n cs) m ≡ length cs
unfolding filename_len
filename_len-padded n zero cs p l h = omega arith
filename_len-padded n (suc m) cs p l h = elim (Bool-cases (length cs == suc m)) [
  | inl e ↦
      let (a, b) = get_or-padded_inside n m 0 cs p (omega arith) (ground arith) in
      rw (a, b) (ground arith)
  | inr e ↦
      rw (get_or-padded_beyond n m 0 cs (omega arith) (ground arith))
        (filename_len-padded n m cs p (ground arith) (omega arith))
]

take-padded : (n : ℕ) (cs : List ℕ) → length cs ≤ n → take (length cs) (padded n cs) ≡ cs
unfolding padded
take-padded n [] h = refl
take-padded zero (c ∷ cs) h = absurd (omega arith)
take-padded (suc n) (c ∷ cs) h = ap (λ z. c ∷ z) (take-padded n cs (omega arith))

filename_from_path-dotted :
    (name extension : List ℕ)
    → IsPlain extension
    → filename_from_path (name ++ (dot ∷ extension)) ≡ (padded 8 name, padded 3 extension)
unfolding filename_from_path
filename_from_path-dotted name extension q =
    rw (split_last_dot-append name extension q, filename_from_path) refl

-- A name of one to eight bytes with an extension of one to three, none of them a dot, space or zero,
-- is read back from its two fields as it was written.
pub build_filename-from_path :
    (name extension : List ℕ)
    → IsPlain name
    → IsPlain extension
    → 0 < length name
    → length name ≤ 8
    → 0 < length extension
    → length extension ≤ 3
    → build_filename
        (filename_from_path (name ++ (dot ∷ extension))).0
        (filename_from_path (name ++ (dot ∷ extension))).1
      ≡ name ++ (dot ∷ extension)
unfolding build_filename
build_filename-from_path name extension p q h l h' l' =
    let named : (length name == 0) ≡ false = ground arith in
    let extended : (length extension == 0) ≡ false = ground arith in
    let base = filename_len-padded 8 8 name p l (omega arith) in
    let ext = filename_len-padded 3 3 extension q l' (omega arith) in
    rw (filename_from_path-dotted name extension q)
      (simp (base, ext, named, extended, take-padded 8 name l, take-padded 3 extension l') refl)
