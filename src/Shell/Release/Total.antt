-- ===== src/Shell/Release/Total.antt =====
-- The loop of pipeline_destroy ends, the asserts do not fail, and all of the pipeline is released.
use famaf_unc.Shell.Outcome.{Text, returned}
use famaf_unc.Shell.Command.{Scommand, Pipeline, pipeline_pop_front, pipeline_is_empty}
use famaf_unc.Shell.Release.{
  Freed, command_struct, pipeline_struct, link, text, free_text, free_texts, free_links,
  g_list_free_full, scommand_destroy, release_front, pop_all, pipeline_destroy, strmerge,
}
use famaf_unc.Base.{
  ℕ, zero, suc, ◌+◌, ◌-◌, ◌%◌, ◌^◌, ◌<◌, ◌≡◌, refl, arith, true, false, Bool, Option, none, some,
  List, [], ◌∷◌, if◌then◌else◌, ◌++◌, ◌==◌, length, length-append, ◌∙◌,
}

abbrev pub sized_pipeline : List Scommand → Bool → Pipeline
sized_pipeline cs wait = record { commands = cs; wait = wait; size = length cs }

-- How many elements of the list pass the test.
abbrev pub times : (Freed → Bool) → List Freed → ℕ
times f [] = 0
times f (x ∷ xs) = (if f x then 1 else 0) + times f xs

-- The blocks of memory of a text, of the list of the arguments, of a command in the list of a pipeline, and of a pipeline.
abbrev pub text_blocks : Option Text → List Freed
text_blocks none = []
text_blocks (some t) = text t ∷ []

abbrev pub list_blocks : List Text → List Freed
list_blocks [] = []
list_blocks (t ∷ ts) = link ∷ text t ∷ list_blocks ts

abbrev pub command_blocks : Scommand → List Freed
command_blocks c =
    link
    ∷ command_struct
    ∷ (list_blocks c.args ++ (text_blocks c.redir_in ++ text_blocks c.redir_out))

abbrev pub commands_blocks : List Scommand → List Freed
commands_blocks [] = []
commands_blocks (c ∷ cs) = command_blocks c ++ commands_blocks cs

abbrev pub pipeline_blocks : List Scommand → List Freed
pipeline_blocks cs = pipeline_struct ∷ commands_blocks cs

times-append :
    (f : Freed → Bool) (xs ys : List Freed) → times f (xs ++ ys) ≡ times f xs + times f ys
times-append f [] ys = omega arith
times-append f (x ∷ xs) ys = omega (arith, times-append f xs ys)

free_links-times :
    (f : Freed → Bool) (ts : List Text) (x : Freed) (xs : List Freed)
    → times f (free_links ts (x ∷ xs)) ≡ times f (x ∷ free_links ts xs)
free_links-times f [] x xs = refl
free_links-times f (t ∷ ts) x xs = omega (
  arith,
  free_links-times f ts link (x ∷ xs),
  free_links-times f ts x xs,
  free_links-times f ts link xs,
)

g_list_free_full-times :
    (f : Freed → Bool) (ts : List Text) (freed : List Freed)
    → times f (g_list_free_full ts freed) ≡ times f (list_blocks ts) + times f freed
g_list_free_full-times f [] freed = omega arith
g_list_free_full-times f (t ∷ ts) freed = omega (
  arith,
  free_links-times f ts link (free_texts ts (text t ∷ freed)),
  g_list_free_full-times f ts (text t ∷ freed),
)

free_text-times :
    (f : Freed → Bool) (t : Option Text) (freed : List Freed)
    → times f (free_text t freed) ≡ times f (text_blocks t) + times f freed
free_text-times f none freed = omega arith
free_text-times f (some t) freed = omega arith

-- The releases of scommand_destroy, and of the command's link after them.
scommand_destroy-times :
    (c : Scommand) (freed : List Freed)
    → (freed' : List Freed) × (scommand_destroy c freed ≡ returned (none, freed'))
      × ((f : Freed → Bool) → times f (link ∷ freed') ≡ times f (command_blocks c ++ freed))
unfolding scommand_destroy
scommand_destroy-times c freed = (
  _,
  refl,
  λ f.
      let listed = g_list_free_full-times f c.args freed in
      let read = free_text-times f c.redir_in (g_list_free_full c.args freed) in
      let written =
        free_text-times f c.redir_out (free_text c.redir_in (g_list_free_full c.args freed)) in
      let names = times-append f (text_blocks c.redir_in) (text_blocks c.redir_out) in
      let all =
        times-append f (list_blocks c.args) (text_blocks c.redir_in ++ text_blocks c.redir_out) in
      omega (arith, times-append f (command_blocks c) freed, all, names, written, read, listed),
)

release_front-sized_pipeline :
    (c : Scommand) (cs : List Scommand) (wait : Bool) (freed freed' : List Freed)
    → suc (length cs) < 2 ^ 32
    → scommand_destroy c freed ≡ returned (none, freed')
    → release_front (sized_pipeline (c ∷ cs) wait) freed
      ≡ returned (sized_pipeline cs wait, link ∷ freed')
unfolding release_front pipeline_pop_front pipeline_is_empty
release_front-sized_pipeline c cs wait freed freed' h run =
    let filled : (suc (length cs) == 0) ≡ false = ground arith in
    let less : (suc (length cs) + 2 ^ 32 - 1) % 2 ^ 32 ≡ length cs = omega arith in
    rw (filled, less, run) refl

pop_all-sized_pipeline :
    (fuel : ℕ) (cs : List Scommand) (wait : Bool) (freed : List Freed)
    → length cs < fuel
    → length cs < 2 ^ 32
    → (freed' : List Freed) × (pop_all fuel (sized_pipeline cs wait) freed
        ≡ returned (sized_pipeline [] wait, freed'))
      × ((f : Freed → Bool) → times f freed' ≡ times f (commands_blocks cs ++ freed))
unfolding pop_all
pop_all-sized_pipeline zero cs wait freed l h = absurd (omega arith)
pop_all-sized_pipeline (suc fuel) [] wait freed l h = (freed, refl, λ f. refl)
pop_all-sized_pipeline (suc fuel) (c ∷ cs) wait freed l h =
    let filled : (suc (length cs) == 0) ≡ false = ground arith in
    let (gone, destroyed, first) = scommand_destroy-times c freed in
    let (freed', rest, others) =
      pop_all-sized_pipeline fuel cs wait (link ∷ gone) (omega arith) (omega arith) in
    (
      freed',
      rw (filled, release_front-sized_pipeline c cs wait freed gone h destroyed) rest,
      λ f.
          let front = times-append f (command_blocks c) freed in
          let behind = times-append f (commands_blocks cs) (link ∷ gone) in
          let both = times-append f (command_blocks c) (commands_blocks cs) in
          let whole = times-append f (commands_blocks (c ∷ cs)) freed in
          others f ∙ omega (arith, behind, first f, front, both, whole),
    )

-- On a pipeline of fewer than 2 ^ 32 commands whose size is their number, and with more fuel than commands,
-- pipeline_destroy ends without a failed assert, its result is NULL, and it releases each block of memory of
-- the pipeline once, and no other: its struct and, for each command, its link in the list, its struct, its
-- two names of files where they are not NULL, and each argument with its link.
pub pipeline_destroy-sized_pipeline :
    (fuel : ℕ) (cs : List Scommand) (wait : Bool)
    → length cs < fuel
    → length cs < 2 ^ 32
    → (freed : List Freed) × (pipeline_destroy fuel (sized_pipeline cs wait)
        ≡ returned (none, freed))
      × ((f : Freed → Bool) → times f freed ≡ times f (pipeline_blocks cs))
unfolding pipeline_destroy
pipeline_destroy-sized_pipeline fuel cs wait l h =
    let (freed, run, same) = pop_all-sized_pipeline fuel cs wait [] l h in
    (
      pipeline_struct ∷ freed,
      rw run refl,
      λ f. let e = times-append f (commands_blocks cs) [] in omega (arith, same f, e),
    )

-- strmerge never aborts, and its result is the one text before the other.
strmerge-append : (s1 s2 : Text) → strmerge s1 s2 ≡ returned (s1 ++ s2)
unfolding strmerge
strmerge-append s1 s2 =
    let sum : (length (s1 ++ s2) == length s1 + length s2) ≡ true =
      ground (arith, length-append s1 s2) in
    rw sum refl
