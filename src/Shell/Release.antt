-- ===== src/Shell/Release.antt =====
-- The ends of commands and pipelines in command.c, and strmerge of strextra.c.
pub mod Total
use famaf_unc.Shell.Outcome.{Text, Outcome, returned, aborted, out_of_fuel, ◌>>=◌, assert}
use famaf_unc.Shell.Command.{Scommand, Pipeline, pipeline_pop_front, front_of, is_null}
use famaf_unc.Base.{
  ℕ, zero, suc, ◌+◌, ◌++◌, ◌==◌, length, if◌then◌else◌, Option, none, some, List, [], ◌∷◌,
}

-- What free and the functions of GLib that release memory are given: the structs, the links of the lists, and the
-- texts.
pub data Freed : Type 0 where
  command_struct pipeline_struct link : Freed
  text : Text → Freed

-- free(NULL) does nothing.
abbrev pub free_text : Option Text → List Freed → List Freed
free_text none freed = freed
free_text (some t) freed = text t ∷ freed

abbrev pub free_texts : List Text → List Freed → List Freed
free_texts [] freed = freed
free_texts (t ∷ ts) freed = free_texts ts (text t ∷ freed)

abbrev pub free_links : List Text → List Freed → List Freed
free_links [] freed = freed
free_links (t ∷ ts) freed = free_links ts (link ∷ freed)

-- g_list_free_full with free: the elements, and then the links.
abbrev pub g_list_free_full : List Text → List Freed → List Freed
g_list_free_full ts freed = free_links ts (free_texts ts freed)

-- `freed` holds the releases so far, the last one first. The result is `self`, which is NULL in the end.
unfoldable pub scommand_destroy : Scommand → List Freed → Outcome (Option Scommand × List Freed)
scommand_destroy self freed =
    let emptied =
      command_struct
      ∷ free_text self.redir_out (free_text self.redir_in (g_list_free_full self.args freed)) in
    let self' : Option Scommand = none in assert (is_null self') (self', emptied)

-- pipeline_pop_front with what it releases: the first command, and its link in the list.
unfoldable pub release_front : Pipeline → List Freed → Outcome (Pipeline × List Freed)
release_front self freed = pipeline_pop_front self >>= λ rest. front_of self.commands >>= λ front.
    scommand_destroy front freed >>= λ r. returned (rest, link ∷ r.1)

-- The loop of pipeline_destroy.
unfoldable pub pop_all : (fuel : ℕ) → Pipeline → List Freed → Outcome (Pipeline × List Freed)
pop_all zero self freed = out_of_fuel
pop_all (suc fuel) self freed =
    if self.size == 0
    then returned (self, freed)
    else (release_front self freed >>= λ r. pop_all fuel r.0 r.1)

unfoldable pub pipeline_destroy : (fuel : ℕ) → Pipeline → Outcome (Option Pipeline × List Freed)
pipeline_destroy fuel self = pop_all fuel self [] >>= λ r.
    let self' : Option Pipeline = none in assert (is_null self') (self', pipeline_struct ∷ r.1)

unfoldable pub strmerge : Text → Text → Outcome Text
strmerge s1 s2 = let merge = s1 ++ s2 in assert (length merge == length s1 + length s2) merge
