-- ===== src/Fat/Directory/Full.antt =====
-- fat_file_init on a volume without a free cluster.
use famaf_unc.Fat.Table.Alloc.{
  free_cluster_cases, get_next_free_cluster-full, get_next_free_cluster-least,
}
use famaf_unc.Fat.Table.{
  entry, cluster_free, is_valid_cluster_number, end_of_chain_max, end_unless_valid, is_cluster_used,
}
use famaf_unc.Fat.Directory.{file_init, is_valid_cluster_number, end_of_chain_max, is_cluster_used}
use famaf_unc.Base.{
  ℕ, ◌≤◌, ◌≡◌, refl, false, none, some, List, arith, length, Option-cases, inl, inr, Bool,
  get_elem?, lt_of_get_elem?, ◌∙◌, ap,
}
use famaf_unc.Fat.Device.{Device, FatTable, Volume, fault}

get_elem?-beyond : (xs : List ℕ) (i : ℕ) → length xs ≤ i → get_elem? xs i ≡ none
get_elem?-beyond xs i h = elim (Option-cases (get_elem? xs i)) [
  | inl e ↦ e
  | inr (x, e) ↦ absurd (omega (arith, lt_of_get_elem? xs i e))
]

end_unless_valid-not :
    (t : FatTable) (c : ℕ)
    → is_valid_cluster_number t c ≡ false
    → end_unless_valid t c ≡ end_of_chain_max
unfolding end_unless_valid
end_unless_valid-not t c h = ground (arith, h)

is_cluster_used-beyond :
    (t : FatTable) → length t.fat_map ≤ end_of_chain_max → is_cluster_used t end_of_chain_max ≡ none
unfolding is_cluster_used
is_cluster_used-beyond t h = rw (get_elem?-beyond t.fat_map end_of_chain_max h) refl

-- If no entry that stands for a data cluster is free, and the map has at most as many entries as the
-- end mark is great, fat_file_init does not report ENOSPC: it reads outside the map, either in the
-- search or in the test that should find out that the search failed.
pub file_init-full :
    {D : Type 0} (dev : Device D) (is_dir : Bool) (filepath : List ℕ) (v : Volume D)
    → ((j : ℕ)
        → 2 ≤ j
        → entry v.table j ≡ some cluster_free
        → is_valid_cluster_number v.table j ≡ false)
    → length v.table.fat_map ≤ end_of_chain_max
    → file_init dev is_dir filepath v ≡ fault
unfolding file_init
file_init-full dev is_dir filepath v full short = elim (free_cluster_cases v.table) [
  | inl none_free ↦ rw (get_next_free_cluster-full v.table none_free) refl
  | inr (j, two, e) ↦
      let (c, least, _, search) = get_next_free_cluster-least v.table j two e in
      let at_end =
        search
        ∙ ap (λ n. some n) (end_unless_valid-not v.table c (full c least.above least.free)) in
      simp (at_end, is_cluster_used-beyond v.table short) refl
]
