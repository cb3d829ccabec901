-- ===== src/Versions/Directory.antt =====
-- The directory of the versions: its order, and what the removal of old versions leaves.
use sgsu.Prelude.{
  ℕ, zero, suc, ◌-◌, ◌≤◌, Bool, true, false, not, ◌&&◌, String, List, [], ◌∷◌, ◌++◌, str_eq, leb,
  length, take, drop, keep, All, ◌≡◌, ◌≢◌, refl, arith, ap, ◌∙◌, subst, Bool-cases, inl, inr,
  eq_iff, eq_refl,
}
use sgsu.Prelude.Format.{before_codes, insert_text, sort_texts}
use sgsu.Prelude.Text.{codes}
use sgsu.Prelude.TextOrder.{precedes, precedes_irrefl, precedes_trans, precedes_total}
use sgsu.Versions.{names, put_file, remove_file, remove_files, prune_versions, max_config_versions}

abbrev Follow : {A : Type 0} → String → List (String × A) → Type 0
Follow n d = All (λ e. precedes n e.0 ≡ true) d

-- Every name comes before those that stand after it.
abbrev pub IsAscending : {A : Type 0} → List (String × A) → Type 0
IsAscending [] = Unit
IsAscending ((n, _) ∷ d) = Follow n d × IsAscending d

-- The last entries, as many as versions are kept
abbrev pub last_versions {ℓ} : {A : Type ℓ} → List A → List A
last_versions d = drop (length d - max_config_versions) d

module _ {A : Type 0} where
  Follow-trans :
      (m n : String) (d : List (String × A)) → precedes m n ≡ true → Follow n d → Follow m d
  Follow-trans m n [] h f = tt
  Follow-trans m n ((k, g) ∷ d) h (b, f) = (precedes_trans m n k h b, Follow-trans m n d h f)

  put_file-Follow :
      (m n : String) (f : A) (d : List (String × A))
      → precedes m n ≡ true
      → Follow m d
      → Follow m (put_file n f d)
  unfolding put_file
  put_file-Follow m n f [] h o = (h, tt)
  put_file-Follow m n f ((k, g) ∷ d) h (b, o) = elim (Bool-cases (str_eq k n)) [
    | inl same ↦ rw same (h, o)
    | inr other ↦ elim (Bool-cases (precedes k n)) [
      | inl later ↦ rw (other, later) (b, put_file-Follow m n f d h o)
      | inr first ↦ rw (other, first) (h, (b, o))
    ]
  ]

  pub put_file-IsAscending :
      (n : String) (f : A) (d : List (String × A)) → IsAscending d → IsAscending (put_file n f d)
  unfolding put_file
  put_file-IsAscending n f [] o = (tt, tt)
  put_file-IsAscending n f ((k, g) ∷ d) (b, o) = elim (Bool-cases (str_eq k n)) [
    | inl same ↦ let is : k ≡ n = (eq_iff k n).0 same in rw same (subst (λ m. Follow m d) is b, o)
    | inr other ↦ elim (Bool-cases (precedes k n)) [
      | inl later ↦
          rw (other, later) (put_file-Follow k n f d later b, put_file-IsAscending n f d o)
      | inr first ↦
          let ne : k ≢ n = λ e. ground (arith, (eq_iff k n).1 e) in
          let b' = precedes_total k n ne first in
          rw (other, first) ((b', Follow-trans n k d b' b), (b, o))
    ]
  ]

  -- A name after all others goes last.
  pub put_file-last :
      (n : String) (f : A) (d : List (String × A))
      → All (λ e. precedes e.0 n ≡ true) d
      → put_file n f d ≡ d ++ (n, f) ∷ []
  unfolding put_file
  put_file-last n f [] h = refl
  put_file-last n f ((k, g) ∷ d) (b, h) = elim (Bool-cases (str_eq k n)) [
    | inl same ↦
        let is : k ≡ n = (eq_iff k n).0 same in
        let no : precedes n n ≡ true = subst (λ m. precedes m n ≡ true) is b in
        absurd (ground (arith, precedes_irrefl n))
    | inr other ↦ rw (other, b) (ap (λ t. (k, g) ∷ t) (put_file-last n f d h))
  ]

  drop-IsAscending : (k : ℕ) (d : List (String × A)) → IsAscending d → IsAscending (drop k d)
  drop-IsAscending zero d o = o
  drop-IsAscending (suc k) [] o = tt
  drop-IsAscending (suc k) ((n, f) ∷ d) (b, o) = drop-IsAscending k d o

  sort_texts-names : (d : List (String × A)) → IsAscending d → sort_texts (names d) ≡ names d
  unfolding sort_texts
  sort_texts-names [] o = refl
  sort_texts-names ((n, f) ∷ []) o = refl
  sort_texts-names ((n, f) ∷ (m, g) ∷ d) ((b, bs), o) =
      ap (insert_text n) (sort_texts-names ((m, g) ∷ d) o) ∙ at_head
    where
      not_after : precedes m n ≡ false
      not_after = elim (Bool-cases (precedes m n)) [
        | inl back ↦
            let no = precedes_trans n m n b back in absurd (ground (arith, precedes_irrefl n))
        | inr fine ↦ fine
      ]

      at_head : insert_text n (m ∷ names d) ≡ n ∷ m ∷ names d
      at_head =
          let raw : before_codes (codes m) (codes n) ≡ false = unfold precedes in not_after in
          rw (raw, insert_text) refl

  keep_others :
      (removable : String → Bool) (n : String) (d : List (String × A))
      → Follow n d
      → keep (λ e. not (str_eq e.0 n && removable n)) d ≡ d
  keep_others removable n [] o = refl
  keep_others removable n ((m, g) ∷ d) (b, o) = elim (Bool-cases (str_eq m n)) [
    | inl same ↦
        let is : m ≡ n = (eq_iff m n).0 same in
        let no : precedes n n ≡ true = subst (λ k. precedes n k ≡ true) is b in
        absurd (ground (arith, precedes_irrefl n))
    | inr other ↦ rw other (ap (λ t. (m, g) ∷ t) (keep_others removable n d o))
  ]

  remove_file-first :
      (removable : String → Bool) (n : String) (f : A) (d : List (String × A))
      → removable n ≡ true
      → Follow n d
      → remove_file removable n ((n, f) ∷ d) ≡ d
  unfolding remove_file
  remove_file-first removable n f d all_go o = rw (eq_refl n, all_go) (keep_others removable n d o)

  remove_files-take :
      (removable : String → Bool) (k : ℕ) (d : List (String × A))
      → ((n : String) → removable n ≡ true)
      → IsAscending d
      → remove_files removable (take k (names d)) d ≡ drop k d
  unfolding remove_files
  remove_files-take removable zero d all_go o = refl
  remove_files-take removable (suc k) [] all_go o = refl
  remove_files-take removable (suc k) ((n, f) ∷ d) all_go (b, o) =
      ap (remove_files removable (take k (names d)))
        (remove_file-first removable n f d (all_go n) b)
      ∙ remove_files-take removable k d all_go o

  length-names : (d : List (String × A)) → length (names d) ≡ length d
  length-names [] = refl
  length-names (e ∷ d) = ap suc (length-names d)

  length-drop : (k : ℕ) (d : List (String × A)) → length (drop k d) ≡ length d - k
  length-drop zero d = omega arith
  length-drop (suc k) [] = omega arith
  length-drop (suc k) (e ∷ d) = omega (arith, length-drop k d)

  -- Where every file can be removed, the last versions stay.
  pub prune_versions_lem :
      (removable : String → Bool) (d : List (String × A))
      → ((n : String) → removable n ≡ true)
      → IsAscending d
      → prune_versions removable d ≡ last_versions d
  unfolding prune_versions
  prune_versions_lem removable d all_go o = elim (Bool-cases (leb (length (names d)) 40)) [
    | inl few ↦
        let none_over : length d - 40 ≡ 0 = ground (arith, length-names d) in
        rw few (rw none_over refl)
    | inr many ↦ rw many (
        rw (sort_texts-names d o, length-names d)
          (remove_files-take removable (length d - 40) d all_go o))
  ]

  pub length-prune_versions :
      (removable : String → Bool) (d : List (String × A))
      → ((n : String) → removable n ≡ true)
      → IsAscending d
      → length (prune_versions removable d) ≤ max_config_versions
  length-prune_versions removable d all_go o =
      rw (prune_versions_lem removable d all_go o)
        (omega (arith, length-drop (length d - max_config_versions) d))

  pub prune_versions-IsAscending :
      (removable : String → Bool) (d : List (String × A))
      → ((n : String) → removable n ≡ true)
      → IsAscending d
      → IsAscending (prune_versions removable d)
  prune_versions-IsAscending removable d all_go o =
      rw (prune_versions_lem removable d all_go o) (drop-IsAscending (length d - 40) d o)
