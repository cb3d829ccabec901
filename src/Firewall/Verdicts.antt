-- ===== src/Firewall/Verdicts.antt =====
-- internal/adapters/nftgen/nftgen.go: what becomes of a packet in a chain that is written in parts.
use sgsu.Prelude.{
  map, ◌∙◌, Bool, true, false, none, some, String, List, [], ◌∷◌, ◌++◌, str_eq, all, only_if, ◌≡◌,
  inl, inr, refl, arith, Bool-cases, eq_iff,
}
use mathlib.Core.List.{Memᴰ}
use sgsu.Firewall.Nft.{Match, Line, first_hit}

module _ (holds : Match → Bool) where
  -- The lines that do not hold of the packet make no difference.
  pub first_hit-skip :
      (ls ks : List Line)
      → first_hit holds ls ≡ none
      → first_hit holds (ls ++ ks) ≡ first_hit holds ks
  first_hit-skip [] ks _ = refl
  first_hit-skip (l ∷ ls) ks miss = elim (Bool-cases (all holds l.matches)) [
    | inl hit ↦ let no : ⊥ = ground arith in absurd no
    | inr off ↦ ground (arith, first_hit-skip ls ks)
  ]

  pub first_hit-stop :
      (v : String) (ls ks : List Line)
      → first_hit holds ls ≡ some v
      → first_hit holds (ls ++ ks) ≡ some v
  first_hit-stop v [] ks h = cc
  first_hit-stop v (l ∷ ls) ks h = elim (Bool-cases (all holds l.matches)) [
    | inl hit ↦ ground arith
    | inr off ↦ ground (arith, first_hit-stop v ls ks)
  ]

  -- Lines that all accept accept a packet as soon as one of them holds.
  pub first_hit-accepts :
      (ls : List Line) (l : Line)
      → all (λ k. str_eq k.verdict "accept") ls ≡ true
      → Memᴰ l ls
      → all holds l.matches ≡ true
      → first_hit holds ls ≡ some "accept"
  first_hit-accepts [] l accepting held hit = elim held [ ]
  first_hit-accepts (k ∷ ls) l accepting (Memᴰ.head same) hit =
      let here : all holds k.matches ≡ true = cc in
      let word : k.verdict ≡ "accept" = ground (arith, eq_iff k.verdict "accept") in ground arith
  first_hit-accepts (k ∷ ls) l accepting (Memᴰ.tail held) hit =
      let rest = first_hit-accepts ls l (ground arith) held hit in
      let word : k.verdict ≡ "accept" = ground (arith, eq_iff k.verdict "accept") in
      elim (Bool-cases (all holds k.matches)) [ inl here ↦ ground arith | inr off ↦ ground arith ]

  -- The verdict of lines is that of one of them that holds.
  pub first_hit-found :
      (v : String) (ls : List Line)
      → first_hit holds ls ≡ some v
      → (l : Line) × Memᴰ l ls × (all holds l.matches ≡ true) × (l.verdict ≡ v)
  first_hit-found v [] h = cc
  first_hit-found v (l ∷ ls) h = elim (Bool-cases (all holds l.matches)) [
    | inl hit ↦ (l, Memᴰ.head refl, hit, ground arith)
    | inr off ↦
        let (k, held, hit, word) = first_hit-found v ls (ground arith) in
        (k, Memᴰ.tail held, hit, word)
  ]

  pub only_if-miss :
      (b : Bool) (ls : List Line)
      → first_hit holds ls ≡ none
      → first_hit holds (only_if b ls) ≡ none
  only_if-miss true ls miss = miss
  only_if-miss false ls miss = refl

  pub both-miss :
      (ls ks : List Line)
      → first_hit holds ls ≡ none
      → first_hit holds ks ≡ none
      → first_hit holds (ls ++ ks) ≡ none
  both-miss ls ks miss later = first_hit-skip ls ks miss ∙ later

  pub map-miss {ℓ} :
      {A : Type ℓ}
      → (f : A → Line) (xs : List A) → ((x : A) → all holds (f x).matches ≡ false)
      → first_hit holds (map f xs) ≡ none
  map-miss f [] miss = refl
  map-miss f (x ∷ xs) miss = ground (arith, miss x, map-miss f xs miss)
