-- ===== src/Subst/Site/Pattern.antt =====
-- The pattern of the paths of narinfos.
use nix_sandwich.Prelude.{
  subst, ℕ, ◌≡◌, ◌≢◌, ◌↔◌, refl, sym, ◌∙◌, ap, Bool, true, false, Bool-cases, ◌⊎◌, inl, inr, Option,
  some, [], ◌∷◌, ◌++◌, Bytes, codes, bytes_eq, bytes_eq→eq, All, ◌==◌, ==_iff,
}
use nix_sandwich.Subst.Site.{more_of, name_part, info_type, match_info}

module _ (alphabet : ℕ → Bool) where
  -- A name over the alphabet behind a slash, a dot, and one of the two types.
  pub record IsInfoPath (s name type : Bytes) : Type 0 where
    pub spelled : s ≡ b'/' ∷ (name ++ (b'.' ∷ type))
    pub in_alphabet : All (λ c. alphabet c ≡ true) name
    pub some_name : name ≢ []
    pub known : (type ≡ codes "narinfo") ⊎ (type ≡ codes "ls")

  more_of-append :
      (c : ℕ) (p : Bytes × Bytes) → (more_of c p).0 ++ (more_of c p).1 ≡ c ∷ (p.0 ++ p.1)
  more_of-append c (name, rest) = refl

  name_part-split : (s : Bytes) → (name_part alphabet s).0 ++ (name_part alphabet s).1 ≡ s
  unfolding name_part
  name_part-split [] = refl
  name_part-split (c ∷ s) = elim (Bool-cases (alphabet c)) [
    | inl yes_c ↦
        rw yes_c (more_of-append c (name_part alphabet s) ∙ ap (λ l. c ∷ l) (name_part-split s))
    | inr no_c ↦ rw no_c
  ]

  more_of-All :
      (c : ℕ) (p : Bytes × Bytes)
      → alphabet c ≡ true
      → All (λ d. alphabet d ≡ true) p.0
      → All (λ d. alphabet d ≡ true) (more_of c p).0
  more_of-All c (name, rest) h hs = (h, hs)

  name_part-All : (s : Bytes) → All (λ c. alphabet c ≡ true) (name_part alphabet s).0
  unfolding name_part
  name_part-All [] = tt
  name_part-All (c ∷ s) = elim (Bool-cases (alphabet c)) [
    | inl yes_c ↦ rw yes_c (more_of-All c (name_part alphabet s) yes_c (name_part-All s))
    | inr no_c ↦ rw no_c tt
  ]

  name_part-append :
      (name rest : Bytes)
      → alphabet b'.' ≡ false
      → All (λ c. alphabet c ≡ true) name
      → name_part alphabet (name ++ (b'.' ∷ rest)) ≡ (name, b'.' ∷ rest)
  unfolding name_part
  name_part-append [] rest dot h = rw dot
  name_part-append (c ∷ name) rest dot (h, hs) =
      rw h (ap (λ p. more_of c p) (name_part-append name rest dot hs))

  info_type-known :
      (p : Bytes × Bytes) (name type : Bytes)
      → info_type p ≡ some (name, type)
      → (p ≡ (name, b'.' ∷ type)) × (name ≢ []) × ((type ≡ codes "narinfo") ⊎ (type ≡ codes "ls"))
  info_type-known ([], rest) name type h = cc
  info_type-known (c ∷ n, rest) name type h = elim (Bool-cases (bytes_eq rest (codes ".narinfo"))) [
    | inl info ↦
        found (codes "narinfo") (bytes_eq→eq rest (codes ".narinfo") info) (rw info at h)
          (λ e. inl e)
    | inr no_info ↦ elim (Bool-cases (bytes_eq rest (codes ".ls"))) [
      | inl ls ↦
          found (codes "ls") (bytes_eq→eq rest (codes ".ls") ls) (rw (no_info, ls) at h)
            (λ e. inr e)
      | inr no_ls ↦ cc (rw (no_info, no_ls) at h)
    ]
  ]
    where
      found :
          (t : Bytes)
          → rest ≡ b'.' ∷ t
          → ◌≡◌ {A = Option (Bytes × Bytes)} (some (c ∷ n, t)) (some (name, type))
          → (type ≡ t → (type ≡ codes "narinfo") ⊎ (type ≡ codes "ls"))
          → (◌≡◌ {A = Bytes × Bytes} (c ∷ n, rest) (name, b'.' ∷ type))
            × (name ≢ [])
            × ((type ≡ codes "narinfo") ⊎ (type ≡ codes "ls"))
      found t e g k =
          let same_type : type ≡ t = cc in
          let same_name : c ∷ n ≡ name = cc in
          let same_rest : rest ≡ b'.' ∷ type = cc in
          (
            ap (λ r. (c ∷ n, r)) same_rest ∙ ap (λ m. (m, b'.' ∷ type)) same_name,
            (λ z. cc),
            k same_type,
          )

  info_type-IsInfoPath :
      (name type : Bytes)
      → name ≢ []
      → ((type ≡ codes "narinfo") ⊎ (type ≡ codes "ls"))
      → info_type (name, b'.' ∷ type) ≡ some (name, type)
  info_type-IsInfoPath [] type h k = absurd (h refl)
  info_type-IsInfoPath (c ∷ name) type h (inl e) = rw e
  info_type-IsInfoPath (c ∷ name) type h (inr e) = rw e

  match_info_sound :
      (s name type : Bytes) → match_info alphabet s ≡ some (name, type) → IsInfoPath s name type
  unfolding match_info
  match_info_sound [] name type h = cc
  match_info_sound (c ∷ s) name type h = elim (Bool-cases (c == b'/')) [
    | inr other ↦ cc (rw other at h)
    | inl slash ↦
        let (parts, named, known) =
          info_type-known (name_part alphabet s) name type (rw slash at h) in
        record {
          spelled =
              ap (λ d. d ∷ s) ((==_iff c b'/').0 slash)
              ∙ ap (λ l. b'/' ∷ l) (sym (name_part-split s) ∙ ap (λ p. p.0 ++ p.1) parts);
          in_alphabet = subst (λ p. All (λ d. alphabet d ≡ true) p.0) parts (name_part-All s);
          some_name = named;
          known = known;
        }
  ]

  match_info_complete :
      (s name type : Bytes)
      → alphabet b'.' ≡ false
      → IsInfoPath s name type
      → match_info alphabet s ≡ some (name, type)
  unfolding match_info
  match_info_complete s name type dot p =
      rw (p.spelled, match_info, name_part-append name type dot p.in_alphabet)
        (info_type-IsInfoPath name type p.some_name p.known)

  -- A path matches, with a name and a type, exactly if it is a slash, the name over the alphabet, a dot
  -- and the type, which is one of the two; the alphabet has no dot.
  pub match_info_iff :
      (s name type : Bytes)
      → alphabet b'.' ≡ false
      → (match_info alphabet s ≡ some (name, type)) ↔ IsInfoPath s name type
  match_info_iff s name type dot =
      (match_info_sound s name type, match_info_complete s name type dot)
