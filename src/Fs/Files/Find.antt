-- ===== src/Fs/Files/Find.antt =====
-- `lookup` against the names that the entries of the table have.
use lilac_os.Base.{
  ℕ, zero, suc, ◌+◌, ◌≤◌, ◌<◌, ◌≡◌, ◌≢◌, ◌⊎◌, inl, inr, refl, sym, subst, List, Option, none, some,
  arith, if◌then◌else◌, length, eq-cases, eq→==, ne→==,
}
use lilac_os.Memory.{Memory, load16}
use lilac_os.Strings.{Comparison, minus_one, nought, one}
use lilac_os.Strings.Laws.{IsString, Compared, strcmp_lem}
use lilac_os.Fs.{fat_at, fat_size, get_block}
use lilac_os.Fs.Files.{filename, take_match, lookup_from, lookup}

-- the inode of entry `i`
abbrev pub inode_at : Memory → ℕ → ℕ
inode_at m i = get_block (load16 m (fat_at i))

module _ (fuel : ℕ) (m : Memory) (name : ℕ) (wanted : List ℕ) (names : ℕ → List ℕ) where
  -- Entry `i` is in use and has the name.
  pub record IsMatch (i : ℕ) : Type 0 where
    pub used : load16 m (fat_at i) ≢ 0
    pub named : names i ≡ wanted

  -- The first match from entry `lo` on, below `hi`, if there is one.
  pub record IsFound (lo hi i : ℕ) (result : Option (Option ℕ)) : Type 0 where
    pub returns : result ≡ some (some (inode_at m i))
    pub from : lo ≤ i
    pub below : i < hi
    pub match : IsMatch i
    pub least : (k : ℕ) → lo ≤ k → k < i → ¬ (IsMatch k)

  pub record IsMissing (lo hi : ℕ) (result : Option (Option ℕ)) : Type 0 where
    pub returns : result ≡ some none
    pub nowhere : (k : ℕ) → lo ≤ k → k < hi → ¬ (IsMatch k)

  abbrev Searched : ℕ → ℕ → Option (Option ℕ) → Type 0
  Searched lo hi result = ((i : ℕ) × IsFound lo hi i result) ⊎ IsMissing lo hi result

  -- The inodes in use have these names, and the fuel is above their lengths.
  pub record HasNames : Type 0 where
    pub target : IsString m name wanted
    pub strings :
        (i : ℕ)
        → i < fat_size
        → load16 m (fat_at i) ≢ 0
        → IsString m (filename (inode_at m i)) (names i)
    pub enough : (i : ℕ) → i < fat_size → length (names i) < fuel

  skip :
      (lo hi : ℕ) {result : Option (Option ℕ)}
      → ¬ (IsMatch lo)
      → Searched (lo + 1) hi result
      → Searched lo hi result
  skip lo hi differs (inl (i, f)) = inl (
    i,
    record {
      returns = f.returns;
      from = omega (arith, f.from);
      below = f.below;
      match = f.match;
      least = λ k p q. elim (eq-cases k lo) [
        | inl e ↦ subst (λ x. ¬ (IsMatch x)) (sym e) differs
        | inr ne ↦ f.least k (omega arith) q
      ];
    },
  )
  skip lo hi differs (inr f) = inr (record {
    returns = f.returns;
    nowhere = λ k p q. elim (eq-cases k lo) [
      | inl e ↦ subst (λ x. ¬ (IsMatch x)) (sym e) differs
      | inr ne ↦ f.nowhere k (omega arith) q
    ];
  })

  taken :
      (o : Comparison) (i hi : ℕ) (rest : Option (Option ℕ))
      → i < hi
      → load16 m (fat_at i) ≢ 0
      → Compared (some o) (names i) wanted
      → Searched (i + 1) hi rest
      → Searched i hi (take_match (some o) (inode_at m i) rest)
  unfolding take_match
  taken nought i hi rest p u c s = inl (
    i,
    record {
      returns = refl;
      from = omega arith;
      below = p;
      match = record { used = u; named = c.equal refl };
      least = λ k lo q. absurd (omega arith);
    },
  )
  taken minus_one i hi rest p u c s =
      skip i hi (λ match. absurd (ground (arith, c.same match.named))) s
  taken one i hi rest p u c s = skip i hi (λ match. absurd (ground (arith, c.same match.named))) s

  lookup_from_lem :
      (rounds i : ℕ)
      → HasNames
      → i + rounds ≡ fat_size
      → Searched i fat_size (lookup_from fuel rounds m i name)
  unfolding lookup_from
  lookup_from_lem zero i h e =
      inr (record { returns = refl; nowhere = λ k p q. absurd (omega arith) })
  lookup_from_lem (suc rounds) i h e = elim (eq-cases (load16 m (fat_at i)) 0) [
    | inl free ↦ rw (eq→== (load16 m (fat_at i)) 0 free) (
        skip i fat_size (λ match. match.used free) (lookup_from_lem rounds (i + 1) h (omega arith)))
    | inr u ↦
        let c =
          strcmp_lem fuel m (filename (inode_at m i)) name (names i) wanted
            (h.strings i (omega arith) u) h.target (h.enough i (omega arith)) in
        rw (ne→== (load16 m (fat_at i)) 0 u, if◌then◌else◌, c.returns)
          (taken _ i fat_size _ (omega arith) u
            (subst (λ r. Compared r (names i) wanted) c.returns c)
            (lookup_from_lem rounds (i + 1) h (omega arith)))
  ]

  -- Where the inodes in use have names that end within the fuel, lookup returns the inode of the
  -- first entry in use with the name that it is asked for, or NULL where there is none.
  pub lookup_lem :
      HasNames
      → ((i : ℕ) × IsFound 0 fat_size i (lookup fuel m name))
        ⊎ IsMissing 0 fat_size (lookup fuel m name)
  unfolding lookup
  lookup_lem h = lookup_from_lem fat_size 0 h refl
